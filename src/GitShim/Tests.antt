-- ===== src/GitShim/Tests.antt =====
-- A repository that holds only refs, whose commits are descendants when their name is longer, and
-- requests that move a branch, ahead and back;
-- and a repository of trees only, to which two files are written.
use ad4m_link_language_tests.Prelude.{
  Text, Dict, str, ◌≡◌, ◌≢◌, refl, Bool, false, ltb, Option, none, some, List, [], ◌∷◌, ◌===◌, ◌⊎◌,
  starts_with, length, lookup, insert, lookup-insert, text_refl, text_iff, if◌then◌else◌, arith,
  All, ℕ, zero, suc, ◌++◌, true, get_elem?, get_elem?-left, get_elem?-last, Option-cases, ap, sym,
  ◌∙◌, inl, inr,
}
use ad4m_link_language_tests.Prelude.Outcome.{Outcome, returned, threw, ◌>>=◌}
use ad4m_link_language_tests.GitShim.{
  Git, Platform, RefBody, TreeEntry, Entry, FullEntry, repo_key, and_then,
}
use ad4m_link_language_tests.GitShim.Trees.{
  split_slash, subtree, leaf_of, write_nested_tree, read_tree_recursive,
}
use ad4m_link_language_tests.GitShim.Trees.Paths.{slashes, HasNames, IsFile}
use ad4m_link_language_tests.GitShim.Trees.Reads.{IsTreeStore, Has}
use ad4m_link_language_tests.GitShim.Trees.RoundTrip.{write_nested_tree-read_tree_recursive}
use ad4m_link_language_tests.GitShim.Heads.{IsRefStore, Ahead}
use ad4m_link_language_tests.GitShim.Routes.{Request, on_resource, rejected, request_handler, serve}
use ad4m_link_language_tests.GitShim.Routes.Safe.{is_forced, keeps_to_branches, IsUnforced}
use ad4m_link_language_tests.GitShim.Routes.Serve.{serve-fast_forward}

abbrev Refs : Type 0
Refs = Dict Text

write : Text → Option Text → Refs → Refs × Outcome (Unit {0})
unfolding insert
write ref none g = (g, threw (str "Missing value"))
write ref (some sha) g = (insert ref sha g, returned tt)

longer : Option Text → Text → Outcome Bool
longer none a = threw (str "Missing oid")
longer (some b) a = returned (ltb (length a) (length b))

abbrev only_refs : Git Refs
only_refs = record {
  resolve_ref = lookup;
  write_ref = λ ref sha force g. write ref sha g;
  is_descendent = λ b a g. longer b a;
  write_blob = λ bytes g. (g, returned bytes);
  write_tree = λ tree g. (g, threw (str "read only"));
  write_commit = λ c g. (g, returned c.message);
  read_blob = λ oid g. threw (str "Could not find");
  read_tree = λ oid g. threw (str "Could not find");
  read_commit = λ oid g. threw (str "Could not find");
}

only_refs-others :
    (ref : Text) (sha : Option Text) (g : Refs) (other a : Text)
    → ref ≢ other
    → lookup other g ≡ some a
    → lookup other ((write ref sha g).0) ≡ some a
unfolding write
only_refs-others ref none g other a apart h = h
only_refs-others ref (some sha) g other a apart h =
    ground (arith, lookup-insert ref other sha g, text_iff ref other, apart, h)

only_refs-failed :
    (ref e : Text) (sha : Option Text) (g : Refs)
    → (write ref sha g).1 ≡ threw e
    → (write ref sha g).0 ≡ g
unfolding write
only_refs-failed ref e none g h = refl
only_refs-failed ref e (some sha) g h = absurd (ground (arith, h))

only_refs-IsRefStore : IsRefStore only_refs
unfolding write
only_refs-IsRefStore = record {
  written =
      λ ref sha a force g is next h. ground (arith, lookup-insert ref ref sha g, text_refl ref);
  others =
      λ ref sha force g other a is branch apart h. inl (only_refs-others ref sha g other a apart h);
  failed = λ ref e sha force g other branch h. ap (lookup other) (only_refs-failed ref e sha g h);
  needs_value = λ ref force g h. absurd (ground (arith, h));
  blob_apart = λ ref bytes g is. refl;
  tree_apart = λ ref tree g is. refl;
  commit_apart = λ ref c g is. refl;
}

unfoldable as_sha : Text → Outcome RefBody
as_sha [] = threw (str "Unexpected end of JSON input")
as_sha (c ∷ s) = returned (record { ref = none; sha = some (c ∷ s); force = false })

abbrev platform : Platform
platform = record {
  ref_body = as_sha;
  blob_body = λ t. threw (str "no blob");
  tree_body = λ t. threw (str "no tree");
  commit_body = λ t. threw (str "no commit");
  from_base64 = λ t. t;
  from_utf8 = λ t. t;
  to_base64 = λ t. t;
  parse_date = λ t. none;
  to_iso = λ n. [];
  decode_uri = λ t. if t === str "%" then threw (str "URI malformed") else returned t;
}

abbrev to : Text → Text → Request
to path sha = record {
  method = str "PATCH";
  pathname = returned path;
  if_none_match = none;
  body = sha;
}

abbrev main_path : Text
main_path = str "/repos/o/r/git/refs/heads/main"

abbrev repos : Dict Refs
repos = (str "o__r", (str "refs/heads/main", str "aa") ∷ []) ∷ []

abbrev moves : List Request
moves = to main_path (str "aaa") ∷ to main_path (str "b") ∷ []

moves-IsUnforced : All (IsUnforced platform) moves
unfolding is_forced keeps_to_branches as_sha
moves-IsUnforced = ((refl, refl), ((refl, refl), tt))

served :
    serve platform only_refs 9 (returned []) moves repos
    ≡ (str "o__r", (str "refs/heads/main", str "aaa") ∷ []) ∷ []
unfolding serve on_resource and_then repo_key as_sha write longer lookup insert ◌===◌ ◌>>=◌
served = refl

malformed-rejected :
    request_handler platform only_refs 9 (returned []) (to (str "/repos/%/r/git/refs") []) repos
    ≡ (repos, rejected (str "URI malformed"))
unfolding request_handler repo_key ◌===◌ ◌>>=◌
malformed-rejected = refl

-- Two repositories with one key.
keys-collide : repo_key (str "a") (str "b__c") ≡ repo_key (str "a__b") (str "c")
unfolding repo_key
keys-collide = refl

serve-fast_forward_example :
    (g' : Refs) × (b : Text) × (lookup
        (str "o__r")
        (serve platform only_refs 9 (returned []) moves repos)
      ≡ some g')
    × (lookup (str "refs/heads/main") g' ≡ some b)
    × Ahead only_refs (str "aa") b
unfolding lookup starts_with ◌===◌
serve-fast_forward_example =
    serve-fast_forward only_refs only_refs-IsRefStore platform 9 (returned []) moves repos
      (str "o__r") (str "refs/heads/main") (str "aa") ((str "refs/heads/main", str "aa") ∷ [])
      moves-IsUnforced refl refl refl

-- The numbers of the trees stand for their ids.
zeros : ℕ → Text
zeros zero = []
zeros (suc n) = 0 ∷ zeros n

length-zeros : (n : ℕ) → length (zeros n) ≡ n
unfolding zeros
length-zeros zero = refl
length-zeros (suc n) = ap suc (length-zeros n)

tree_at : Option (List TreeEntry) → Outcome (List TreeEntry)
tree_at none = threw (str "NotFoundError")
tree_at (some ts) = returned ts

abbrev tree_store : Git (List (List TreeEntry))
tree_store = record {
  resolve_ref = λ ref g. none;
  write_ref = λ ref sha force g. (g, returned tt);
  is_descendent = λ sha current g. returned true;
  write_blob = λ content g. (g, returned content);
  write_tree = λ tree g. (g ++ tree ∷ [], returned (zeros (length g)));
  write_commit = λ commit g. (g, returned []);
  read_blob = λ oid g. returned oid;
  read_tree = λ oid g. tree_at (get_elem? g (length oid));
  read_commit = λ oid g. threw (str "NotFoundError");
}

-- The store accepts files and the trees it wrote, and any name.
Takes : TreeEntry → Type 0
unfolding ◌===◌
Takes t = ((t.mode === str "100644") ≡ true) ⊎ ((t.mode === str "040000") ≡ true)

AnyName : Text → Type 0
AnyName name = Unit

tree_store-IsTreeStore : IsTreeStore tree_store Takes AnyName
unfolding tree_at Takes subtree ◌===◌
tree_store-IsTreeStore = record {
  writes = λ tree g _. (
    zeros (length g),
    tree,
    refl,
    ap (λ n. tree_at (get_elem? (g ++ tree ∷ []) n)) (length-zeros (length g))
        ∙ ap tree_at (get_elem?-last g tree),
    (λ t i. i),
    (λ t i. i),
  );
  subtrees = λ tree g name oid wrote fine. inr refl;
  keeps = λ tree g oid ts h. elim (Option-cases (get_elem? g (length oid))) [
    | inl lost ↦ (let thrown = sym (ap tree_at lost) ∙ h in absurd (ground (arith, thrown)))
    | inr (found, at) ↦
        ap tree_at (get_elem?-left g (tree ∷ []) (length oid) found at) ∙ sym (ap tree_at at) ∙ h
  ];
}

abbrev file : Text → Text → Entry
file path sha = record { path = path; mode = []; type = str "blob"; sha = sha }

abbrev two_files : List Entry
two_files = file (str "a/b.txt") (str "1") ∷ file (str "c.txt") (str "2") ∷ []

two_files-IsFile : All (IsFile Takes AnyName 1) two_files
unfolding slashes HasNames split_slash leaf_of Takes AnyName ◌===◌
two_files-IsFile = (
  record { shallow = omega arith; named = ((λ e. ground (arith, e)), tt, inl refl); plain = refl },
  (record { shallow = omega arith; named = inl refl; plain = refl }, tt),
)

write_nested_tree-read_tree_recursive_example :
    (oid : Text) × (fs : List FullEntry) × ((write_nested_tree tree_store 2 two_files []).1
      ≡ returned oid)
    × (read_tree_recursive tree_store 2 (write_nested_tree tree_store 2 two_files []).0 oid []
        ≡ returned fs)
    × All (λ e. Has e.path e.sha fs) two_files
write_nested_tree-read_tree_recursive_example =
    write_nested_tree-read_tree_recursive tree_store Takes AnyName tree_store-IsTreeStore 1
      two_files [] two_files-IsFile
