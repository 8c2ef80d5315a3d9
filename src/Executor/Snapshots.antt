-- ===== src/Executor/Snapshots.antt =====
-- src/executor.ts: the snapshot that a build leaves in its two places and in the cache.
use ad4m_link_language_tests.Executor
use ad4m_link_language_tests.Prelude.Outcome.{Outcome, returned, ◌>>=◌, bind-returned, returned_inj}
use ad4m_link_language_tests.Prelude.{
  Text, Bool-cases, Option, none, some, [], ◌∷◌, ◌===◌, ◌≡◌, ◌≢◌, refl, sym, ap, ◌∙◌, subst, inl,
  inr, arith, text_refl,
}

-- A written path has its content; another path that had this content still has it.
write_same : (p s : Text) (fs : Executor.Files) → Executor.write p s fs p ≡ some s
unfolding Executor.write
write_same p s fs = ground (arith, text_refl p)

write_keeps :
    (p s q : Text) (fs : Executor.Files) → fs q ≡ some s → Executor.write p s fs q ≡ some s
unfolding Executor.write
write_keeps p s q fs h = elim (Bool-cases (q === p)) [
  | inl same ↦ ground (arith, same)
  | inr apart ↦ ground (arith, apart, h)
]

copied-lem :
    (p q : Text) (fs fs' : Executor.Files) (o : Option Text)
    → Executor.copied p q fs o ≡ returned fs'
    → (s : Text) × (o ≡ some s) × (Executor.write q s fs ≡ fs')
unfolding Executor.copied
copied-lem p q fs fs' none e = absurd (ground (arith, e))
copied-lem p q fs fs' (some s) e = (s, refl, returned_inj (Executor.write q s fs) fs' e)

-- After a copy both paths have the content, and every path that had it has it still.
copy-lem :
    (p q : Text) (fs fs' : Executor.Files)
    → Executor.copy p q fs ≡ returned fs'
    → (s : Text) × (fs p ≡ some s)
      × (fs' q ≡ some s)
      × ((r : Text) → fs r ≡ some s → fs' r ≡ some s)
unfolding Executor.copy
copy-lem p q fs fs' h =
    let (s, had, same) = copied-lem p q fs fs' (fs p) h in
    let at : (r : Text) → Executor.write q s fs r ≡ fs' r = λ r. ap (λ f. f r) same in
    (s, had, sym (at q) ∙ write_same q s fs, λ r e. sym (at r) ∙ write_keeps q s r fs e)

abbrev IsCached : Option Text → Text → Executor.Files → Type 0
IsCached none s fs = Unit
IsCached (some cache) s fs = fs cache ≡ some s

-- A content that stands at both places of the build, and in the cache if there is one.
abbrev pub IsPlaced : Executor.Paths → Text → Executor.Files → Type 0
IsPlaced p s fs = (fs p.root ≡ some s) × (fs p.rust ≡ some s) × IsCached p.cache s fs

cache_it_lem :
    (rust s : Text) (cache : Option Text) (fs fs' : Executor.Files)
    → fs rust ≡ some s
    → Executor.cache_it rust cache fs ≡ returned fs'
    → IsCached cache s fs' × ((r : Text) → fs r ≡ some s → fs' r ≡ some s)
unfolding Executor.cache_it
cache_it_lem rust s none fs fs' had h =
    let same = returned_inj fs fs' h in (tt, λ r e. sym (ap (λ f. f r) same) ∙ e)
cache_it_lem rust s (some cache) fs fs' had h =
    let (s2, had2, has, keeps) = copy-lem rust cache fs fs' h in
    let one : s2 ≡ s = ground (arith, had, had2) in
    (has ∙ ap some one, λ r e. keeps r (e ∙ ap some (sym one)) ∙ ap some one)

generated-IsPlaced :
    (w : Executor.World) (dir : Text) (p : Executor.Paths) (fs fs' : Executor.Files)
    → Executor.generated w dir p fs ≡ returned fs'
    → (s : Text) × IsPlaced p s fs'
unfolding Executor.generated
generated-IsPlaced w dir p fs fs' h =
    let (fs1, _, h1) =
      bind-returned
        (w.exec (Executor.generate_snapshot dir)
          (Executor.write p.rust [] (Executor.write p.root [] fs)))
        (λ fs. Executor.copy p.rust p.root fs >>= Executor.cache_it p.rust p.cache) fs' h in
    let (fs2, copies, h2) =
      bind-returned (Executor.copy p.rust p.root fs1) (Executor.cache_it p.rust p.cache) fs' h1 in
    let (s, had, has, keeps) = copy-lem p.rust p.root fs1 fs2 copies in
    let (cached, still) = cache_it_lem p.rust s p.cache fs2 fs' (keeps p.rust had) h2 in
    (s, (still p.root has, still p.rust (keeps p.rust had), cached))

from_cache-IsPlaced :
    (w : Executor.World) (dir root rust cache : Text) (fs fs' : Executor.Files) (o : Option Text)
    → Executor.from_cache w dir (record { root = root; rust = rust; cache = some cache }) cache fs o
      ≡ returned fs'
    → (s : Text) × IsPlaced (record { root = root; rust = rust; cache = some cache }) s fs'
unfolding Executor.from_cache
from_cache-IsPlaced w dir root rust cache fs fs' none h =
    generated-IsPlaced w dir (record { root = root; rust = rust; cache = some cache }) fs fs' h
from_cache-IsPlaced w dir root rust cache fs fs' (some []) h =
    generated-IsPlaced w dir (record { root = root; rust = rust; cache = some cache }) fs fs' h
from_cache-IsPlaced w dir root rust cache fs fs' (some (c ∷ cs)) h =
    let (fs1, copies, h1) =
      bind-returned (Executor.copy cache root fs) (Executor.copy cache rust) fs' h in
    let (s1, had1, has1, keeps1) = copy-lem cache root fs fs1 copies in
    let (s, had, has, keeps) = copy-lem cache rust fs1 fs' h1 in
    let still = keeps1 cache had1 in
    let one : s1 ≡ s = ground (arith, still, had) in
    (s, (keeps root (has1 ∙ ap some one), has, keeps cache had))

place-IsPlaced :
    (w : Executor.World) (dir root rust : Text) (cache : Option Text) (fs fs' : Executor.Files)
    → Executor.place_snapshots w dir (record { root = root; rust = rust; cache = cache }) cache fs
      ≡ returned fs'
    → (s : Text) × IsPlaced (record { root = root; rust = rust; cache = cache }) s fs'
unfolding Executor.place_snapshots
place-IsPlaced w dir root rust none fs fs' h =
    generated-IsPlaced w dir (record { root = root; rust = rust; cache = none }) fs fs' h
place-IsPlaced w dir root rust (some cache) fs fs' h =
    from_cache-IsPlaced w dir root rust cache fs fs' (fs cache) h

-- Two file systems that agree on the cache, if there is one.
abbrev pub SameCache : Option Text → Executor.Files → Executor.Files → Type 0
SameCache none fs fs' = Unit
SameCache (some cache) fs fs' = fs' cache ≡ fs cache

-- `cargo build` leaves these three files as they are, whatever else it writes.
unfoldable pub KeepsSnapshots : Executor.World → Text → Executor.Paths → Type 0
KeepsSnapshots w dir p =
    (fs fs' : Executor.Files)
    → w.exec (Executor.build_binary dir) fs ≡ returned fs'
    → (fs' p.root ≡ fs p.root) × (fs' p.rust ≡ fs p.rust) × SameCache p.cache fs fs'

same-IsCached :
    (cache : Option Text) (s : Text) (fs fs' : Executor.Files)
    → SameCache cache fs fs'
    → IsCached cache s fs
    → IsCached cache s fs'
same-IsCached none s fs fs' same h = tt
same-IsCached (some cache) s fs fs' same h = same ∙ h

-- `cargo build` keeps what was placed.
built-IsPlaced :
    (w : Executor.World) (dir : Text) (p : Executor.Paths) (s : Text) (fs fs' : Executor.Files)
    → KeepsSnapshots w dir p
    → w.exec (Executor.build_binary dir) fs ≡ returned fs'
    → IsPlaced p s fs
    → IsPlaced p s fs'
unfolding KeepsSnapshots
built-IsPlaced w dir p s fs fs' keeps built (at_root, at_rust, cached) =
    let (root, rust, cache) = keeps fs fs' built in
    (root ∙ at_root, rust ∙ at_rust, same-IsCached p.cache s fs fs' cache cached)

module _ (w : Executor.World) (c : Executor.ExecutorConfig) where
  found-binary :
      (path : Text) (fs : Executor.Files) (o : Option Text) (binary : Text) (fs' : Executor.Files)
      → Executor.found_binary path fs o ≡ returned (binary, fs')
      → (path ≡ binary) × (fs ≡ fs') × (o ≢ none)
  unfolding Executor.found_binary
  found-binary path fs none binary fs' h = absurd (ground (arith, h))
  found-binary path fs (some x) binary fs' h =
      let same = returned_inj (path, fs) (binary, fs') h in
      (ap (λ r. r.0) same, ap (λ r. r.1) same, λ e. ground (arith, e))

  -- The revision that the clone's `Cargo.lock` resolves to.
  unfoldable pub revision_in : Executor.Files → Option Text
  revision_in cloned =
      Executor.deno_runtime_revision w c.build_dir (Executor.with_page c.build_dir cloned)

  -- When `cargo build` leaves the snapshots in their places, a build that returns from a clone returns the path of a binary that exists, and leaves one and the same snapshot in the
  -- root of the build, beside the executor's sources and, if the clone's revision is known, in the
  -- cache under that revision, whether it was taken from the cache or generated.
  pub built_from-IsPlaced :
      (cloned : Executor.Files) (binary : Text) (fs' : Executor.Files)
      → KeepsSnapshots w c.build_dir (Executor.paths_of w c.build_dir (revision_in cloned))
      → Executor.built_from w c cloned ≡ returned (binary, fs')
      → (binary ≡ Executor.binary_path c.build_dir)
        × (fs' binary ≢ none)
        × ((s : Text) × IsPlaced (Executor.paths_of w c.build_dir (revision_in cloned)) s fs')
  unfolding Executor.built_from revision_in
  built_from-IsPlaced cloned binary fs' keeps h =
      let dir = c.build_dir in
      let p = Executor.paths_of w dir (revision_in cloned) in
      let rest : Executor.Files → Outcome (Text × Executor.Files) =
        λ fs. Executor.found_binary (Executor.binary_path dir) fs (fs (Executor.binary_path dir)) in
      let (fs1, placed, h1) =
        bind-returned
          (Executor.place_snapshots w dir p p.cache
            (Executor.with_schema c.adam_repo_path dir (Executor.with_page dir cloned)))
          (λ fs. w.exec (Executor.build_binary dir) fs >>= rest) (binary, fs') h in
      let (fs2, built, h2) =
        bind-returned (w.exec (Executor.build_binary dir) fs1) rest (binary, fs') h1 in
      let (path, last, there) =
        found-binary (Executor.binary_path dir) fs2 (fs2 (Executor.binary_path dir)) binary fs'
          h2 in
      let (s, at) =
        place-IsPlaced w dir p.root p.rust p.cache
          (Executor.with_schema c.adam_repo_path dir (Executor.with_page dir cloned)) fs1 placed in
      (
        sym path,
        (λ e. there (ap fs2 path ∙ ap (λ f. f binary) last ∙ e)),
        (s, subst (IsPlaced p s) last (built-IsPlaced w dir p s fs1 fs2 keeps built at)),
      )
