-- ===== src/GitShim/Routes/Serve.antt =====
-- infra/git-data-shim.mjs: the repositories over a sequence of requests.
use ad4m_link_language_tests.Prelude.{
  Text, Dict, str, ℕ, ◌≡◌, true, refl, sym, subst, ◌&&◌, Option, none, some, inl, inr, List, [],
  ◌∷◌, ◌===◌, lookup, insert, lookup-insert, text_iff, arith, All, Bool-cases,
}
use ad4m_link_language_tests.Prelude.Outcome.{Outcome, returned, threw}
use ad4m_link_language_tests.GitShim.{Git, Platform, Response}
use ad4m_link_language_tests.GitShim.Heads.{
  IsRefStore, is_branch, Ahead, Advances, Advances-refl, Advances-trans, Advances-apply,
}
use ad4m_link_language_tests.GitShim.Routes.{
  Request, on_resource, ensure_repo, finished, opened, on_repo, target, routed, parts_of, at_path,
  request_handler, serve,
}
use ad4m_link_language_tests.GitShim.Routes.Safe.{IsUnforced, on_resource-IsSafe}

module _ {G : Type 0} (git : Git G) (laws : IsRefStore git) (platform : Platform) (stack : ℕ)
    (init : Outcome G) where
  -- Each repository is still there, with its branches where they were or ahead.
  AllAdvance : Dict G → Dict G → Type 0
  AllAdvance repos repos' =
      (key : Text) (g : G)
      → lookup key repos ≡ some g
      → (g' : G) × (lookup key repos' ≡ some g') × Advances git g g'

  AllAdvance-refl : (repos : Dict G) → AllAdvance repos repos
  unfolding AllAdvance
  AllAdvance-refl repos key g e = (g, e, Advances-refl git g)

  -- The key that is written holds a repository that comes from the one that was there.
  AllAdvance-insert :
      (key : Text) (repos : Dict G) (k : G)
      → ((g : G) → lookup key repos ≡ some g → Advances git g k)
      → AllAdvance repos (insert key k repos)
  unfolding AllAdvance
  AllAdvance-insert key repos k from other g e = elim (Bool-cases (key === other)) [
    | inr apart ↦
        (g, ground (arith, lookup-insert key other k repos, apart, e), Advances-refl git g)
    | inl at ↦
        (let same : key ≡ other = (text_iff key other).0 at in
          (
            k,
            ground (arith, lookup-insert key other k repos, at),
            from g (subst (λ x. lookup x repos ≡ some g) (sym same) e),
          ))
  ]

  finished-AllAdvance :
      (key : Text) (repos : Dict G) (p : G × Outcome Response)
      → ((g : G) → lookup key repos ≡ some g → Advances git g (p.0))
      → AllAdvance repos ((finished platform git stack key repos p).0)
  unfolding finished
  finished-AllAdvance key repos (k, returned response) from = AllAdvance-insert key repos k from
  finished-AllAdvance key repos (k, threw e) from = AllAdvance-insert key repos k from

  ensure_repo_there :
      (o : Option G) (g k : G)
      → o ≡ some g
      → ensure_repo platform git stack init o ≡ returned k
      → g ≡ k
  unfolding ensure_repo
  ensure_repo_there none g k e h = absurd (ground (arith, e))
  ensure_repo_there (some x) g k e h = ground (arith, e, h)

  opened-AllAdvance :
      (r : Request) (key resource : Text) (rest : List Text) (repos : Dict G) (o : Outcome G)
      → IsUnforced platform r
      → ensure_repo platform git stack init (lookup key repos) ≡ o
      → AllAdvance repos ((opened platform git stack init r key resource rest repos o).0)
  unfolding opened
  opened-AllAdvance r key resource rest repos (threw x) h e = AllAdvance-refl repos
  opened-AllAdvance r key resource rest repos (returned k) h e =
      finished-AllAdvance key repos (on_resource platform git stack r resource rest k) (λ g found.
        rw (ensure_repo_there (lookup key repos) g k found e)
          (on_resource-IsSafe git laws platform stack r resource rest k h))

  on_repo-AllAdvance :
      (r : Request) (resource : Text) (repos : Dict G) (o : Outcome (Text × List Text))
      → IsUnforced platform r
      → AllAdvance repos ((on_repo platform git stack init r resource repos o).0)
  unfolding on_repo
  on_repo-AllAdvance r resource repos (threw x) h = AllAdvance-refl repos
  on_repo-AllAdvance r resource repos (returned (key, rest)) h =
      opened-AllAdvance r key resource rest repos
        (ensure_repo platform git stack init (lookup key repos)) h refl

  routed-AllAdvance :
      (r : Request) (parts : List Text) (repos : Dict G)
      → IsUnforced platform r
      → AllAdvance repos ((routed platform git stack init r parts repos).0)
  unfolding routed
  routed-AllAdvance r [] repos h = AllAdvance-refl repos
  routed-AllAdvance r (a ∷ []) repos h = AllAdvance-refl repos
  routed-AllAdvance r (a ∷ (b ∷ [])) repos h = AllAdvance-refl repos
  routed-AllAdvance r (a ∷ (b ∷ (c ∷ []))) repos h = AllAdvance-refl repos
  routed-AllAdvance r (a ∷ (b ∷ (c ∷ (d ∷ [])))) repos h = AllAdvance-refl repos
  routed-AllAdvance r (api ∷ (owner ∷ (repo ∷ (kind ∷ (resource ∷ rest))))) repos h =
      elim (Bool-cases (api === str "repos" && kind === str "git")) [
        | inl e ↦ rw e (on_repo-AllAdvance r resource repos (target platform owner repo rest) h)
        | inr e ↦ rw e (AllAdvance-refl repos)
      ]

  at_path-AllAdvance :
      (r : Request) (o : Outcome Text) (repos : Dict G)
      → IsUnforced platform r
      → AllAdvance repos ((at_path platform git stack init r o repos).0)
  unfolding at_path
  at_path-AllAdvance r (threw e) repos h = AllAdvance-refl repos
  at_path-AllAdvance r (returned path) repos h = routed-AllAdvance r (parts_of path) repos h

  AllAdvance-trans :
      (repos mid repos' : Dict G)
      → AllAdvance repos mid
      → AllAdvance mid repos'
      → AllAdvance repos repos'
  unfolding AllAdvance
  AllAdvance-trans repos mid repos' p q key g e =
      let (g', e', s) = p key g e in
      let (g'', e'', s') = q key g' e' in (g'', e'', Advances-trans git g g' g'' s s')

  serve-AllAdvance :
      (rs : List Request) (repos : Dict G)
      → All (IsUnforced platform) rs
      → AllAdvance repos (serve platform git stack init rs repos)
  unfolding serve request_handler
  serve-AllAdvance [] repos h = AllAdvance-refl repos
  serve-AllAdvance (r ∷ rs) repos (p, h) =
      let next = (at_path platform git stack init r r.pathname repos).0 in
      AllAdvance-trans repos next (serve platform git stack init rs next)
        (at_path-AllAdvance r r.pathname repos p) (serve-AllAdvance rs next h)

  -- No request loses a branch or moves it back unless it forces it to: over any sequence of
  -- requests without `force`, which name refs only as branches in full (`refs/heads/…`), a branch of
  -- a repository that resolved to a commit still resolves, to that commit or to one that the library
  -- finds to be its descendant, step by step. The library's refs are taken to be an `IsRefStore`.
  pub serve-fast_forward :
      (rs : List Request) (repos : Dict G) (key ref a : Text) (g : G)
      → All (IsUnforced platform) rs
      → lookup key repos ≡ some g
      → is_branch ref ≡ true
      → git.resolve_ref ref g ≡ some a
      → (g' : G) × (b : Text) × (lookup key (serve platform git stack init rs repos) ≡ some g')
        × (git.resolve_ref ref g' ≡ some b)
        × Ahead git a b
  unfolding AllAdvance
  serve-fast_forward rs repos key ref a g h found is at =
      let (g', e, s) = serve-AllAdvance rs repos h key g found in
      let (b, f, ahead) = Advances-apply git g g' ref a s is at in (g', b, e, f, ahead)
