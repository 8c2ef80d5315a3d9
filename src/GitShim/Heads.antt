-- ===== src/GitShim/Heads.antt =====
-- infra/git-data-shim.mjs: where the branches of a repository stand after a request.
use ad4m_link_language_tests.Prelude.{
  Text, ◌≡◌, ◌≢◌, refl, ◌∙◌, subst, Bool, true, Option, none, some, inl, inr, ◌⊎◌, List, str,
  starts_with, ◌===◌, text_iff, arith, Bool-cases,
}
use ad4m_link_language_tests.Prelude.Outcome.{Outcome, returned, threw, Outcome-cases}
use ad4m_link_language_tests.GitShim.{Git, TreeEntry, Commit, and_then}

-- A ref that is named as a branch in full.
abbrev pub is_branch : Text → Bool
is_branch ref = starts_with ref (str "refs/heads/")

-- What the shim relies on, for refs that are named as branches in full: a branch to which a commit
-- is written resolves to it; another branch that resolves still does so to the same, unless it
-- stands for the branch that is written and follows it; a write without a value or that fails moves
-- no branch, and objects that are written move none.
pub record IsRefStore {G : Type 0} (git : Git G) : Type 0 where
  pub written :
      (ref sha a : Text) (force : Bool) (g : G)
      → is_branch ref ≡ true
      → git.is_descendent (some sha) a g ≡ returned true
      → (git.write_ref ref (some sha) force g).1 ≡ returned tt
      → git.resolve_ref ref ((git.write_ref ref (some sha) force g).0) ≡ some sha
  pub others :
      (ref : Text) (sha : Option Text) (force : Bool) (g : G) (other a : Text)
      → is_branch ref ≡ true
      → is_branch other ≡ true
      → ref ≢ other
      → git.resolve_ref other g ≡ some a
      → (git.resolve_ref other ((git.write_ref ref sha force g).0) ≡ some a)
        ⊎ ((git.resolve_ref ref g ≡ some a)
            × (git.resolve_ref other ((git.write_ref ref sha force g).0)
                ≡ git.resolve_ref ref ((git.write_ref ref sha force g).0)))
  pub failed :
      (ref e : Text) (sha : Option Text) (force : Bool) (g : G) (other : Text)
      → is_branch other ≡ true
      → (git.write_ref ref sha force g).1 ≡ threw e
      → git.resolve_ref other ((git.write_ref ref sha force g).0) ≡ git.resolve_ref other g
  pub needs_value :
      (ref : Text) (force : Bool) (g : G) → (git.write_ref ref none force g).1 ≢ returned tt
  pub blob_apart :
      (ref bytes : Text) (g : G)
      → is_branch ref ≡ true
      → git.resolve_ref ref ((git.write_blob bytes g).0) ≡ git.resolve_ref ref g
  pub tree_apart :
      (ref : Text) (tree : List TreeEntry) (g : G)
      → is_branch ref ≡ true
      → git.resolve_ref ref ((git.write_tree tree g).0) ≡ git.resolve_ref ref g
  pub commit_apart :
      (ref : Text) (c : Commit) (g : G)
      → is_branch ref ≡ true
      → git.resolve_ref ref ((git.write_commit c g).0) ≡ git.resolve_ref ref g

-- A commit is ahead of another by steps that the library called descents.
pub data Ahead {G : Type 0} (git : Git G) : Text → Text → Type 0 where
  here : {a : Text} → Ahead git a a
  further :
      {a c : Text} (b : Text) (g : G)
      → Ahead git a b
      → git.is_descendent (some c) b g ≡ returned true
      → Ahead git a c

module _ {G : Type 0} (git : Git G) where
  Ahead-trans : (a b c : Text) → Ahead git a b → Ahead git b c → Ahead git a c
  Ahead-trans a b c h here = h
  Ahead-trans a b c h (further d g k e) = further d g (Ahead-trans a b d h k) e

  -- Every branch that resolves before does so after, to the same commit or one ahead of it.
  pub Advances : G → G → Type 0
  Advances g g' =
      (ref a : Text)
      → is_branch ref ≡ true
      → git.resolve_ref ref g ≡ some a
      → (b : Text) × (git.resolve_ref ref g' ≡ some b) × Ahead git a b

  pub Advances-apply :
      (g g' : G) (ref a : Text)
      → Advances g g'
      → is_branch ref ≡ true
      → git.resolve_ref ref g ≡ some a
      → (b : Text) × (git.resolve_ref ref g' ≡ some b) × Ahead git a b
  unfolding Advances
  Advances-apply g g' ref a s is e = s ref a is e

  pub Advances-refl : (g : G) → Advances g g
  unfolding Advances
  Advances-refl g ref a is h = (a, h, here)

  pub Advances-trans : (g h k : G) → Advances g h → Advances h k → Advances g k
  unfolding Advances
  Advances-trans g h k p q ref a is e =
      let (b, f, s) = p ref a is e in
      let (c, f', s') = q ref b is f in (c, f', Ahead-trans a b c s s')

  pub Advances-same :
      (g h : G)
      → ((ref : Text) → is_branch ref ≡ true → git.resolve_ref ref h ≡ git.resolve_ref ref g)
      → Advances g h
  unfolding Advances
  Advances-same g h same ref a is e = (a, same ref is ∙ e, here)

  pub Advances-and_then :
      {A B : Type 0} (g : G) (p : G × Outcome A) (f : A → G → G × Outcome B)
      → Advances g (p.0)
      → ((a : A) → p.1 ≡ returned a → Advances (p.0) ((f a (p.0)).0))
      → Advances g ((and_then p f).0)
  unfolding and_then
  Advances-and_then g (h, returned a) f p q = Advances-trans g h ((f a h).0) p (q a refl)
  Advances-and_then g (h, threw e) f p q = p

  -- A branch that resolved, and to which a descendent is written.
  resolve-write_ref :
      IsRefStore git
      → (ref : Text) (sha : Option Text) (force : Bool) (g : G) (a : Text) → is_branch ref ≡ true
      → ((s : Text) → sha ≡ some s → git.is_descendent (some s) a g ≡ returned true)
      → (git.write_ref ref sha force g).1 ≡ returned tt
      → (s : Text) × (git.resolve_ref ref ((git.write_ref ref sha force g).0) ≡ some s)
        × Ahead git a s
  resolve-write_ref laws ref none force g a is ahead done =
      absurd (laws.needs_value ref force g done)
  resolve-write_ref laws ref (some s) force g a is ahead done =
      let next = ahead s refl in
      (s, laws.written ref s a force g is next done, further a g here next)

  -- The write of a branch, where what is written descends from what the branch resolved to.
  pub Advances-write_ref :
      IsRefStore git
      → (ref : Text) (sha : Option Text) (force : Bool) (g : G) → is_branch ref ≡ true
      → ((s a : Text)
          → sha ≡ some s
          → git.resolve_ref ref g ≡ some a
          → git.is_descendent (some s) a g ≡ returned true)
      → Advances g ((git.write_ref ref sha force g).0)
  unfolding Advances
  Advances-write_ref laws ref sha force g is ahead other a branch e =
      elim (Outcome-cases ((git.write_ref ref sha force g).1)) [
        | inr (x, thrown) ↦ (a, laws.failed ref x sha force g other branch thrown ∙ e, here)
        | inl (u, done) ↦ elim (Bool-cases (ref === other)) [
          | inr apart ↦
              elim (laws.others ref sha force g other a is branch
                (λ q. ground (arith, apart, text_iff ref other, q)) e) [
                  | inl stays ↦ (a, stays, here)
                  | inr (was, follows) ↦
                      (let (s, now, on) =
                          resolve-write_ref laws ref sha force g a is (λ s v. ahead s a v was)
                            done in
                        (s, follows ∙ now, on))
                ]
          | inl at ↦
              (let same : ref ≡ other = (text_iff ref other).0 at in
                let was : git.resolve_ref ref g ≡ some a = rw same e in
                let (s, now, on) =
                  resolve-write_ref laws ref sha force g a is (λ s v. ahead s a v was) done in
                (
                  s,
                  subst (λ r. git.resolve_ref r ((git.write_ref ref sha force g).0) ≡ some s) same
                      now,
                  on,
                ))
        ]
      ]
