-- ===== src/GitShim/Refs/Moves.antt =====
-- infra/git-data-shim.mjs: creating and moving a branch without force only moves refs ahead.
use ad4m_link_language_tests.Prelude.{
  Text, starts_with, [], ◌∷◌, ◌≡◌, refl, ap, subst, Bool, true, false, Option, none, some, inl, inr,
  arith, Bool-cases,
}
use ad4m_link_language_tests.Prelude.Outcome.{Outcome, returned, threw}
use ad4m_link_language_tests.GitShim.{Git, Platform, RefBody}
use ad4m_link_language_tests.GitShim.Heads.{
  IsRefStore, is_branch, Advances, Advances-refl, Advances-and_then, Advances-write_ref,
}
use ad4m_link_language_tests.GitShim.Refs.{
  head, create, post_ref, create_ref, given, same_as, answer, is_fast_forward, moved, move_from,
  move_ref, sent, or_empty, handle_post_ref, handle_patch_ref,
}

-- Whether a ref, if there is one, is named as a branch in full.
unfoldable pub names_branch : Option Text → Bool
names_branch none = true
names_branch (some ref) = is_branch ref

answer-true : (o : Outcome Bool) → answer o ≡ true → o ≡ returned true
unfolding answer
answer-true (returned b) h = ap returned h
answer-true (threw e) h = absurd (ground (arith, h))

module _ {G : Type 0} (git : Git G) (laws : IsRefStore git) where
  create-Advances :
      (ref sha : Text) (o : Option Text) (g : G)
      → is_branch ref ≡ true
      → git.resolve_ref ref g ≡ o
      → Advances git g ((create git ref sha o g).0)
  unfolding create sent
  create-Advances ref sha none g is free =
      Advances-and_then git g (git.write_ref ref (some sha) false g) (sent 201 ref sha)
        (Advances-write_ref git laws ref (some sha) false g is
          (λ s a _ h. absurd (ground (arith, free, h))))
        (λ _ _. Advances-refl git ((git.write_ref ref (some sha) false g).0))
  create-Advances ref sha (some _) g is taken = Advances-refl git g

  post_ref-Advances :
      (ref sha : Option Text) (g : G)
      → names_branch ref ≡ true
      → Advances git g ((post_ref git ref sha g).0)
  unfolding post_ref names_branch
  post_ref-Advances none sha g is = Advances-refl git g
  post_ref-Advances (some ref) none g is = Advances-refl git g
  post_ref-Advances (some ref) (some sha) g is =
      create-Advances ref sha (git.resolve_ref ref g) g is refl

  moved-Advances :
      (ref : Text) (sha : Option Text) (g : G)
      → is_branch ref ≡ true
      → ((s a : Text)
          → sha ≡ some s
          → git.resolve_ref ref g ≡ some a
          → git.is_descendent (some s) a g ≡ returned true)
      → Advances git g ((moved git ref sha g).0)
  unfolding moved sent
  moved-Advances ref sha g is ahead =
      Advances-and_then git g (git.write_ref ref sha true g) (sent 200 ref (or_empty sha))
        (Advances-write_ref git laws ref sha true g is ahead)
        (λ _ _. Advances-refl git ((git.write_ref ref sha true g).0))

  fast_forward :
      (b : RefBody) (current : Text) (g : G)
      → b.force ≡ false
      → is_fast_forward git b current g ≡ true
      → git.is_descendent b.sha current g ≡ returned true
  unfolding is_fast_forward
  fast_forward b current g unforced h =
      answer-true (git.is_descendent b.sha current g) (rw unforced at h)

  forward-Advances :
      (ref : Text) (b : RefBody) (current : Text) (g : G)
      → is_branch ref ≡ true
      → git.resolve_ref ref g ≡ some current
      → git.is_descendent b.sha current g ≡ returned true
      → Advances git g ((moved git ref b.sha g).0)
  forward-Advances ref b current g is found ahead = moved-Advances ref b.sha g is (λ s a value h.
      let same : a ≡ current = ground (arith, h, found) in
      rw same (subst (λ o. git.is_descendent o current g ≡ returned true) value ahead))

  move_from-Advances :
      (branch ref : Text) (b : RefBody) (o : Option Text) (g : G)
      → is_branch ref ≡ true
      → b.force ≡ false
      → git.resolve_ref ref g ≡ o
      → Advances git g ((move_from git branch ref b o g).0)
  unfolding move_from
  move_from-Advances branch ref b none g is unforced gone = Advances-refl git g
  move_from-Advances branch ref b (some current) g is unforced found =
      elim (Bool-cases (same_as current b.sha)) [
        | inl same ↦ rw same (Advances-refl git g)
        | inr other ↦ elim (Bool-cases (is_fast_forward git b current g)) [
          | inl ahead ↦ rw other (
              rw ahead (
                forward-Advances ref b current g is found
                  (fast_forward b current g unforced ahead)))
          | inr behind ↦ rw other (rw behind (Advances-refl git g))
        ]
      ]

  given-names_branch :
      (ref : Option Text) → names_branch ref ≡ true → names_branch (given ref) ≡ true
  unfolding given names_branch
  given-names_branch none h = refl
  given-names_branch (some []) h = refl
  given-names_branch (some (c ∷ s)) h = h

  module _ (platform : Platform) where
    pub handle_post_ref-Advances :
        (body : Text) (g : G)
        → ((b : RefBody) → platform.ref_body body ≡ returned b → names_branch b.ref ≡ true)
        → Advances git g ((handle_post_ref git platform body g).0)
    unfolding handle_post_ref create_ref
    handle_post_ref-Advances body g named =
        Advances-and_then git g (g, platform.ref_body body) (create_ref git) (Advances-refl git g)
          (λ b e.
            post_ref-Advances (given b.ref) (given b.sha) g (given-names_branch b.ref (named b e)))

    pub handle_patch_ref-Advances :
        (branch body : Text) (g : G)
        → ((b : RefBody) → platform.ref_body body ≡ returned b → b.force ≡ false)
        → Advances git g ((handle_patch_ref git platform branch body g).0)
    unfolding handle_patch_ref move_ref starts_with
    handle_patch_ref-Advances branch body g unforced =
        Advances-and_then git g (g, platform.ref_body body) (move_ref git branch)
          (Advances-refl git g)
          (λ b e.
            move_from-Advances branch (head branch) b (git.resolve_ref (head branch) g) g refl
              (unforced b e) refl)
