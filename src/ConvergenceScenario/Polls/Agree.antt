-- ===== src/ConvergenceScenario/Polls/Agree.antt =====
-- src/scenarios/c1-convergence.ts: what a converged poll loop has seen.
use ad4m_link_language_tests.Prelude.{
  Text, ℕ, ◌≡◌, ◌⊎◌, inl, inr, true, ◌&&◌, List, [], ◌∷◌, length, all, all-All, All, contains,
  Bool-cases, arith,
}
use ad4m_link_language_tests.ConvergenceScenario.{Poll, key_set, superset_of}
use ad4m_link_language_tests.ConvergenceScenario.Polls.{converge_poll}

-- Both agents have every expected link at the poll.
unfoldable pub AgreeOn : List Text → Poll → Type 0
AgreeOn keys (at_a, at_b) =
    All (λ k. contains k (key_set at_a) ≡ true) keys
    × All (λ k. contains k (key_set at_b) ≡ true) keys

unfoldable pub AgreeOnce : List Text → List Poll → Type 0
unfolding AgreeOn
AgreeOnce keys [] = ⊥
AgreeOnce keys (p ∷ ps) = AgreeOn keys p ⊎ AgreeOnce keys ps

pub converge_poll-AgreeOnce :
    (keys : List Text) (polls : List Poll) (a b : ℕ)
    → (converge_poll keys polls a b).converged ≡ true
    → AgreeOnce keys polls
unfolding converge_poll superset_of AgreeOnce AgreeOn
converge_poll-AgreeOnce keys [] a b h = absurd (ground (arith, h))
converge_poll-AgreeOnce keys ((at_a, at_b) ∷ polls) a b h =
    elim (Bool-cases
      (all (λ k. contains k (key_set at_a)) keys && all (λ k. contains k (key_set at_b)) keys)) [
        | inl both ↦ inl (
          all-All (λ k. contains k (key_set at_a)) keys (ground (arith, both)),
          all-All (λ k. contains k (key_set at_b)) keys (ground (arith, both)),
        )
        | inr e ↦ inr (
            converge_poll-AgreeOnce keys polls (length (key_set at_a)) (length (key_set at_b))
              (ground (arith, e, h)))
      ]
