-- ===== src/Runner/Processes.antt =====
-- src/main.ts: which executors are started and told to stop, by the list of a run's effects, and what a scenario's
-- verdict stands for.
use ad4m_link_language_tests.Prelude.Outcome.{Outcome, returned, threw}
use ad4m_link_language_tests.Prelude.{
  Text, str, ℕ, suc, ◌==◌, ◌≡◌, refl, ap, ◌⊎◌, inl, inr, true, false, Bool-cases, Option, none,
  some, List, [], ◌∷◌, ◌++◌, if◌then◌else◌, length, any, arith, ◌===◌,
}
use ad4m_link_language_tests.Scenario.{Scenario}
use ad4m_link_language_tests.Runner.{
  Effect, start, stop, clean, Trial, World, run_scenario, run_scenarios_for_branch, started,
  checked, finally, second_executor, second_start, second_health,
}

forget : ℕ → List ℕ → List ℕ
forget p [] = []
forget p (q ∷ live) = let rest = q ∷ forget p live in if p == q then live else rest

apply : Effect → List ℕ → Option (List ℕ)
unfolding forget
apply (start p) live = if any (λ q. p == q) live then none else some (p ∷ live)
apply (stop p) live = if any (λ q. p == q) live then some (forget p live) else none
apply (clean path) live = some live

advance : Effect → Option (List ℕ) → Option (List ℕ)
unfolding apply
advance e none = none
advance e (some live) = apply e live

-- The ports of the executors that were started and not yet told to stop, after these effects; `none` when an
-- executor is started on the port of such a one, or told to stop on a port that has none.
replay : List Effect → Option (List ℕ) → Option (List ℕ)
unfolding advance
replay [] live = live
replay (e ∷ es) live = replay es (advance e live)

replay-append :
    (xs ys : List Effect) (a : Option (List ℕ)) → replay (xs ++ ys) a ≡ replay ys (replay xs a)
unfolding replay
replay-append [] ys a = refl
replay-append (e ∷ xs) ys a = replay-append xs ys (advance e a)

-- These effects leave no executor that is not told to stop.
pub IsClean : List Effect → Type 0
IsClean es = replay es (some []) ≡ some []

IsClean-append : (xs ys : List Effect) → IsClean xs → IsClean ys → IsClean (xs ++ ys)
unfolding IsClean
IsClean-append xs ys h k = rw (replay-append xs ys (some []), h) k

-- What the second executor does: nothing, or it stays, or it is told to stop at once.
second_executor-cases :
    (t : Trial) (port : ℕ) (s : Scenario)
    → (second_executor t port s ≡ ([], false))
      ⊎ (second_executor t port s ≡ (start port ∷ [], true))
      ⊎ (second_executor t port s ≡ (start port ∷ stop port ∷ [], false))
unfolding second_executor second_start second_health
second_executor-cases t port s = elim (Bool-cases (s.id === str "m1")) [
  | inr other ↦ rw other (inl refl)
  | inl m1 ↦ rw m1 (boots (t.starts port))
]
  where
    boots :
        (o : Outcome (Unit {0}))
        → (second_start t port o ≡ ([], false))
          ⊎ (second_start t port o ≡ (start port ∷ [], true))
          ⊎ (second_start t port o ≡ (start port ∷ stop port ∷ [], false))
    boots (threw e) = inl refl
    boots (returned _) = answers (t.healthy port)
      where
        answers :
            (o : Outcome (Unit {0}))
            → (second_health port o ≡ ([], false))
              ⊎ (second_health port o ≡ (start port ∷ [], true))
              ⊎ (second_health port o ≡ (start port ∷ stop port ∷ [], false))
        answers (threw e) = inr (inr refl)
        answers (returned _) = inr (inl refl)

started-IsClean :
    (branch path : Text) (s : Scenario) (t : Trial) (port : ℕ) (o : Outcome (Unit {0}))
    → IsClean ((started branch s t port o).1 ++ clean path ∷ [])
unfolding started checked finally IsClean replay apply advance forget
started-IsClean branch path s t port (threw e) = refl
started-IsClean branch path s t port (returned _) = boots (t.healthy port)
  where
    boots :
        (o : Outcome (Unit {0}))
        → let (r, effects, second) = checked branch s t port o in
          replay (start port ∷ (effects ++ finally port second) ++ clean path ∷ []) (some [])
          ≡ some []
    boots (threw e) = ground arith
    boots (returned _) = elim (second_executor-cases t (suc port) s) [
      | inl e ↦ rw e (ground arith)
      | inr (inl e) ↦ rw e (ground arith)
      | inr (inr e) ↦ rw e (ground arith)
    ]

run_scenario-IsClean :
    (tmp branch : Text) (port : ℕ) (s : Scenario) (t : Trial)
    → IsClean (run_scenario tmp branch port s t).1
unfolding run_scenario IsClean replay
run_scenario-IsClean tmp branch port s t = elim (Bool-cases s.manages_own_environment) [
  | inl own ↦ rw own refl
  | inr boots ↦ rw boots (started-IsClean branch _ s t port (t.starts port))
]

-- Whatever the executors, the client and the scenarios of a branch do, also when they throw: every
-- executor that the run starts is told to stop, once, before another is started on its port and
-- before the run ends; none is told to stop that was not started; and each scenario has one result.
pub run_scenarios_for_branch-IsClean :
    (w : World) (branch : Text) (port : ℕ) (ss : List Scenario)
    → IsClean (run_scenarios_for_branch w branch port ss).1
      × (length (run_scenarios_for_branch w branch port ss).0 ≡ length ss)
unfolding run_scenarios_for_branch
run_scenarios_for_branch-IsClean w branch port [] = unfold IsClean replay in (refl, refl)
run_scenarios_for_branch-IsClean w branch port (s ∷ ss) =
    let (tidy, counted) = run_scenarios_for_branch-IsClean w branch port ss in
    (
      IsClean-append _ _ (run_scenario-IsClean w.tmp_dir branch port s (w.trial branch s.id)) tidy,
      ap suc counted,
    )
