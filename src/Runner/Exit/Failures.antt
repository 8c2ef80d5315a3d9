-- ===== src/Runner/Exit/Failures.antt =====
-- src/main.ts: the exit code and the results of the branches.
use ad4m_link_language_tests.Prelude.{
  Text, Dict, ℕ, zero, suc, ◌+◌, ◌*◌, true, filter, Option, none, some, List, [], ◌∷◌, ◌===◌, map,
  insert, lookup, lookup-insert, arith, ◌≡◌, ◌≢◌, refl, text_iff, All, Bool-cases, inl, inr, ◌↔◌,
  IsDistinct, get_elem?, subst,
}
use ad4m_link_language_tests.Scenario.{Scenario, ScenarioResult}
use ad4m_link_language_tests.Runner.{World, branch_to_dir_name, run_scenarios_for_branch}
use ad4m_link_language_tests.Runner.Exit.{
  success, Settings, selected, chosen_branches, locate, located, Results, run_branches, failed_of,
  total_failed, report, main,
}

AllPassed : List ScenarioResult → Type 0
AllPassed = All (λ r. r.passed ≡ true)

failed_of-AllPassed : (rs : List ScenarioResult) → (failed_of rs ≡ 0) ↔ AllPassed rs
unfolding failed_of AllPassed
failed_of-AllPassed [] = (λ h. tt, λ h. refl)
failed_of-AllPassed (r ∷ rs) =
    let (to, back) = failed_of-AllPassed rs in
    elim (Bool-cases r.passed) [
      | inl passes ↦ rw passes (λ h. (refl, to h), λ (_, h). back h)
      | inr fails ↦ rw fails (λ h. ground (arith, h), λ (h, _). ground (arith, h))
    ]

total_failed-insert :
    (k : Text) (rs : List ScenarioResult) (m : Results)
    → lookup k m ≡ none
    → total_failed (insert k rs m) ≡ failed_of rs + total_failed m
unfolding total_failed insert lookup
total_failed-insert k rs [] h = refl
total_failed-insert k rs ((j, qs) ∷ m) h = elim (Bool-cases (j === k)) [
  | inl here ↦ ground (arith, h, here)
  | inr away ↦ ground (arith, away, h, total_failed-insert k rs m)
]

IsAbsent : Results → List Text → Type 0
IsAbsent m = All (λ d. lookup d m ≡ none)

lookup-nil : (k : Text) (m : Results) → m ≡ [] → lookup k m ≡ none
unfolding lookup
lookup-nil k m e = rw e

IsAbsent-insert :
    (k : Text) (rs : List ScenarioResult) (m : Results) (ds : List Text)
    → All (λ d. k ≢ d) ds
    → IsAbsent m ds
    → IsAbsent (insert k rs m) ds
unfolding IsAbsent
IsAbsent-insert k rs m [] away h = tt
IsAbsent-insert k rs m (d ∷ ds) (apart, away) (none_here, h) = (
  ground (arith, lookup-insert k d rs m, text_iff k d, apart, none_here),
  IsAbsent-insert k rs m ds away h,
)

module _ (w : World) (ss : List Scenario) where
  results_at : Text → ℕ → List ScenarioResult
  results_at b k = (run_scenarios_for_branch w b (w.base_port + k * 10) ss).0

  at_sum : (m n : ℕ) → m ≡ n → (c : Text) → AllPassed (results_at c m) → AllPassed (results_at c n)
  at_sum m n e c p = subst (λ i. AllPassed (results_at c i)) e p

  -- The scenarios pass on each of these branches; the first of them has number `offset`.
  pub EachPasses : List Text → ℕ → Type 0
  EachPasses bs offset =
      (k : ℕ) (b : Text) → get_elem? bs k ≡ some b → AllPassed (results_at b (offset + k))

  EachPasses-cons :
      (b : Text) (bs : List Text) (offset : ℕ)
      → EachPasses (b ∷ bs) offset ↔ (AllPassed (results_at b offset) × EachPasses bs (suc offset))
  unfolding EachPasses
  EachPasses-cons b bs offset = (to, back)
    where
      to : EachPasses (b ∷ bs) offset → AllPassed (results_at b offset) × EachPasses bs (suc offset)
      to each = (
        at_sum (offset + 0) offset (omega arith) b (each 0 b refl),
        λ k c e. at_sum (offset + suc k) (suc offset + k) (omega arith) c (each (suc k) c e),
      )

      back :
          AllPassed (results_at b offset) × EachPasses bs (suc offset) → EachPasses (b ∷ bs) offset
      back (first, rest) zero c e =
          rw (← the_same e) (at_sum offset (offset + 0) (omega arith) b first)
        where
          the_same : some b ≡ some c → b ≡ c
          the_same e = ground (arith, e)
      back (first, rest) (suc k) c e =
          at_sum (suc offset + k) (offset + suc k) (omega arith) c (rest k c e)

  module _ (paths : Dict Text) where
    run_branches-failed :
        (bs : List Text) (offset : ℕ) (m : Results)
        → IsDistinct (map branch_to_dir_name bs)
        → IsAbsent m (map branch_to_dir_name bs)
        → (total_failed (run_branches w ss paths bs offset m) ≡ 0)
          ↔ ((total_failed m ≡ 0) × EachPasses (filter (located paths) bs) offset)
    unfolding run_branches IsAbsent results_at
    run_branches-failed [] offset m d a =
        (λ h. (h, unfold EachPasses in λ k b e. absurd (ground (arith, e))), λ (h, _). h)
    run_branches-failed (b ∷ bs) offset m (away, d) (fresh, a) =
        elim (Bool-cases (located paths b)) [
          | inr skipped ↦ rw skipped (run_branches-failed bs offset m d a)
          | inl runs ↦ rw runs (
              let rs = results_at b offset in
              let dir = branch_to_dir_name b in
              let (to, back) =
                run_branches-failed bs (suc offset) (insert dir rs m) d
                  (IsAbsent-insert dir rs m _ away a) in
              let (zero_to, zero_back) = failed_of-AllPassed rs in
              let (split, join) = EachPasses-cons b (filter (located paths) bs) offset in
              let sum = total_failed-insert dir rs m fresh in
              (
                λ h.
                    let (t, e) = to h in
                    (ground (arith, t, sum), join (zero_to (ground (arith, t, sum)), e)),
                λ (t, e). let (p, q) = split e in back (ground (arith, t, sum, zero_back p), q),
              ))
        ]

-- The exit code of a run: where no two branches have the same directory name, it is success exactly
-- when an executor is found for some branch and every scenario passes on every branch that has one,
-- the k-th of these on port `base_port + 10 * k`.
pub main-success :
    (w : World) (all_scenarios : List Scenario) (a : Settings)
    → IsDistinct (map branch_to_dir_name (chosen_branches a.branches))
    → let ss = selected all_scenarios a.scenarios in
      let bs = chosen_branches a.branches in
      (main w all_scenarios a ≡ success) ↔ (
        (paths : Dict Text) × (locate w a ss bs ≡ some paths)
        × (paths ≢ [])
        × EachPasses w ss (filter (located paths) bs) 0)
unfolding main report total_failed IsAbsent
main-success w all_scenarios a d = from_report (locate w a ss bs) refl
  where
    ss : List Scenario
    ss = selected all_scenarios a.scenarios

    bs : List Text
    bs = chosen_branches a.branches

    nothing_ran : (ds : List Text) → IsAbsent [] ds
    nothing_ran [] = tt
    nothing_ran (x ∷ ds) = (lookup-nil x [] refl, nothing_ran ds)

    from_report :
        (o : Option (Dict Text))
        → locate w a ss bs ≡ o
        → (report w ss bs o ≡ success) ↔ (
            (paths : Dict Text) × (locate w a ss bs ≡ some paths)
            × (paths ≢ [])
            × EachPasses w ss (filter (located paths) bs) 0)
    from_report none e =
        (λ h. absurd (ground (arith, h)), λ (ps, f, _, _). absurd (ground (arith, e, f)))
    from_report (some []) e = (
      λ h. absurd (ground (arith, h)),
      λ (ps, f, some_path, _). absurd (ground (arith, e, f, some_path)),
    )
    from_report (some (p ∷ ps)) e =
        let (to, back) = run_branches-failed w ss (p ∷ ps) bs 0 [] d (nothing_ran _) in
        (
          λ h.
              let (_, each) = to (ground (arith, h)) in
              (p ∷ ps, e, λ none_left. ground (arith, none_left), each),
          λ (qs, f, _, each).
              let same : p ∷ ps ≡ qs = ground (arith, e, f) in
              let zero = back (refl, rw same each) in ground (arith, zero),
        )
