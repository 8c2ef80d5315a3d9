-- ===== src/Runner/Verdict.antt =====
-- src/main.ts: what the verdict of one scenario stands for.
use ad4m_link_language_tests.Prelude.Outcome.{Outcome, returned, threw}
use ad4m_link_language_tests.Prelude.{
  Text, ℕ, ◌≡◌, refl, ◌↔◌, ◌⊎◌, inl, inr, true, Bool-cases, arith,
}
use ad4m_link_language_tests.Scenario.{Scenario, ScenarioResult}
use ad4m_link_language_tests.Runner.{
  Trial, run_scenario, started, checked, connected, result_of, crashed, executor_failed,
  failed_result,
}

-- The executor boots on the port, answers its health check, and takes the client's connection.
pub record IsReached (t : Trial) (port : ℕ) : Type 0 where
  pub boots : t.starts port ≡ returned tt
  pub answers : t.healthy port ≡ returned tt
  pub accepts : t.connects ≡ returned tt

-- The body of the scenario returns a result that says it passed.
pub HasPassed : Outcome ScenarioResult → Type 0
HasPassed (returned r) = r.passed ≡ true
HasPassed (threw e) = ⊥

result_of-passed :
    (name branch : Text) (o : Outcome ScenarioResult)
    → ((result_of name branch o).passed ≡ true) ↔ HasPassed o
unfolding result_of crashed failed_result HasPassed
result_of-passed name branch (returned r) = (λ h. h, λ h. h)
result_of-passed name branch (threw e) = (λ h. ground (arith, h), λ h. absurd h)

connected-passed :
    (branch : Text) (s : Scenario) (o : Outcome (Unit {0})) (run : Outcome ScenarioResult)
    → ((connected branch s o run).passed ≡ true) ↔ ((o ≡ returned tt) × HasPassed run)
unfolding connected executor_failed failed_result
connected-passed branch s (threw e) run = (λ h. ground (arith, h), λ (h, _). ground (arith, h))
connected-passed branch s (returned _) run =
    let (to, back) = result_of-passed _ branch run in (λ h. (refl, to h), λ (_, h). back h)

checked-passed :
    (branch : Text) (s : Scenario) (t : Trial) (port : ℕ) (o : Outcome (Unit {0}))
    → ((checked branch s t port o).0.passed ≡ true)
      ↔ ((o ≡ returned tt) × (t.connects ≡ returned tt) × HasPassed t.runs)
unfolding checked executor_failed failed_result
checked-passed branch s t port (threw e) = (λ h. ground (arith, h), λ (h, _, _). ground (arith, h))
checked-passed branch s t port (returned _) =
    let (to, back) = connected-passed branch s t.connects t.runs in
    (λ h. let (p, q) = to h in (refl, p, q), λ (_, p, q). back (p, q))

started-passed :
    (branch : Text) (s : Scenario) (t : Trial) (port : ℕ) (o : Outcome (Unit {0}))
    → ((started branch s t port o).0.passed ≡ true) ↔ (
        (o ≡ returned tt)
        × (t.healthy port ≡ returned tt)
        × (t.connects ≡ returned tt)
        × HasPassed t.runs)
unfolding started executor_failed failed_result
started-passed branch s t port (threw e) =
    (λ h. ground (arith, h), λ (h, _, _, _). ground (arith, h))
started-passed branch s t port (returned _) =
    let (to, back) = checked-passed branch s t port (t.healthy port) in
    (λ h. let (p, q, r) = to h in (refl, p, q, r), λ (_, p, q, r). back (p, q, r))

-- A scenario is reported as passed exactly when its environment is reached (or it manages its own)
-- and its body returns a result that says so: a boot, health check, connection or body that throws
-- is reported as failed, and a second executor that fails changes nothing.
pub run_scenario-passed :
    (tmp branch : Text) (port : ℕ) (s : Scenario) (t : Trial)
    → ((run_scenario tmp branch port s t).0.passed ≡ true)
      ↔ (((s.manages_own_environment ≡ true) ⊎ IsReached t port) × HasPassed t.runs)
unfolding run_scenario
run_scenario-passed tmp branch port s t = elim (Bool-cases s.manages_own_environment) [
  | inl own ↦ rw own (
      let (to, back) = result_of-passed _ branch t.runs in
      (λ h. (inl refl, to h), λ (_, h). back h))
  | inr boots ↦ rw boots (
      let (to, back) = started-passed branch s t port (t.starts port) in
      (
        λ h. let (a, b, c, d) = to h in (inr (record { boots = a; answers = b; accepts = c }), d),
        λ (e, d). elim e [
          | inl own ↦ ground (arith, own, boots)
          | inr r ↦ back (r.boots, r.answers, r.accepts, d)
        ],
      ))
]
