-- ===== src/ConvergenceScenario/Run.antt =====
-- src/scenarios/c1-convergence.ts: `run`, from the choice of a language to the result.
pub mod Verdict
use ad4m_link_language_tests.Prelude.{
  Text, Dict, str, decimal, ℕ, Bool, true, false, Option, none, some, List, [], ◌∷◌, ◌++◌, length,
  if◌then◌else◌,
}
use ad4m_link_language_tests.Prelude.Outcome.{Outcome, returned, threw, ◌>>=◌}
use ad4m_link_language_tests.Scenario.{ScenarioResult, Value, num, plain}
use ad4m_link_language_tests.Convergence.{ConvergenceLanguage, BackendHealth}
use ad4m_link_language_tests.Convergence.Registry.{get_convergence_language}
use ad4m_link_language_tests.Convergence.Registry.Templates.{template_of}
use ad4m_link_language_tests.ConvergenceScenario.{
  World, Reply, or_else, language_id, expected, rounds,
}
use ad4m_link_language_tests.ConvergenceScenario.Polls.{
  Polled, Removed, converge_poll, check_removal,
}

shown_bool : Bool → Value
shown_bool true = plain (str "true")
shown_bool false = plain (str "false")

shown_number : ℕ → Value
unfolding decimal
shown_number n = num (decimal n ++ str ".00")

backend_of : Option BackendHealth → Text
unfolding decimal
backend_of none = str "none"
backend_of (some b) = b.host ++ (b':' ∷ decimal b.port)

shown_error : Option Text → Value
shown_error none = plain (str "undefined")
shown_error (some e) = plain e

removal_words : Removed → Text
removal_words r =
    if r.converged
    then str "converged"
    else elim r.error [ none ↦ str "did not converge" | some e ↦ str "errored" ]

-- `fail(summary, { skipped, ... })`
unfoldable pub fail : World → Bool → Dict Value → Text → ScenarioResult
unfolding shown_bool language_id
fail w skipped extra summary = record {
  scenario = str "c1-convergence";
  branch = w.branch;
  duration_ms = w.duration_ms;
  passed = skipped;
  metrics =
      (str "language", plain (language_id w))
      ∷ (str "converged", shown_bool false)
      ∷ (if skipped then (str "skipped", shown_bool true) ∷ extra else extra);
  summary = summary;
}

text_of : Option Text → Text
text_of none = []
text_of (some t) = t

abbrev call_failed : Text → Text
call_failed call = str "C1 FAILED: " ++ (call ++ (b' ' ∷ (0x2014 ∷ (b' ' ∷ []))))

module _ (w : World) where
  -- What a run that came to its end reports.
  reported : ConvergenceLanguage → Text → Text → Polled → Removed → ScenarioResult
  unfolding shown_bool shown_number backend_of shown_error removal_words expected language_id rounds
  reported lang url address p r = record {
    scenario = str "c1-convergence";
    branch = w.branch;
    duration_ms = w.duration_ms;
    passed = p.converged;
    metrics =
        (str "language", plain (language_id w))
        ∷ (str "backend", plain (backend_of lang.backend))
        ∷ (str "backendReachable", shown_bool true)
        ∷ (str "neighbourhoodUrl", plain url)
        ∷ (str "templatedAddress", plain address)
        ∷ (str "converged", shown_bool p.converged)
        ∷ (str "linksPerAgent", elim w.links [ none ↦ num (str "NaN") | some k ↦ shown_number k ])
        ∷ (str "expectedLinks", shown_number (length (expected w)))
        ∷ (str "linksA", shown_number p.last_a)
        ∷ (str "linksB", shown_number p.last_b)
        ∷ (str "timeToConvergeMs", shown_number w.converge_ms)
        ∷ (str "removalConverged", shown_bool r.converged)
        ∷ (str "timeToRemoveConvergeMs", shown_number r.elapsed_ms)
        ∷ (str "removalError", shown_error r.error)
        ∷ (str "removedKey", plain r.key)
        ∷ [];
    summary =
        if p.converged
        then language_id w
          ++ (str ": CONVERGED "
              ++ (decimal (length (expected w))
                  ++ (str " links across 2 agents in "
                      ++ (decimal w.converge_ms
                          ++ (str "ms (removal " ++ (removal_words r ++ str ")"))))))
        else language_id w
          ++ (str ": DID NOT CONVERGE "
              ++ (0x2014
                  ∷ (str " A="
                      ++ (decimal p.last_a
                          ++ (str ", B="
                              ++ (decimal p.last_b
                                  ++ (str ", expected>="
                                      ++ (decimal (length (expected w))
                                          ++ (str " in "
                                              ++ (decimal w.converge_ms ++ str "ms"))))))))));
  }

  -- An error that fails the run, if it is not empty.
  unless : Text → Option Text → ScenarioResult → ScenarioResult
  unfolding fail
  unless call none fine = fine
  unless call (some []) fine = fine
  unless call (some (c ∷ e)) fine = fail w false [] (call ++ (c ∷ e))

  -- What follows an address, uuid or URL that is there.
  given : Text → Text → Option Text → Option Text → Text → (Text → ScenarioResult) → ScenarioResult
  unfolding fail or_else unless
  given call missing error fatal [] next = fail w false [] (call ++ or_else error missing)
  given call missing error fatal (c ∷ a) next = unless call fatal (next (c ∷ a))

  answer_of : Text → Text → Reply → (Text → ScenarioResult) → ScenarioResult
  unfolding given text_of
  answer_of call missing r next =
      given (call_failed call) missing r.error r.error (text_of r.answer) next

  -- `createPerspective` fails only where there is no uuid.
  uuid_of : Text → Text → Reply → (Text → ScenarioResult) → ScenarioResult
  unfolding given text_of
  uuid_of call missing r next =
      given (call_failed call) missing r.error none (text_of r.answer) next

  -- From the joined neighbourhood on.
  measured : ConvergenceLanguage → Text → Text → Text → Text → ScenarioResult
  unfolding reported converge_poll check_removal expected
  measured lang address url uuid_a uuid_b =
      let p = converge_poll (expected w) (w.polls uuid_a uuid_b) 0 0 in
      reported lang url address p (check_removal p.converged (w.removal uuid_a uuid_b))

  join_failed : Text → Text → ScenarioResult
  unfolding fail
  join_failed url e =
      fail w false ((str "neighbourhoodUrl", plain url) ∷ [])
        (call_failed (str "neighbourhood.join on B") ++ e)

  joined : ConvergenceLanguage → Text → Text → Text → Outcome (Option Text × Text) → ScenarioResult
  unfolding measured join_failed
  joined lang address url uuid_a (threw e) = join_failed url e
  joined lang address url uuid_a (returned (none, json)) =
      join_failed url (str "join returned no uuid: " ++ json)
  joined lang address url uuid_a (returned (some [], json)) =
      join_failed url (str "join returned no uuid: " ++ json)
  joined lang address url uuid_a (returned (some (c ∷ b), json)) =
      measured lang address url uuid_a (c ∷ b)

  -- From the templated language on.
  shared : ConvergenceLanguage → Text → ScenarioResult
  unfolding joined answer_of uuid_of
  shared lang address =
      uuid_of (str "createPerspective A") (str "no uuid") w.create_perspective (λ uuid_a.
        answer_of (str "publishNeighbourhood") (str "no url")
          (w.publish_neighbourhood uuid_a address)
          (λ url. joined lang address url uuid_a (w.join url)))

  -- `template_of` calls `provision` and merges what it gives.
  templated : ConvergenceLanguage → Text → Outcome (Dict Text) → ScenarioResult
  unfolding shared answer_of fail shown_bool language_id
  templated lang source (threw e) =
      fail w true
        ((str "provisionFailed", shown_bool true) ∷ (str "backendReachable", shown_bool true) ∷ [])
        (str "C1 SKIPPED: "
          ++ (language_id w ++ (str " provisioning failed " ++ (0x2014 ∷ (b' ' ∷ e)))))
  templated lang source (returned template) =
      answer_of (str "applyTemplate") (str "no address returned") (w.apply_template source template)
        (shared lang)

  -- From the reachable backend on; an exception ends in a failed result.
  booted : ConvergenceLanguage → Outcome (Unit {0}) → ScenarioResult
  unfolding templated answer_of fail template_of
  booted lang (threw e) = fail w false [] (str "C1 CRASHED: " ++ e)
  booted lang (returned _) =
      answer_of (str "publishLanguage") (str "no address returned")
        (w.publish_language lang.bundle_path lang.possible_template_params)
        (λ source. templated lang source (template_of lang w.neighbourhood_id))

  unreachable : BackendHealth → ScenarioResult
  unfolding fail shown_bool language_id backend_of
  unreachable b =
      fail w true
        ((str "backendReachable", shown_bool false)
          ∷ (str "backend", plain (backend_of (some b)))
          ∷ [])
        (str "C1 SKIPPED: "
          ++ (language_id w
              ++ (str " backend not reachable at "
                  ++ (backend_of (some b)
                      ++ (b' ' ∷ (0x2014 ∷ (str " bring it up with infra/" ++ b.compose)))))))

  checked : ConvergenceLanguage → Option BackendHealth → ScenarioResult
  unfolding booted unreachable ◌>>=◌
  checked lang none = booted lang (w.boots >>= (λ _. w.connects))
  checked lang (some b) =
      if w.reachable b.host b.port
      then booted lang (w.boots >>= (λ _. w.connects))
      else unreachable b

  found : Option ConvergenceLanguage → ScenarioResult
  unfolding checked fail language_id
  found none =
      fail w true []
        (str "C1 SKIPPED: no convergence language registered for \"" ++ (language_id w ++ str "\""))
  found (some lang) = checked lang lang.backend

unfoldable pub run : World → ScenarioResult
unfolding found get_convergence_language language_id
run w = found w (get_convergence_language w.environment (language_id w))
