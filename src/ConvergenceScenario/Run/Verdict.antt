-- ===== src/ConvergenceScenario/Run/Verdict.antt =====
-- src/scenarios/c1-convergence.ts: when the scenario passes.
use ad4m_link_language_tests.Prelude.{
  Text, Dict, str, ◌≡◌, ◌≢◌, refl, sym, ap, ◌⊎◌, inl, inr, true, false, Option, none, some, [], ◌∷◌,
  ◌++◌, lookup, ◌===◌, Bool-cases, arith,
}
use ad4m_link_language_tests.Prelude.Outcome.{Outcome, returned, threw, ◌>>=◌}
use ad4m_link_language_tests.Scenario.{ScenarioResult, Value, plain}
use ad4m_link_language_tests.Convergence.{ConvergenceLanguage, BackendHealth}
use ad4m_link_language_tests.Convergence.Registry.{get_convergence_language}
use ad4m_link_language_tests.Convergence.Registry.Templates.{template_of}
use ad4m_link_language_tests.ConvergenceScenario.{World, Reply, expected, language_id}
use ad4m_link_language_tests.ConvergenceScenario.Polls.Agree.{AgreeOnce, converge_poll-AgreeOnce}
use ad4m_link_language_tests.ConvergenceScenario.Run.{
  fail, reported, unless, given, text_of, call_failed, answer_of, uuid_of, measured, join_failed,
  joined, shared, templated, booted, unreachable, checked, found, run,
}

unfoldable pub IsSkipped : ScenarioResult → Type 0
unfolding lookup ◌===◌
IsSkipped r = lookup (str "skipped") r.metrics ≡ some (plain (str "true"))

-- A reply with this text, which is not empty, and without an error.
pub record Gives (r : Reply) (a : Text) : Type 0 where
  pub answers : r.answer ≡ some a
  pub full : a ≢ []
  pub fine : (r.error ≡ none) ⊎ (r.error ≡ some [])

some-text_of : (o : Option Text) (a : Text) → text_of o ≡ a → a ≢ [] → o ≡ some a
unfolding text_of
some-text_of none a e h = absurd (h (sym e))
some-text_of (some x) a e h = ap some e

module _ (w : World) where
  -- Why a run is skipped.
  pub data Reason : Type 0 where
    unregistered : get_convergence_language w.environment (language_id w) ≡ none → Reason
    no_backend :
        (lang : ConvergenceLanguage) (b : BackendHealth)
        → get_convergence_language w.environment (language_id w) ≡ some lang
        → lang.backend ≡ some b
        → w.reachable b.host b.port ≡ false
        → Reason
    not_provisioned :
        (lang : ConvergenceLanguage) (e : Text)
        → get_convergence_language w.environment (language_id w) ≡ some lang
        → template_of lang w.neighbourhood_id ≡ threw e
        → Reason

  -- What a run with this templated language came to: A's perspective, the neighbourhood that A
  -- published from it, the perspective in which B joined that neighbourhood, and the agreement.
  pub record Met (address : Text) : Type 0 where
    pub uuid_a : Text
    pub url : Text
    pub uuid_b : Text
    pub json : Text
    pub created : w.create_perspective.answer ≡ some uuid_a
    pub created_full : uuid_a ≢ []
    pub published : Gives (w.publish_neighbourhood uuid_a address) url
    pub joins : w.join url ≡ returned (some uuid_b, json)
    pub joins_full : uuid_b ≢ []
    pub agreed : AgreeOnce (expected w) (w.polls uuid_a uuid_b)

  -- A run in which every step has succeeded and the agents have agreed.
  pub record Converged : Type 0 where
    pub lang : ConvergenceLanguage
    pub source : Text
    pub template : Dict Text
    pub address : Text
    pub registered : get_convergence_language w.environment (language_id w) ≡ some lang
    pub connected : w.boots >>= (λ _. w.connects) ≡ returned tt
    pub published : Gives (w.publish_language lang.bundle_path lang.possible_template_params) source
    pub provisioned : template_of lang w.neighbourhood_id ≡ returned template
    pub applied : Gives (w.apply_template source template) address
    pub met : Met address

  -- A result that has passed is one of these.
  IsSound : Type 0 → ScenarioResult → Type 0
  IsSound E r = r.passed ≡ true → (Reason × IsSkipped r) ⊎ E

  failed-IsSound :
      (E : Type 0) (extra : Dict Value) (summary : Text) → IsSound E (fail w false extra summary)
  unfolding IsSound fail
  failed-IsSound E extra summary h = absurd (ground (arith, h))

  skipped-IsSound :
      (E : Type 0) (extra : Dict Value) (summary : Text)
      → Reason
      → IsSound E (fail w true extra summary)
  unfolding IsSound fail IsSkipped lookup ◌===◌
  skipped-IsSound E extra summary why h = inl (why, refl)

  IsSound-map : (E F : Type 0) (r : ScenarioResult) → (E → F) → IsSound E r → IsSound F r
  unfolding IsSound
  IsSound-map E F r f sound h = elim (sound h) [ inl s ↦ inl s | inr e ↦ inr (f e) ]

  unless-IsSound :
      (E : Type 0) (call : Text) (o : Option Text) (fine : ScenarioResult)
      → ((o ≡ none) ⊎ (o ≡ some []) → IsSound E fine)
      → IsSound E (unless w call o fine)
  unfolding unless
  unless-IsSound E call none fine sound = sound (inl refl)
  unless-IsSound E call (some []) fine sound = sound (inr refl)
  unless-IsSound E call (some (c ∷ e)) fine sound = failed-IsSound E [] (call ++ (c ∷ e))

  given-IsSound :
      (E : Type 0) (call missing : Text) (error fatal : Option Text) (answer : Text)
      (next : Text → ScenarioResult)
      → ((a : Text) → answer ≡ a → a ≢ [] → (fatal ≡ none) ⊎ (fatal ≡ some []) → IsSound E (next a))
      → IsSound E (given w call missing error fatal answer next)
  unfolding given
  given-IsSound E call missing error fatal [] next sound = failed-IsSound E _ _
  given-IsSound E call missing error fatal (c ∷ a) next sound =
      unless-IsSound E call fatal (next (c ∷ a)) (λ fine. sound (c ∷ a) refl (λ e. cc) fine)

  answer_of-IsSound :
      (E : Type 0) (call missing : Text) (r : Reply) (next : Text → ScenarioResult)
      → ((a : Text) → Gives r a → IsSound E (next a))
      → IsSound E (answer_of w call missing r next)
  unfolding answer_of
  answer_of-IsSound E call missing r next sound =
      given-IsSound E (call_failed call) missing r.error r.error (text_of r.answer) next
        (λ a e full fine.
          sound a (record { answers = some-text_of r.answer a e full; full = full; fine = fine }))

  uuid_of-IsSound :
      (E : Type 0) (call missing : Text) (r : Reply) (next : Text → ScenarioResult)
      → ((a : Text) → r.answer ≡ some a → a ≢ [] → IsSound E (next a))
      → IsSound E (uuid_of w call missing r next)
  unfolding uuid_of
  uuid_of-IsSound E call missing r next sound =
      given-IsSound E (call_failed call) missing r.error none (text_of r.answer) next
        (λ a e full _. sound a (some-text_of r.answer a e full) full)

  measured-IsSound :
      (lang : ConvergenceLanguage) (address url uuid_a uuid_b : Text)
      → IsSound
          (AgreeOnce (expected w) (w.polls uuid_a uuid_b))
          (measured w lang address url uuid_a uuid_b)
  unfolding IsSound measured reported
  measured-IsSound lang address url uuid_a uuid_b h =
      inr (converge_poll-AgreeOnce (expected w) (w.polls uuid_a uuid_b) 0 0 h)

  -- What B's join came to, for this perspective of A.
  abbrev JoinsAndAgrees : Text → Text → Type 0
  JoinsAndAgrees uuid_a url =
      (uuid_b : Text) × (json : Text) × (w.join url ≡ returned (some uuid_b, json))
      × (uuid_b ≢ [])
      × AgreeOnce (expected w) (w.polls uuid_a uuid_b)

  joined-IsSound :
      (lang : ConvergenceLanguage) (address url uuid_a : Text) (o : Outcome (Option Text × Text))
      → w.join url ≡ o
      → IsSound (JoinsAndAgrees uuid_a url) (joined w lang address url uuid_a o)
  unfolding joined join_failed
  joined-IsSound lang address url uuid_a (threw e) at = failed-IsSound _ _ _
  joined-IsSound lang address url uuid_a (returned (none, json)) at = failed-IsSound _ _ _
  joined-IsSound lang address url uuid_a (returned (some [], json)) at = failed-IsSound _ _ _
  joined-IsSound lang address url uuid_a (returned (some (c ∷ b), json)) at =
      IsSound-map (AgreeOnce (expected w) (w.polls uuid_a (c ∷ b))) (JoinsAndAgrees uuid_a url)
        (measured w lang address url uuid_a (c ∷ b)) (λ agree. (c ∷ b, json, at, λ e. cc, agree))
        (measured-IsSound lang address url uuid_a (c ∷ b))

  shared-IsSound :
      (lang : ConvergenceLanguage) (address : Text) → IsSound (Met address) (shared w lang address)
  unfolding shared
  shared-IsSound lang address =
      uuid_of-IsSound (Met address) (str "createPerspective A") (str "no uuid") w.create_perspective
        (λ uuid_a.
          answer_of w (str "publishNeighbourhood") (str "no url")
            (w.publish_neighbourhood uuid_a address)
            (λ url. joined w lang address url uuid_a (w.join url)))
        (λ uuid_a created full.
          answer_of-IsSound (Met address) (str "publishNeighbourhood") (str "no url")
            (w.publish_neighbourhood uuid_a address)
            (λ url. joined w lang address url uuid_a (w.join url))
            (λ url published.
              IsSound-map (JoinsAndAgrees uuid_a url) (Met address)
                (joined w lang address url uuid_a (w.join url))
                (λ (uuid_b, json, joins, joins_full, agreed). record {
                  uuid_a = uuid_a;
                  url = url;
                  uuid_b = uuid_b;
                  json = json;
                  created = created;
                  created_full = full;
                  published = published;
                  joins = joins;
                  joins_full = joins_full;
                  agreed = agreed;
                })
                (joined-IsSound lang address url uuid_a (w.join url) refl)))

  module _ (lang : ConvergenceLanguage)
      (registered : get_convergence_language w.environment (language_id w) ≡ some lang) where
    templated-IsSound :
        (source : Text) (o : Outcome (Dict Text))
        → w.boots >>= (λ _. w.connects) ≡ returned tt
        → Gives (w.publish_language lang.bundle_path lang.possible_template_params) source
        → template_of lang w.neighbourhood_id ≡ o
        → IsSound Converged (templated w lang source o)
    unfolding templated
    templated-IsSound source (threw e) connected published at =
        skipped-IsSound Converged _ _ (not_provisioned lang e registered at)
    templated-IsSound source (returned template) connected published at =
        answer_of-IsSound Converged (str "applyTemplate") (str "no address returned")
          (w.apply_template source template) (shared w lang)
          (λ address applied.
            IsSound-map (Met address) Converged (shared w lang address)
              (λ met. record {
                lang = lang;
                source = source;
                template = template;
                address = address;
                registered = registered;
                connected = connected;
                published = published;
                provisioned = at;
                applied = applied;
                met = met;
              })
              (shared-IsSound lang address))

    booted-IsSound :
        (o : Outcome (Unit {0}))
        → w.boots >>= (λ _. w.connects) ≡ o
        → IsSound Converged (booted w lang o)
    unfolding booted
    booted-IsSound (threw e) at = failed-IsSound Converged _ _
    booted-IsSound (returned _) at =
        answer_of-IsSound Converged (str "publishLanguage") (str "no address returned")
          (w.publish_language lang.bundle_path lang.possible_template_params)
          (λ source. templated w lang source (template_of lang w.neighbourhood_id))
          (λ source published.
            templated-IsSound source (template_of lang w.neighbourhood_id) at published refl)

    checked-IsSound :
        (o : Option BackendHealth) → lang.backend ≡ o → IsSound Converged (checked w lang o)
    unfolding checked unreachable
    checked-IsSound none at = booted-IsSound (w.boots >>= (λ _. w.connects)) refl
    checked-IsSound (some b) at = elim (Bool-cases (w.reachable b.host b.port)) [
      | inl up ↦ rw up (booted-IsSound (w.boots >>= (λ _. w.connects)) refl)
      | inr down ↦ rw down (skipped-IsSound Converged _ _ (no_backend lang b registered at down))
    ]

  found-IsSound :
      (o : Option ConvergenceLanguage)
      → get_convergence_language w.environment (language_id w) ≡ o
      → IsSound Converged (found w o)
  unfolding found
  found-IsSound none at = skipped-IsSound Converged _ _ (unregistered at)
  found-IsSound (some lang) at = checked-IsSound lang at lang.backend refl

  -- A run that passes says that it was skipped, and then the language is not registered, its backend
  -- cannot be reached or its provisioning threw; or every step has succeeded, from the executor's
  -- boot to B's join of the neighbourhood that A published, and a poll before the deadline, of A's
  -- perspective and of the one in which B joined, had every expected link on both sides.
  pub run-passed : (run w).passed ≡ true → (Reason × IsSkipped (run w)) ⊎ Converged
  unfolding IsSound run
  run-passed h = found-IsSound (get_convergence_language w.environment (language_id w)) refl h
