-- ===== src/WebrtcRun/Tests.antt =====
-- src/run-webrtc.ts: a run of a scenario that needs the executor and one that does not.
use ad4m_link_language_tests.WebrtcRun
use ad4m_link_language_tests.WebrtcRun.Arguments.{parse_args}
use ad4m_link_language_tests.WebrtcRun.Picks.{pick, is_live}
use ad4m_link_language_tests.WebrtcRun.Live.{Reports, IsConnected, main-live}
use ad4m_link_language_tests.Scenario.{ScenarioResult}
use ad4m_link_language_tests.Prelude.Outcome.{returned, threw}
use ad4m_link_language_tests.Prelude.{
  Text, str, decimal, ◌===◌, true, some, none, List, [], ◌∷◌, length, any, get_elem?, ◌≡◌, refl,
  if◌then◌else◌,
}

abbrev words : List Text
words = str "w1" ∷ str "t1" ∷ str "--executor-token=abc" ∷ str "nothing" ∷ []

abbrev passed : Text → ScenarioResult
passed id = record {
  scenario = id;
  branch = str "main";
  duration_ms = 5;
  passed = true;
  metrics = [];
  summary = str "fine";
}

-- An executor that answers, where the scenario `t1` throws.
abbrev world : WebrtcRun.World
world = record {
  ad4m_url = none;
  ad4m_admin_token = none;
  ad4m_port = none;
  default_label = str "webrtc-now";
  url_port = λ _. returned none;
  number = λ _. none;
  connects = λ _. returned tt;
  health = λ _. returned none;
  generates = λ _. returned tt;
  disconnects = λ _. returned tt;
  make_dir = λ _. returned tt;
  join = λ dir name. name;
  runs = λ ctx id i. if id === str "t1" then threw (str "no media") else returned (passed id);
  took = λ i. 7;
  seconds = λ ms. decimal ms;
}

abbrev done : WebrtcRun.Finished
done = record {
  results =
      passed (str "w1")
      ∷ WebrtcRun.result_of world (some (str "webrtc-now")) 1 (str "t1") (threw (str "no media"))
      ∷ [];
  files =
      (str "w1.json", WebrtcRun.of_result (passed (str "w1")))
      ∷ (
        str "t1.json",
        WebrtcRun.of_result (
            WebrtcRun.result_of world (some (str "webrtc-now")) 1 (str "t1")
              (threw (str "no media"))),
      )
      ∷ (
        str "summary.md",
        WebrtcRun.of_summary (
            WebrtcRun.format_summary world
              (passed (str "w1")
                ∷ WebrtcRun.result_of world (some (str "webrtc-now")) 1 (str "t1")
                    (threw (str "no media"))
                ∷ [])
              (some (str "webrtc-now"))),
      )
      ∷ [];
}

-- A failed scenario does not end the run with status 1.
main-failure : WebrtcRun.main world words ≡ returned done
unfolding WebrtcRun.main WebrtcRun.result_of ◌===◌ decimal
main-failure = refl

-- A value is cut at its second `=`.
token_cut : (parse_args [] (str "--executor-token=YWI=" ∷ [])).executor_token ≡ some (str "YWI")
unfolding parse_args
token_cut = refl

picked_live : any is_live (pick (parse_args (str "webrtc-now") words).ids) ≡ true
unfolding pick parse_args is_live
picked_live = refl

second_picked : get_elem? (pick (parse_args (str "webrtc-now") words).ids) 1 ≡ some (str "t1")
unfolding pick parse_args
second_picked = refl

main-live_example :
    (c : WebrtcRun.Connection) × (ctx : WebrtcRun.Context) × (r : ScenarioResult) × IsConnected
      world c
    × (ctx.client ≡ some c)
    × (ctx.branch ≡ (parse_args (str "webrtc-now") words).label)
    × (length done.results ≡ length (pick (parse_args (str "webrtc-now") words).ids))
    × (get_elem? done.results 1 ≡ some r)
    × Reports (str "t1") (world.runs ctx (str "t1") 1) r
main-live_example = main-live world words done 1 (str "t1") main-failure picked_live second_picked
