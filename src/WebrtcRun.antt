-- ===== src/WebrtcRun.antt =====
-- src/run-webrtc.ts: the command that runs the WebRTC scenarios. What the executor answers, the URL
-- parser, clocks and what a scenario's body does are a `World`. An `Outcome` that threw stands for exit status 1.
-- Console output is left out, and files are listed with their contents.
mod Arguments
mod Picks
mod Live
mod Tests
use ad4m_link_language_tests.Prelude.Outcome.{Outcome, returned, threw, ◌>>=◌}
use ad4m_link_language_tests.Prelude.{
  Text, str, ℕ, suc, Bool, true, false, Option, none, some, List, [], ◌∷◌, ◌++◌, any, if◌then◌else◌,
}
use ad4m_link_language_tests.Scenario.{ScenarioResult, plain}
use ad4m_link_language_tests.WebrtcRun.Arguments.{Args, parse_args}
use ad4m_link_language_tests.WebrtcRun.Picks.{pick, is_live}

-- What `buildClient` makes: the port and token of the executor.
pub record Connection : Type 0 where
  pub port : ℕ
  pub token : Text

-- `ScenarioContext`: `none` for the client that rejects every call, and for a port that is NaN.
pub record Context : Type 0 where
  pub client : Option Connection
  pub branch : Option Text
  pub port : Option ℕ
  pub admin_token : Text

-- The environment, `new URL(url).port` (nothing for an empty port), `Number(text)`, the executor's
-- answers, directories, and what the `i`-th scenario of the run does in its context and how long it took.
pub record World : Type 0 where
  pub ad4m_url : Option Text
  pub ad4m_admin_token : Option Text
  pub ad4m_port : Option Text
  pub default_label : Text
  pub url_port : Text → Outcome (Option ℕ)
  pub number : Text → Option ℕ
  pub connects : Connection → Outcome (Unit {0})
  pub health : Connection → Outcome (Option Text)
  pub generates : Connection → Outcome (Unit {0})
  pub disconnects : Connection → Outcome (Unit {0})
  pub make_dir : Option Text → Outcome (Unit {0})
  pub join : Option Text → Text → Text
  pub runs : Context → Text → ℕ → Outcome ScenarioResult
  pub took : ℕ → ℕ
  pub seconds : ℕ → Text

pub data File : Type 0 where
  of_result : ScenarioResult → File
  of_summary : Text → File

pub record Finished : Type 0 where
  pub results : List ScenarioResult
  pub files : List (Text × File)

-- `a ?? b`
or_else : Option Text → Option Text → Option Text
or_else none b = b
or_else (some a) b = some a

or_text : Option Text → Text → Text
or_text none b = b
or_text (some a) b = a

or_port : Option ℕ → ℕ
or_port none = 12000
or_port (some p) = p

-- `process.env.AD4M_PORT || 12000`
env_port : World → Option Text → Option ℕ
env_port w none = some 12000
env_port w (some []) = some 12000
env_port w (some (c ∷ t)) = w.number (c ∷ t)

context_port : World → Option Text → Outcome (Option ℕ)
unfolding env_port or_port ◌>>=◌
context_port w none = returned (env_port w w.ad4m_port)
context_port w (some []) = returned (env_port w w.ad4m_port)
context_port w (some (c ∷ url)) = w.url_port (c ∷ url) >>= (λ p. returned (some (or_port p)))

-- `if (health.error)`, and the generation of an agent, whose error is only printed.
checked : World → Connection → Option Text → Outcome Connection
unfolding ◌>>=◌
checked w c none = w.generates c >>= (λ _. returned c)
checked w c (some []) = w.generates c >>= (λ _. returned c)
checked w c (some (e ∷ es)) = threw (str "[run-webrtc] executor health check failed: " ++ (e ∷ es))

connected : World → Connection → Outcome Connection
unfolding checked ◌>>=◌
connected w c = w.connects c >>= (λ _. w.health c >>= checked w c)

with_token : World → Text → Option Text → Outcome Connection
unfolding connected or_port ◌>>=◌
with_token w url none = threw (str "[run-webrtc] T/M/F/S/W5 scenarios need an admin token.")
with_token w url (some []) = threw (str "[run-webrtc] T/M/F/S/W5 scenarios need an admin token.")
with_token w url (some (c ∷ t)) =
    w.url_port url >>= (λ p. connected w (record { port = or_port p; token = c ∷ t }))

the_url : World → Args → Text
unfolding or_else or_text
the_url w a = or_text (or_else a.executor_url w.ad4m_url) (str "http://127.0.0.1:12000")

-- The client, if a scenario needs the executor.
client_for : World → Args → Bool → Outcome (Option Connection)
unfolding with_token the_url or_else ◌>>=◌
client_for w a false = returned none
client_for w a true =
    with_token w (the_url w a) (or_else a.executor_token w.ad4m_admin_token)
    >>= (λ c. returned (some c))

-- The result of a scenario that returned, or that of one that threw.
unfoldable pub result_of : World → Option Text → ℕ → Text → Outcome ScenarioResult → ScenarioResult
unfolding or_text
result_of w label i id (returned r) = r
result_of w label i id (threw e) = record {
  scenario = id;
  branch = or_text label (str "undefined");
  duration_ms = w.took i;
  passed = false;
  metrics = (str "error", plain e) ∷ [];
  summary = str "FAILED: " ++ e;
}

run_from : World → Context → ℕ → List Text → List ScenarioResult
unfolding result_of
run_from w ctx i [] = []
run_from w ctx i (id ∷ ids) =
    result_of w ctx.branch i id (w.runs ctx id i) ∷ run_from w ctx (suc i) ids

row : World → ScenarioResult → Text
row w r =
    str "| "
    ++ r.scenario
    ++ str " | "
    ++ w.seconds r.duration_ms
    ++ str "s | "
    ++ r.summary
    ++ str " |"

rows : World → List ScenarioResult → Text
unfolding row
rows w [] = []
rows w (r ∷ rs) = 10 ∷ (row w r ++ rows w rs)

-- `formatSummary`
unfoldable pub format_summary : World → List ScenarioResult → Option Text → Text
unfolding rows or_text
format_summary w results label =
    (str "# WebRTC + SFU wind tunnel — " ++ or_text label (str "undefined"))
    ++ 10 ∷ 10 ∷ str "| Scenario | Duration | Summary |"
    ++ 10 ∷ str "|---|---|---|"
    ++ rows w results

result_files : World → Option Text → List ScenarioResult → List (Text × File)
result_files w dir [] = []
result_files w dir (r ∷ rs) =
    (w.join dir (r.scenario ++ str ".json"), of_result r) ∷ result_files w dir rs

finished : World → Args → List ScenarioResult → Finished
unfolding result_files format_summary
finished w a results = record {
  results = results;
  files =
      result_files w a.results_dir results
      ++ (w.join a.results_dir (str "summary.md"), of_summary (format_summary w results a.label))
        ∷ [];
}

unfoldable pub context : World → Args → Option Connection → Option ℕ → Context
unfolding or_text
context w a client port = record {
  client = client;
  branch = a.label;
  port = port;
  admin_token = or_text a.executor_token [];
}

disconnected : World → Option Connection → Outcome (Unit {0})
disconnected w none = returned tt
disconnected w (some c) = w.disconnects c

run_all : World → Args → List Text → Option Connection → Outcome Finished
unfolding context_port context run_from disconnected finished ◌>>=◌
run_all w a ids client = context_port w a.executor_url >>= (λ port.
    disconnected w client
    >>= (λ _. returned (finished w a (run_from w (context w a client port) 0 ids))))

run_picked : World → Args → List Text → Outcome Finished
unfolding client_for is_live run_all ◌>>=◌
run_picked w a [] = threw (str "[run-webrtc] no scenarios to run")
run_picked w a (id ∷ ids) =
    w.make_dir a.results_dir
    >>= (λ _. client_for w a (any is_live (id ∷ ids)) >>= run_all w a (id ∷ ids))

-- `main`: what it writes, or exit status 1. It ends with status 0 whatever the results say.
unfoldable pub main : World → List Text → Outcome Finished
unfolding run_picked parse_args pick
main w argv = let a = parse_args w.default_label argv in run_picked w a (pick a.ids)
