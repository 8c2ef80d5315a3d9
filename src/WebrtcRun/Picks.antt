-- ===== src/WebrtcRun/Picks.antt =====
-- src/run-webrtc.ts: the scenarios by the name that the command line gives them, and those that need
-- an executor that runs. A scenario is its `id`. A name that every JavaScript object inherits
-- (`constructor`) is taken as any other unknown name.
use ad4m_link_language_tests.Prelude.{
  Text, str, Dict, lookup, Bool, Option, none, some, List, [], ◌∷◌, ◌===◌, any, if◌then◌else◌,
}

-- `registry`, in the order of its entries.
abbrev pub registry : Dict Text
registry =
    (str "w1", str "w1")
    ∷ (str "w1m", str "w1m")
    ∷ (str "w2", str "w2")
    ∷ (str "w3", str "w3")
    ∷ (str "w4", str "w4")
    ∷ (str "w5", str "w5")
    ∷ (str "t1", str "t1")
    ∷ (str "t2", str "t2")
    ∷ (str "t3", str "t3")
    ∷ (str "t4", str "t4")
    ∷ (str "t5", str "t5")
    ∷ (str "t6", str "t6")
    ∷ (str "t7", str "t7")
    ∷ (str "t8", str "t8")
    ∷ (str "t9", str "t9")
    ∷ (str "t10", str "t10")
    ∷ (str "t11", str "t11")
    ∷ (str "t15", str "t15")
    ∷ (str "m1", str "m1-sfu")
    ∷ (str "m2", str "m2-sfu")
    ∷ (str "m3", str "m3-sfu")
    ∷ (str "m4", str "m4-sfu")
    ∷ (str "f1", str "f1")
    ∷ (str "f2", str "f2")
    ∷ (str "f3", str "f3")
    ∷ (str "f4", str "f4")
    ∷ (str "f5", str "f5")
    ∷ (str "f6", str "f6")
    ∷ (str "f7", str "f7")
    ∷ (str "s1", str "s1-sfu")
    ∷ (str "s2", str "s2-sfu")
    ∷ (str "s3", str "s3-sfu")
    ∷ (str "t12", str "t12")
    ∷ (str "t13", str "t13")
    ∷ (str "t14", str "t14")
    ∷ []

-- `Object.values`
values : Dict Text → List Text
values [] = []
values ((k, v) ∷ entries) = v ∷ values entries

consed : Option Text → List Text → List Text
consed none ids = ids
consed (some s) ids = s ∷ ids

pick_each : List Text → List Text
unfolding consed lookup
pick_each [] = []
pick_each (id ∷ ids) = consed (lookup id registry) (pick_each ids)

-- `pick`: every scenario for `all`, else those that are known.
unfoldable pub pick : List Text → List Text
unfolding pick_each values ◌===◌
pick ids = if any (λ id. id === str "all") ids then values registry else pick_each ids

abbrev pub live_executor_scenario_ids : List Text
live_executor_scenario_ids =
    str "t1"
    ∷ str "t2"
    ∷ str "t8"
    ∷ str "t9"
    ∷ str "t10"
    ∷ str "t12"
    ∷ str "t13"
    ∷ str "t14"
    ∷ str "m1-sfu"
    ∷ str "m2-sfu"
    ∷ str "m4-sfu"
    ∷ str "f2"
    ∷ str "f5"
    ∷ str "f6"
    ∷ str "f7"
    ∷ str "s1-sfu"
    ∷ []

-- `liveExecutorScenarioIds.has(id)`
unfoldable pub is_live : Text → Bool
unfolding ◌===◌
is_live id = any (λ live. live === id) live_executor_scenario_ids
