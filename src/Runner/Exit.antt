-- ===== src/Runner/Exit.antt =====
-- src/main.ts: `main` after the command line is parsed, up to its exit code. The report files are
-- left out; a flag with no value is not passed on.
pub mod Failures
use ad4m_link_language_tests.Prelude.Outcome.{Outcome, returned, threw}
use ad4m_link_language_tests.Prelude.{
  Text, Dict, str, ℕ, zero, suc, ◌+◌, ◌*◌, ◌<◌, ltb, Bool, true, false, not, ◌&&◌, any, filter,
  Option, none, some, List, [], ◌∷◌, ◌++◌, ◌===◌, map, if◌then◌else◌, insert, lookup, lookup-insert,
  length, arith, ◌≡◌, ◌≢◌, refl, sym, ap, ◌∙◌, text_iff, All, Bool-cases, Option-cases, inl, inr,
  ◌↔◌,
}
use ad4m_link_language_tests.Scenario.{Scenario, ScenarioResult}
use ad4m_link_language_tests.Runner.{World, branch_to_dir_name, run_scenarios_for_branch}

pub data ExitCode : Type 0 where
  success failure : ExitCode

-- What `main` uses of the parsed arguments.
pub record Settings : Type 0 where
  pub scenarios : List Text
  pub branches : List Text
  pub skip_build : Bool
  pub executor_path : Option Text

pub selected : List Scenario → List Text → List Scenario
selected all_scenarios [] = all_scenarios
selected all_scenarios (i ∷ ids) = filter (λ s. any (λ t. t === s.id) (i ∷ ids)) all_scenarios

abbrev pub chosen_branches : List Text → List Text
chosen_branches [] = str "default" ∷ []
chosen_branches (b ∷ bs) = b ∷ bs

set_all : Text → List Text → Dict Text → Dict Text
set_all path [] m = m
set_all path (b ∷ bs) m = set_all path bs (insert b path m)

abbrev release_path : Text → Text → Text
release_path tmp branch =
    tmp ++ str "/ad4m-build-" ++ branch_to_dir_name branch ++ str "/target/release/ad4m-executor"

-- `none` is `process.exit(1)`.
find_built : World → List Text → Dict Text → Option (Dict Text)
find_built w [] m = some m
find_built w (b ∷ bs) m =
    let path = release_path w.tmp_dir b in
    let rest = find_built w bs (insert b path m) in if w.binary_exists path then rest else none

built : Text → Outcome Text → Dict Text → Dict Text
built b (returned path) m = insert b path m
built b (threw e) m = m

build_all : World → List Text → Dict Text → Dict Text
unfolding built
build_all w [] m = m
build_all w (b ∷ bs) m = build_all w bs (built b (w.builds b) m)

given : World → Settings → List Text → Option (Dict Text)
unfolding set_all find_built build_all
given w a bs = elim a.executor_path [
  | some path ↦ (if path === [] then not_given else some (set_all path bs []))
  | none ↦ not_given
]
  where
    not_given : Option (Dict Text)
    not_given =
        if a.skip_build
        then find_built w bs []
        else if w.repo_is_valid
        then some (build_all w bs [])
        else none

-- `binaryPaths`.
pub locate : World → Settings → List Scenario → List Text → Option (Dict Text)
unfolding given set_all
locate w a ss bs =
    if any (λ s. not s.manages_own_environment) ss
    then given w a bs
    else some (set_all (str "pod-managed") bs [])

-- `binaryPaths.get(branch)` where it is not `undefined` or empty.
pub located : Dict Text → Text → Bool
located paths b = elim (lookup b paths) [ none ↦ false | some path ↦ not (path === []) ]

abbrev Results : Type 0
Results = Dict (List ScenarioResult)

run_branches : World → List Scenario → Dict Text → List Text → ℕ → Results → Results
unfolding located
run_branches w ss paths [] offset m = m
run_branches w ss paths (b ∷ bs) offset m =
    let results = (run_scenarios_for_branch w b (w.base_port + offset * 10) ss).0 in
    let ran = run_branches w ss paths bs (suc offset) (insert (branch_to_dir_name b) results m) in
    let skipped = run_branches w ss paths bs offset m in if located paths b then ran else skipped

failed_of : List ScenarioResult → ℕ
failed_of [] = 0
failed_of (r ∷ rs) = let rest = failed_of rs in if r.passed then rest else suc rest

total_failed : Results → ℕ
unfolding failed_of
total_failed [] = 0
total_failed ((k, rs) ∷ m) = failed_of rs + total_failed m

report : World → List Scenario → List Text → Option (Dict Text) → ExitCode
unfolding run_branches total_failed
report w ss bs none = failure
report w ss bs (some []) = failure
report w ss bs (some (p ∷ paths)) =
    if ltb 0 (total_failed (run_branches w ss (p ∷ paths) bs 0 [])) then failure else success

unfoldable pub main : World → List Scenario → Settings → ExitCode
unfolding report locate selected
main w all_scenarios a =
    let ss = selected all_scenarios a.scenarios in
    let bs = chosen_branches a.branches in report w ss bs (locate w a ss bs)
