-- ===== src/ConvergenceScenario.antt =====
-- src/scenarios/c1-convergence.ts: two agents write links through a link language, and their link
-- sets are polled until they converge. What the executors and the backend answer is a `World`; the
-- polls are those made before the deadline, and clock readings are given. Samples and console output
-- are left out.
mod Links
mod Polls
mod Run
mod Tests
use ad4m_link_language_tests.Prelude.{
  Text, Dict, str, decimal, ℕ, zero, suc, Bool, true, false, not, ◌&&◌, Option, none, some, List,
  [], ◌∷◌, ◌++◌, ◌===◌, map, all, find?, length, starts_with, contains, add, set_from,
  if◌then◌else◌,
}
use ad4m_link_language_tests.Prelude.Outcome.{Outcome, returned, threw}
use ad4m_link_language_tests.Convergence.{Environment}

pub record Link : Type 0 where
  pub source : Text
  pub predicate : Text
  pub target : Text

-- The link sets of the agents A and B at one poll.
abbrev pub Poll : Type 0
Poll = List Link × List Link

-- A `TimedResult` of a call whose answer is an address, a uuid or a URL.
pub record Reply : Type 0 where
  pub error : Option Text
  pub answer : Option Text

-- The link that A queries for a removal, the removal, and the polls behind it.
pub record Removal : Type 0 where
  pub queried : List Link
  pub removes : Link → Outcome (Unit {0})
  pub polls : List Poll
  pub elapsed_ms : ℕ

-- The command line and the environment; executor B; the calls in their order, of which `join`
-- answers with a uuid and the JSON text of the answer; the polls.
pub record World : Type 0 where
  pub branch : Text
  pub duration_ms : ℕ
  pub converge_ms : ℕ
  pub argv : List Text
  pub language_variable : Option Text
  pub links : Option ℕ
  pub environment : Environment
  pub neighbourhood_id : Text
  pub reachable : Text → ℕ → Bool
  pub boots : Outcome (Unit {0})
  pub connects : Outcome (Unit {0})
  pub publish_language : Text → List Text → Reply
  pub apply_template : Text → Dict Text → Reply
  pub create_perspective : Reply
  pub publish_neighbourhood : Text → Text → Reply
  pub join : Text → Outcome (Option Text × Text)
  pub polls : Text → Text → List Poll
  pub removal : Text → Text → Removal

-- `argFlag`: the word behind the first `name`.
unfoldable pub arg_flag : Text → List Text → Option Text
unfolding ◌===◌
arg_flag name [] = none
arg_flag name (a ∷ []) = none
arg_flag name (a ∷ (b ∷ argv)) =
    let rest = arg_flag name (b ∷ argv) in if a === name then some b else rest

-- `a || b`, where a missing and an empty text are falsy.
or_else : Option Text → Text → Text
or_else none b = b
or_else (some []) b = b
or_else (some (c ∷ a)) b = c ∷ a

unfoldable pub language_id : World → Text
unfolding arg_flag or_else
language_id w =
    or_else (arg_flag (str "--convergence-language") w.argv)
      (or_else w.language_variable (str "nostr"))

unfoldable pub link_key : Link → Text
link_key l = l.source ++ (b'|' ∷ (l.predicate ++ (b'|' ∷ l.target)))

unfoldable pub key_set : List Link → List Text
unfolding set_from link_key
key_set links = set_from [] (map link_key links)

-- The `i`-th links of A and of B.
unfoldable pub link_a : ℕ → Link
unfolding decimal
link_a i = record {
  source = str "ad4m://c1-A-" ++ decimal i;
  predicate = str "c1://has_message";
  target = str "literal://a-" ++ decimal i;
}

unfoldable pub link_b : ℕ → Link
unfolding decimal
link_b i = record {
  source = str "ad4m://c1-B-" ++ decimal i;
  predicate = str "c1://has_message";
  target = str "literal://b-" ++ decimal i;
}

-- The loop that writes, from `i` on, with `left` rounds to go.
unfoldable pub expected_from : ℕ → ℕ → List Text → List Text
unfolding add link_key link_a link_b
expected_from zero i expected = expected
expected_from (suc left) i expected =
    expected_from left (suc i) (add (link_key (link_b i)) (add (link_key (link_a i)) expected))

-- No round is made when `C1_LINKS` is not a number.
unfoldable pub rounds : Option ℕ → ℕ
rounds none = 0
rounds (some k) = k

unfoldable pub expected : World → List Text
unfolding expected_from rounds
expected w = expected_from (rounds w.links) 0 []

unfoldable pub superset_of : List Text → List Text → Bool
unfolding contains
superset_of expected have = all (λ k. contains k have) expected
