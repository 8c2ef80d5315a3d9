-- ===== src/ConvergenceScenario/Polls.antt =====
-- src/scenarios/c1-convergence.ts: the poll loop and the removal that follows it.
pub mod Agree
use ad4m_link_language_tests.Prelude.{
  Text, str, ℕ, Bool, true, false, not, ◌&&◌, ◌||◌, Option, none, some, List, [], ◌∷◌, find?,
  length, starts_with, contains, if◌then◌else◌,
}
use ad4m_link_language_tests.Prelude.Outcome.{Outcome, returned, threw}
use ad4m_link_language_tests.ConvergenceScenario.{
  Link, Poll, Removal, link_key, key_set, superset_of,
}

pub record Polled : Type 0 where
  pub converged : Bool
  pub last_a : ℕ
  pub last_b : ℕ

-- The poll loop, with the sizes of the sets that were read last.
unfoldable pub converge_poll : List Text → List Poll → ℕ → ℕ → Polled
unfolding superset_of key_set
converge_poll expected [] a b = record { converged = false; last_a = a; last_b = b }
converge_poll expected ((at_a, at_b) ∷ polls) a b =
    let set_a = key_set at_a in
    let set_b = key_set at_b in
    let later = converge_poll expected polls (length set_a) (length set_b) in
    if superset_of expected set_a && superset_of expected set_b
    then record { converged = true; last_a = length set_a; last_b = length set_b }
    else later

pub record Removed : Type 0 where
  pub converged : Bool
  pub error : Option Text
  pub key : Text
  pub elapsed_ms : ℕ

removal_poll : Text → List Poll → Bool
unfolding key_set contains
removal_poll key [] = false
removal_poll key ((at_a, at_b) ∷ polls) =
    let later = removal_poll key polls in
    if not (contains key (key_set at_a)) && not (contains key (key_set at_b)) then true else later

remove_found : Removal → Option Link → Removed
unfolding removal_poll link_key
remove_found r none = record {
  converged = false;
  error = some (str "no A-authored link found to remove");
  key = [];
  elapsed_ms = 0;
}
remove_found r (some l) = elim (r.removes l) [
  | threw e ↦ record { converged = false; error = some e; key = link_key l; elapsed_ms = 0 }
  | returned _ ↦ record {
    converged = removal_poll (link_key l) r.polls;
    error = none;
    key = link_key l;
    elapsed_ms = r.elapsed_ms;
  }
]

-- A removal is tried only once the sets have converged, and never fails the scenario.
unfoldable pub check_removal : Bool → Removal → Removed
unfolding remove_found link_key starts_with
check_removal false r = record { converged = false; error = none; key = []; elapsed_ms = 0 }
check_removal true r =
    remove_found r (find? (λ l. starts_with (link_key l) (str "ad4m://c1-A-")) r.queried)
