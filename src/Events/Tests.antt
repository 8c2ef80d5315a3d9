-- ===== src/Events/Tests.antt =====
-- Two listeners of one type, the first of which goes and comes back; and a function called twice.
use ad4m_link_language_tests.Prelude.{
  str, ◌≡◌, refl, List, [], ◌∷◌, ◌===◌, lookup, insert, remove, arith,
}
use ad4m_link_language_tests.Events.{
  Operation, sub, unsub, run, start, listeners, on_message, typed, add_listener, delete_listener,
  set_at, update_at,
}
use ad4m_link_language_tests.Events.Spec.{
  handlers_of, promises, promise, without, find_token, IsFair, AreFair,
}
use ad4m_link_language_tests.Events.Refines.Kept.Runs.{none_yet, listeners-promises}

abbrev operations : List Operation
operations = sub (str "a") 1 ∷ sub (str "a") 2 ∷ unsub 0 ∷ sub (str "b") 1 ∷ sub (str "a") 1 ∷ []

operations-AreFair : AreFair operations none_yet
unfolding AreFair IsFair handlers_of find_token promise without ◌===◌
operations-AreFair = (
  tt,
  (
    (λ e. ground (arith, e), tt),
    ((λ e. ground (arith, e)), (tt, ((λ e. ground (arith, e), tt), tt))),
  ),
)

listeners-run : listeners (str "a") (run operations start).client ≡ 2 ∷ 1 ∷ []
unfolding run start listeners lookup insert remove ◌===◌ add_listener delete_listener set_at
    update_at
listeners-run = refl

-- A function that is called again after its set was emptied and the type has a new set takes the
-- new set's listeners off.
off-twice :
    listeners
      (str "a")
      (run (sub (str "a") 1 ∷ unsub 0 ∷ sub (str "a") 2 ∷ unsub 0 ∷ []) start).client
    ≡ []
unfolding run start listeners lookup insert remove ◌===◌ add_listener delete_listener set_at
    update_at
off-twice = refl

listeners-promises_example :
    on_message (typed (str "a")) (run operations start).client
    ≡ handlers_of (str "a") (promises operations none_yet).live
listeners-promises_example = listeners-promises operations (str "a") operations-AreFair
