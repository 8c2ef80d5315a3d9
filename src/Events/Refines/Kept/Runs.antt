-- ===== src/Events/Refines/Kept/Runs.antt =====
-- src/events.ts: any operations, from a fresh client on.
use ad4m_link_language_tests.Prelude.{Text, ◌≡◌, refl, List, [], ◌∷◌, lookup, arith}
use ad4m_link_language_tests.Events.{
  Operation, sub, unsub, close, Session, disconnect, listeners_at, listeners, step, run, start,
  fresh, on_message, typed,
}
use ad4m_link_language_tests.Events.Spec.{
  Subscriptions, handlers_of, promise, promises, IsFair, AreFair, AreDistinct,
}
use ad4m_link_language_tests.Events.Refines.{}
use ad4m_link_language_tests.Events.Refines.Kept.{IsKept, sub-IsKept}
use ad4m_link_language_tests.Events.Refines.Kept.Dropped.{unsub-IsKept}

close-IsKept :
    (s : Session) (p : Subscriptions) → IsKept s p → IsKept (step close s) (promise close p)
unfolding step promise disconnect listeners listeners_at lookup handlers_of AreDistinct
close-IsKept s p k = record {
  apart = record {
    in_range = λ t a e. absurd (ground (arith, e));
    separate = λ t u a e f. absurd (ground (arith, e));
  };
  served = λ t. refl;
  counted = k.counted;
  below = tt;
  held = tt;
  distinct = tt;
}

step-IsKept :
    (o : Operation) (s : Session) (p : Subscriptions)
    → IsFair o p
    → IsKept s p
    → IsKept (step o s) (promise o p)
step-IsKept (sub t h) s p fair k = sub-IsKept t h s p fair k
step-IsKept (unsub i) s p fair k = unsub-IsKept i s p fair k
step-IsKept close s p fair k = close-IsKept s p k

run-IsKept :
    (os : List Operation) (s : Session) (p : Subscriptions)
    → AreFair os p
    → IsKept s p
    → IsKept (run os s) (promises os p)
unfolding run promises AreFair
run-IsKept [] s p fair k = k
run-IsKept (o ∷ os) s p (fair, later) k =
    run-IsKept os (step o s) (promise o p) later (step-IsKept o s p fair k)

abbrev pub none_yet : Subscriptions
none_yet = record { next = 0; live = [] }

start-IsKept : IsKept start none_yet
unfolding start fresh listeners listeners_at lookup handlers_of AreDistinct
start-IsKept = record {
  apart = record {
    in_range = λ t a e. absurd (ground (arith, e));
    separate = λ t u a e f. absurd (ground (arith, e));
  };
  served = λ t. refl;
  counted = refl;
  below = tt;
  held = tt;
  distinct = tt;
}

-- A frame is handed to the listeners whose subscriptions to its type are live, in the order in which
-- they were made, and to no others: after any subscriptions, calls of the functions that end them
-- and disconnections, where no listener subscribes twice to a type at a time and each of those
-- functions is called while its subscription is live.
pub listeners-promises :
    (os : List Operation) (t : Text)
    → AreFair os none_yet
    → on_message (typed t) (run os start).client ≡ handlers_of t (promises os none_yet).live
unfolding on_message
listeners-promises os t fair = (run-IsKept os start none_yet fair start-IsKept).served t
