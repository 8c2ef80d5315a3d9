-- ===== src/Rpc/Tests.antt =====
-- A client that makes two calls, of which the first is answered twice, and the second when the
-- socket closes; and two `timed` calls.
use ad4m_link_language_tests.Prelude.{
  str, ℕ, ◌+◌, ◌≤◌, ◌≡◌, refl, none, some, List, [], ◌∷◌, ◌++◌, length, All, decimal, ◌==◌,
  if◌then◌else◌, arith, lookup, insert, remove, ◌===◌,
}
use ad4m_link_language_tests.Rpc.{
  Event, connect, opened, close, message, call, Message, fresh, step, run, on_message, outcome_of,
  resolved, Outcome,
}
use ad4m_link_language_tests.Rpc.Pending.{times_pending, times_settled}
use ad4m_link_language_tests.Rpc.Once.{
  Answers, issued, exactly_once, close_settles_all, response_settles,
}
use ad4m_link_language_tests.Rpc.Metrics.{
  Metrics, Reach, here, begin, succeed, fail, reset_metrics, start_timed, finish_timed, returned,
  threw, metrics_account, sum,
}
use ad4m_link_language_tests.Rpc.Latency.{get_stats, get_stats_ordered, Quantiles}

abbrev reply : Message ℕ
reply = record { id = some (decimal 1); error = none; result = 7 }

abbrev traffic : List (Event ℕ)
traffic = connect ∷ opened ∷ call (str "a") 0 ∷ call (str "b") 0 ∷ []

abbrev answered : List (Event ℕ)
answered = connect ∷ opened ∷ call (str "a") 0 ∷ call (str "b") 0 ∷ message (some reply) ∷ []

traffic-run : (run answered fresh).settled ≡ (1, resolved 7) ∷ []
unfolding run fresh ◌===◌ decimal lookup insert remove outcome_of
traffic-run = refl

two-issued : (run traffic fresh).request_id ≡ 2
unfolding run fresh
two-issued = refl

exactly_once_example :
    times_settled 1 (run answered fresh).settled + times_pending 1 (run answered fresh).pending
    ≡ issued 1 (run answered fresh).request_id
exactly_once_example = exactly_once answered 1

close_settles_all_example :
    ((step close (run answered fresh)).pending ≡ [])
    × (times_settled 2 (step close (run answered fresh)).settled
        ≡ issued 2 (step close (run answered fresh)).request_id)
close_settles_all_example = close_settles_all answered 2

one_issued : 1 ≤ (run traffic fresh).request_id
one_issued = omega (arith, two-issued)

response_settles_example :
    (o : Outcome ℕ) × Answers reply o
    × ((on_message (some reply) (run traffic fresh)).settled ≡ (
        if times_settled 1 (run traffic fresh).settled == 0
        then (run traffic fresh).settled ++ (1, o) ∷ []
        else (run traffic fresh).settled))
response_settles_example = response_settles traffic 1 reply (omega arith) one_issued refl

-- The second call throws after the first has returned.
abbrev two_calls : Metrics
two_calls =
    (finish_timed {T = ℕ} (threw (str "no")) 5
      (finish_timed {T = ℕ} (returned 1) 3 (start_timed (start_timed reset_metrics))).0).0

two_reached : Reach ℕ 0 1 two_calls
two_reached = fail (str "no") 5 (succeed 1 3 (begin (begin here)))

metrics_account_example :
    (two_calls.total_requests ≡ length two_calls.latencies + 0)
    × (two_calls.total_duration ≡ sum two_calls.latencies)
    × (two_calls.total_errors ≡ 1)
    × (1 ≤ length two_calls.latencies)
metrics_account_example = metrics_account two_reached

abbrev timed_thrice : Metrics
timed_thrice = record {
  total_requests = 3;
  total_errors = 0;
  total_duration = 15;
  latencies = 7 ∷ 2 ∷ 6 ∷ [];
}

get_stats_ordered_example :
    (q : Quantiles (get_stats timed_thrice)) × ((get_stats timed_thrice).count ≡ 3)
    × All (λ v. (q.lo ≤ v) × (v ≤ q.hi)) timed_thrice.latencies
get_stats_ordered_example = get_stats_ordered timed_thrice (omega arith)
