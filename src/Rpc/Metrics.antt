-- ===== src/Rpc/Metrics.antt =====
-- src/client.ts: `timed` and `resetMetrics`. Durations are whole ticks of the performance clock.
use ad4m_link_language_tests.Prelude.{
  Text, ℕ, suc, ◌+◌, ◌≤◌, ◌≡◌, Option, none, some, List, [], ◌∷◌, ◌++◌, arith, length,
  length-append,
}

pub record Metrics : Type 0 where
  pub total_requests : ℕ
  pub total_errors : ℕ
  pub total_duration : ℕ
  pub latencies : List ℕ

unfoldable pub reset_metrics : Metrics
reset_metrics = record { total_requests = 0; total_errors = 0; total_duration = 0; latencies = [] }

-- `TimedResult`: `none` in `value` stands for the `undefined` of a failed call.
pub record TimedResult (T : Type 0) : Type 0 where
  pub value : Option T
  pub duration : ℕ
  pub error : Option Text

pub data Settled (T : Type 0) : Type 0 where
  returned : T → Settled T
  threw : Text → Settled T

-- `timed` up to its `await`.
unfoldable pub start_timed : Metrics → Metrics
start_timed m = record m { total_requests = suc m.total_requests }

-- `timed` after its `await`: the call took `d` ticks.
module _ {T : Type 0} where
  unfoldable pub finish_timed : Settled T → ℕ → Metrics → Metrics × TimedResult T
  finish_timed (returned v) d m = (
    record m { total_duration = m.total_duration + d; latencies = m.latencies ++ d ∷ [] },
    record { value = some v; duration = d; error = none },
  )
  finish_timed (threw e) d m = (
    record m {
      total_errors = suc m.total_errors;
      total_duration = m.total_duration + d;
      latencies = m.latencies ++ d ∷ [];
    },
    record { value = none; duration = d; error = some e },
  )

-- The metrics that any interleaving of `timed` calls reaches, with the number of calls in flight
-- and the number of calls that threw.
pub data Reach (T : Type 0) : ℕ → ℕ → Metrics → Type 0 where
  here : Reach T 0 0 reset_metrics
  begin : {k f : ℕ} {m : Metrics} → Reach T k f m → Reach T (suc k) f (start_timed m)
  succeed :
      {k f : ℕ} {m : Metrics} (v : T) (d : ℕ)
      → Reach T (suc k) f m
      → Reach T k f (finish_timed (returned v) d m).0
  fail :
      {k f : ℕ} {m : Metrics} (e : Text) (d : ℕ)
      → Reach T (suc k) f m
      → Reach T k (suc f) (finish_timed {T = T} (threw e) d m).0

pub sum : List ℕ → ℕ
sum [] = 0
sum (x ∷ xs) = x + sum xs

sum-append : (xs ys : List ℕ) → sum (xs ++ ys) ≡ sum xs + sum ys
unfolding sum
sum-append [] ys = omega arith
sum-append (x ∷ xs) ys = omega (arith, sum-append xs ys)

-- However `timed` calls interleave, with `k` in flight and `f` failed: every request is in flight
-- or has one latency, the total duration is the sum of the latencies, and the errors are the
-- calls that threw, each of which has a latency too.
pub metrics_account :
    {T : Type 0} {k f : ℕ} {m : Metrics}
    → Reach T k f m
    → (m.total_requests ≡ length m.latencies + k)
      × (m.total_duration ≡ sum m.latencies)
      × (m.total_errors ≡ f)
      × (f ≤ length m.latencies)
unfolding reset_metrics start_timed finish_timed sum
metrics_account here = omega arith
metrics_account (begin r) = omega (arith, metrics_account r)
metrics_account (succeed {m} v d r) =
    omega (
      arith,
      metrics_account r,
      length-append m.latencies (d ∷ []),
      sum-append m.latencies (d ∷ []),
    )
metrics_account (fail {m} e d r) =
    omega (
      arith,
      metrics_account r,
      length-append m.latencies (d ∷ []),
      sum-append m.latencies (d ∷ []),
    )
