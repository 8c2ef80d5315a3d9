-- ===== src/Executor/Process.antt =====
-- src/executor.ts: starting an executor, waiting for its health, and stopping it.
use ad4m_link_language_tests.Executor
use ad4m_link_language_tests.Prelude.Outcome.{Outcome, returned, threw}
use ad4m_link_language_tests.Prelude.{
  Text, str, decimal, ℕ, Bool, true, false, Option, none, some, List, [], ◌∷◌, ◌++◌, ◌≡◌, refl,
  if◌then◌else◌,
}

extra : Option (List Text) → List Text
extra none = []
extra (some args) = args

-- The arguments of `startExecutor`.
unfoldable pub start_args : Executor.ExecutorConfig → List Text
unfolding extra decimal
start_args c =
    (str "run"
      ∷ str "--app-data-path"
      ∷ c.data_path
      ∷ str "--port"
      ∷ decimal c.port
      ∷ str "--admin-credential"
      ∷ c.admin_token
      ∷ str "--run-dapp-server"
      ∷ str "false"
      ∷ str "--hc-use-bootstrap"
      ∷ str "false"
      ∷ str "--hc-use-proxy"
      ∷ str "false"
      ∷ str "--enable-multi-user"
      ∷ str "true"
      ∷ [])
    ++ extra c.extra_args

-- One round of the loop: the fetch failed, the status was not ok, the socket was not ready, or all
-- was well after so many milliseconds.
pub data Round : Type 0 where
  unreachable not_ok not_ready : Round
  ready : ℕ → Round

-- `waitForHealth` over the rounds that begin before the deadline.
unfoldable pub wait_for_health : ℕ → ℕ → List Round → Outcome ℕ
unfolding decimal
wait_for_health port timeout [] = threw (
    str "Executor on port "
    ++ decimal port
    ++ str " did not become healthy within "
    ++ decimal timeout
    ++ str "ms")
wait_for_health port timeout (ready elapsed ∷ rounds) = returned elapsed
wait_for_health port timeout (unreachable ∷ rounds) = wait_for_health port timeout rounds
wait_for_health port timeout (not_ok ∷ rounds) = wait_for_health port timeout rounds
wait_for_health port timeout (not_ready ∷ rounds) = wait_for_health port timeout rounds

pub data Signal : Type 0 where
  sigterm sigkill : Signal

-- `killed` is true once a signal was delivered to the process, whether it ends it or not.
pub record ChildProcess : Type 0 where
  pub is_alive : Bool
  pub killed : Bool
  pub signals : List Signal

-- `proc.kill(signal)`: a process that has exited is sent nothing.
deliver : Signal → ChildProcess → ChildProcess
deliver s p = if p.is_alive then record p { killed = true; signals = p.signals ++ s ∷ [] } else p

kill_unless : Bool → Signal → ChildProcess → ChildProcess
unfolding deliver
kill_unless true s p = p
kill_unless false s p = deliver s p

-- The timer of `stopExecutor`, for a process that may have exited since.
unfoldable pub after_five_seconds : ChildProcess → ChildProcess
unfolding kill_unless
after_five_seconds p = kill_unless p.killed sigkill p

-- `stopExecutor`, up to the timer, and whether it is set.
unfoldable pub stop_executor : ChildProcess → ChildProcess × Bool
unfolding deliver
stop_executor p = if p.killed then (p, false) else (deliver sigterm p, true)

-- A process that takes no notice of SIGTERM is never sent SIGKILL.
stop_executor-signals :
    (killed : Bool) (signals : List Signal)
    → let p : ChildProcess = record { is_alive = true; killed = killed; signals = signals } in
      (after_five_seconds (stop_executor p).0).signals ≡ (stop_executor p).0.signals
unfolding after_five_seconds stop_executor kill_unless deliver
stop_executor-signals true signals = refl
stop_executor-signals false signals = refl
