-- ===== src/Rpc.antt =====
-- src/client.ts: the WebSocket RPC half of `InstrumentedClient`. A promise is named by the number
-- of its call, and `settled` lists the calls of `resolve` and `reject` in order. JSON values are
-- an arbitrary type `V`; a frame that `JSON.parse` refuses is `none`.
pub mod Pending
pub mod Once
pub mod Metrics
pub mod Sorting
pub mod Latency
mod Tests
use ad4m_link_language_tests.Prelude.{
  Text, Dict, ℕ, suc, ◌+◌, Bool, true, false, Option, none, some, List, [], ◌∷◌, ◌++◌, ◌===◌, map,
  str, decimal, lookup, insert, remove, if◌then◌else◌,
}

-- `ws === null`, and the `readyState` of a socket that is there (`ready` is OPEN).
pub data Socket : Type 0 where
  absent connecting ready closed : Socket

pub data Outcome (V : Type 0) : Type 0 where
  resolved : V → Outcome V
  rejected : Text → Outcome V

-- `msg.error`: its `message` (empty when absent) and its JSON text.
pub record RpcError : Type 0 where
  pub message : Text
  pub json : Text

-- A parsed frame; `id` is `String(msg.id)`, and `none` when `msg.id` is falsy.
pub record Message (V : Type 0) : Type 0 where
  pub id : Option Text
  pub error : Option RpcError
  pub result : V

pub record Frame (V : Type 0) : Type 0 where
  pub id : Text
  pub method : Text
  pub params : V

pub record Client (V : Type 0) : Type 0 where
  pub socket : Socket
  pub request_id : ℕ
  pub pending : Dict ℕ
  pub sent : List (Frame V)
  pub settled : List (ℕ × Outcome V)

-- `msg.error.message || JSON.stringify(msg.error)`
abbrev error_text : RpcError → Text
error_text e = if e.message === [] then e.json else e.message

is_open : Socket → Bool
is_open ready = true
is_open _ = false

module _ {V : Type 0} where
  unfoldable pub fresh : Client V
  fresh = record { socket = absent; request_id = 0; pending = []; sent = []; settled = [] }

  abbrev settle : ℕ → Outcome V → Client V → Client V
  settle n o c = record c { settled = c.settled ++ (n, o) ∷ [] }

  pub outcome_of : Message V → Outcome V
  outcome_of m = elim m.error [ none ↦ resolved m.result | some e ↦ rejected (error_text e) ]

  -- The entry of one id is taken out before its promise is settled.
  take_pending : Text → Option ℕ → Outcome V → Client V → Client V
  take_pending id none o c = c
  take_pending id (some n) o c = settle n o (record c { pending = remove id c.pending })

  on_id : Option Text → Message V → Client V → Client V
  unfolding take_pending outcome_of
  on_id none m c = c
  on_id (some id) m c = take_pending id (lookup id c.pending) (outcome_of m) c

  -- The `message` handler.
  unfoldable pub on_message : Option (Message V) → Client V → Client V
  unfolding on_id
  on_message none c = c
  on_message (some m) c = on_id m.id m c

  -- The `close` handler, of the socket that the client has.
  unfoldable pub on_close : Client V → Client V
  on_close c = record c {
    socket = closed;
    pending = [];
    settled = c.settled ++ map (λ e. (e.1, rejected (str "WebSocket closed"))) c.pending;
  }

  -- The timer that `wsCall` arms: 120 seconds after call `n` of `method`.
  unfoldable pub on_timeout : ℕ → Text → Client V → Client V
  unfolding take_pending
  on_timeout n method c =
      take_pending (decimal n) (lookup (decimal n) c.pending)
        (rejected (str "WS request " ++ (method ++ str " timed out"))) c

  -- `wsCall`: the number of the promise that it returns, or `none` when it throws.
  unfoldable pub ws_call : Text → V → Client V → Client V × Option ℕ
  unfolding is_open
  ws_call method params c =
      let n = suc c.request_id in
      if is_open c.socket
      then (
        record c {
          request_id = n;
          pending = insert (decimal n) n c.pending;
          sent = c.sent ++ record { id = decimal n; method = method; params = params } ∷ [];
        },
        some n,
      )
      else (c, none)

-- What happens to a client, in the order in which the event loop runs it.
pub data Event (V : Type 0) : Type 0 where
  connect opened failed disconnect close : Event V
  message : Option (Message V) → Event V
  timeout : ℕ → Text → Event V
  call : Text → V → Event V

module _ {V : Type 0} where
  unfoldable pub step : Event V → Client V → Client V
  unfolding on_message on_close on_timeout ws_call
  step connect c = record c { socket = connecting }
  step opened c = record c { socket = ready }
  step failed c = c
  step disconnect c = record c { socket = absent }
  step close c = on_close c
  step (message m) c = on_message m c
  step (timeout n method) c = on_timeout n method c
  step (call method params) c = (ws_call method params c).0

  unfoldable pub run : List (Event V) → Client V → Client V
  unfolding step
  run [] c = c
  run (e ∷ es) c = run es (step e c)
