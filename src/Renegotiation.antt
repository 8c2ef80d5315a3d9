-- ===== src/Renegotiation.antt =====
-- src/renegotiation.ts: `wireRenegotiation`. The listener chains each frame behind those before it,
-- so the frames wait in a queue and the event loop works off its head. What parses an offer, makes
-- the answer and posts it is not under src/renegotiation.ts and is a `Backend`.
pub mod Serial
mod Tests
use ad4m_link_language_tests.Prelude.{
  Text, ℕ, zero, suc, ◌+◌, Bool, true, false, ◌&&◌, Option, none, some, List, [], ◌∷◌, ◌++◌, ◌===◌,
  if◌then◌else◌,
}
use ad4m_link_language_tests.Prelude.Outcome.{Outcome, returned, threw, ◌>>=◌}

-- `none` is an `sdpOffer` that is not a string.
pub record EventFrame : Type 0 where
  pub neighbourhood_url : Text
  pub room_name : Text
  pub sdp_offer : Option Text

pub record Config : Type 0 where
  pub neighbourhood_url : Text
  pub room_name : Text

pub record Backend : Type 0 where
  pub parse : Text → Outcome Text
  pub create_answer : Text → Outcome Text
  pub post : Text → Outcome (Unit {0})
  pub on_renegotiated : Outcome (Unit {0})

-- `posted` lists the answers that the server has taken.
pub record Wire : Type 0 where
  pub listening : Bool
  pub queue : List EventFrame
  pub applied : ℕ
  pub failed : ℕ
  pub posted : List Text

abbrev pub fresh : Wire
fresh = record { listening = true; queue = []; applied = 0; failed = 0; posted = [] }

pub matches : Config → EventFrame → Bool
matches cfg f = f.neighbourhood_url === cfg.neighbourhood_url && f.room_name === cfg.room_name

-- The answer that is posted for an offer.
pub negotiate : Backend → Text → Outcome Text
unfolding ◌>>=◌
negotiate b sdp = b.parse sdp >>= λ offer.
    b.create_answer offer >>= λ answer. b.post answer >>= λ _. returned answer

-- `applied += 1; cfg.onRenegotiated?.()`, then the `catch` of the listener.
count : Backend → Outcome Text → Wire → Wire
count b (threw e) w = record w { failed = suc w.failed }
count b (returned answer) w =
    let done = record w { applied = suc w.applied; posted = w.posted ++ answer ∷ [] } in
    elim b.on_renegotiated [ returned _ ↦ done | threw e ↦ record done { failed = suc w.failed } ]

apply_text : Backend → Option Text → Wire → Wire
unfolding count negotiate
apply_text b none w = w
apply_text b (some sdp) w = count b (negotiate b sdp) w

pub apply_offer : Config → Backend → EventFrame → Wire → Wire
unfolding matches apply_text
apply_offer cfg b f w = if matches cfg f then apply_text b f.sdp_offer w else w

-- A frame arrives, the next queued frame is worked off, or the listener is taken off.
pub data Event : Type 0 where
  arrives : EventFrame → Event
  works detaches : Event

work : Config → Backend → List EventFrame → Wire → Wire
unfolding apply_offer
work cfg b [] w = w
work cfg b (f ∷ fs) w = apply_offer cfg b f (record w { queue = fs })

pub step : Config → Backend → Event → Wire → Wire
unfolding work
step cfg b (arrives f) w = if w.listening then record w { queue = w.queue ++ f ∷ [] } else w
step cfg b works w = work cfg b w.queue w
step cfg b detaches w = record w { listening = false }

unfoldable pub run : Config → Backend → List Event → Wire → Wire
unfolding step
run cfg b [] w = w
run cfg b (e ∷ es) w = run cfg b es (step cfg b e w)

-- `await pending` of `detach`: the queue is worked off.
drain : Config → Backend → List EventFrame → Wire → Wire
unfolding apply_offer
drain cfg b [] w = w
drain cfg b (f ∷ fs) w = drain cfg b fs (apply_offer cfg b f (record w { queue = fs }))

unfoldable pub detach : Config → Backend → Wire → Wire
unfolding drain
detach cfg b w = drain cfg b w.queue (record w { listening = false })
