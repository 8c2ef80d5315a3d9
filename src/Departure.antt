-- ===== src/Departure.antt =====
-- src/scenarios/t13-peer-departure-media.ts: four peers join a room, the second departs. What the
-- server, the peers and the provisioning answer is a `World`; calls that change something are
-- listed as effects, in order. Samples and clock readings are left out.
mod Closing
mod Tests
use ad4m_link_language_tests.Prelude.Outcome.{Outcome, returned, threw, ◌>>=◌}
use ad4m_link_language_tests.Prelude.{
  Text, str, decimal, ℕ, zero, suc, ◌+◌, Bool, true, false, not, Option, none, some, List, [], ◌∷◌,
  ◌++◌, ◌==◌, ◌===◌, ◌&&◌, ltb, any, all, find?, if◌then◌else◌,
}

abbrev pub departing_peer : ℕ
departing_peer = 1

abbrev pub peer_count : ℕ
peer_count = 4

abbrev room_name : Text
room_name = str "t13-peer-departure"

-- `remainingIndices`
abbrev remaining : List ℕ
remaining = 0 ∷ 2 ∷ 3 ∷ []

-- `TONES[DEPARTING_PEER]`
abbrev departed_hz : ℕ
departed_hz = 600

pub data Effect : Type 0 where
  start_room provision register stop_room disconnect : Effect
  create attach wire join start_stats detach leave close reset stop_stats : ℕ → Effect

-- By the index of a peer; `bytes_before` and `bytes_after` are `getLastStats()?.bytesReceived`,
-- `rooms` what `sfu.listRooms` answers, as names with participant counts.
pub record World : Type 0 where
  pub starts_room : Outcome (Unit {0})
  pub provisions : Outcome (Unit {0})
  pub registers : Outcome (Unit {0})
  pub attaches : ℕ → Outcome (Unit {0})
  pub wires : ℕ → Outcome (Unit {0})
  pub offers : ℕ → Outcome (Unit {0})
  pub joins : ℕ → Outcome (Option Text)
  pub accepts : ℕ → Outcome (Unit {0})
  pub fills : Outcome (Unit {0})
  pub bytes_before : ℕ → Option ℕ
  pub bytes_after : ℕ → Option ℕ
  pub detected : ℕ → List ℕ
  pub rooms : Outcome (List (Text × ℕ))

-- What the loop that joins has when it ends: the lengths of `peers` and `wires`, and how it ends.
pub record Joined : Type 0 where
  pub peers : ℕ
  pub wires : ℕ
  pub effects : List Effect
  pub outcome : Outcome (Unit {0})

redirected : Option Text → Outcome (Unit {0})
redirected none = returned tt
redirected (some []) = returned tt
redirected (some (c ∷ t)) =
    threw (str "T13 expects a single-node SFU but got cascade redirect to " ++ (c ∷ t))

preceded : List Effect → Joined → Joined
preceded es j = record j { effects = es ++ j.effects }

stopped : ℕ → ℕ → List Effect → Text → Joined
stopped peers wires effects e = record {
  peers = peers;
  wires = wires;
  effects = effects;
  outcome = threw e;
}

module _ (w : World) where
  -- From the offer to the answer that is accepted.
  admitted : ℕ → Outcome (Unit {0})
  unfolding redirected ◌>>=◌
  admitted i = w.offers i >>= (λ _. w.joins i >>= (λ r. redirected r >>= (λ _. w.accepts i)))

  -- One round, for the rounds behind it. A peer is made, and put into `peers` once its stream is attached.
  round : ℕ → Outcome (Unit {0}) → Outcome (Unit {0}) → Outcome (Unit {0}) → Joined → Joined
  unfolding preceded stopped
  round i (threw e) wired let_in rest = stopped i i (create i ∷ []) e
  round i (returned _) (threw e) let_in rest = stopped (suc i) i (create i ∷ attach i ∷ []) e
  round i (returned _) (returned _) (threw e) rest =
      stopped (suc i) (suc i) (create i ∷ attach i ∷ wire i ∷ join i ∷ []) e
  round i (returned _) (returned _) (returned _) rest =
      preceded (create i ∷ attach i ∷ wire i ∷ join i ∷ []) rest

  -- The loop over the sessions from `i` on.
  unfoldable pub join_from : ℕ → ℕ → Joined
  unfolding admitted round
  join_from zero i = record { peers = i; wires = i; effects = []; outcome = returned tt }
  join_from (suc left) i = round i (w.attaches i) (w.wires i) (admitted i) (join_from left (suc i))

  -- `?? 0`
  or_zero : Option ℕ → ℕ
  or_zero none = 0
  or_zero (some n) = n

  all_received : Bool
  unfolding or_zero
  all_received = all (λ i. ltb 0 (or_zero (w.bytes_before i))) (0 ∷ 1 ∷ 2 ∷ 3 ∷ [])

  receive_media : Bool
  unfolding or_zero
  receive_media = all (λ i. ltb (or_zero (w.bytes_before i)) (or_zero (w.bytes_after i))) remaining

  -- Whether no peer that remains detects the departed peer's tone.
  no_stale : Bool
  no_stale = all (λ i. not (any (λ hz. hz == departed_hz) (w.detected i))) remaining

  count_of : Option (Text × ℕ) → Option ℕ
  count_of none = none
  count_of (some (name, n)) = some n

  -- `none` is the -1 of a room that is not listed.
  participants : Outcome (List (Text × ℕ)) → Option ℕ
  unfolding count_of ◌===◌
  participants (threw e) = none
  participants (returned rooms) = count_of (find? (λ r. r.0 === room_name) rooms)

  three_left : Option ℕ → Bool
  three_left none = false
  three_left (some n) = suc n == peer_count

  unfoldable pub passed : Bool
  unfolding all_received receive_media no_stale three_left participants
  passed = all_received && receive_media && no_stale && three_left (participants w.rooms)

departure : List Effect
departure =
    start_stats 0
    ∷ start_stats 1
    ∷ start_stats 2
    ∷ start_stats 3
    ∷ detach departing_peer
    ∷ leave departing_peer
    ∷ close departing_peer
    ∷ reset 0
    ∷ reset 2
    ∷ reset 3
    ∷ []

-- The loops of `finally`, from the index `i` on.
detaches : ℕ → ℕ → List Effect
detaches zero i = []
detaches (suc left) i =
    let rest = detaches left (suc i) in if i == departing_peer then rest else detach i ∷ rest

closes : ℕ → ℕ → List Effect
closes zero i = []
closes (suc left) i =
    let rest = closes left (suc i) in if i == departing_peer then rest else leave i ∷ close i ∷ rest

stats_stopped : ℕ → ℕ → List Effect
stats_stopped zero i = []
stats_stopped (suc left) i = stop_stats i ∷ stats_stopped left (suc i)

finally : ℕ → ℕ → List Effect
unfolding detaches closes stats_stopped
finally peers wires =
    detaches wires 0 ++ closes peers 0 ++ stats_stopped peers 0 ++ stop_room ∷ disconnect ∷ []

-- The `try` with its `finally`, for what the loop made and how the wait for the server ends.
tried : World → Joined → Outcome (Unit {0}) → List Effect × Outcome Bool
unfolding finally departure passed
tried w j (threw e) = (j.effects ++ finally j.peers j.wires, threw e)
tried w j (returned _) = (j.effects ++ departure ++ finally j.peers j.wires, returned (passed w))

prefixed : List Effect → List Effect × Outcome Bool → List Effect × Outcome Bool
prefixed es (fs, o) = (es ++ fs, o)

in_room : World → List Effect × Outcome Bool
unfolding tried join_from prefixed ◌>>=◌
in_room w = let j = join_from w peer_count 0 in tried w j (j.outcome >>= (λ _. w.fills))

-- What comes before the `try`: a failure there undoes nothing.
registered : World → Outcome (Unit {0}) → List Effect × Outcome Bool
unfolding in_room
registered w (threw e) = ([], threw e)
registered w (returned _) = prefixed (register ∷ []) (in_room w)

provisioned : World → Outcome (Unit {0}) → List Effect × Outcome Bool
unfolding registered
provisioned w (threw e) = ([], threw e)
provisioned w (returned _) = prefixed (provision ∷ []) (registered w w.registers)

started : World → Outcome (Unit {0}) → List Effect × Outcome Bool
unfolding provisioned
started w (threw e) = ([], threw e)
started w (returned _) = prefixed (start_room ∷ []) (provisioned w w.provisions)

-- `run`: what was done, and whether the scenario passed, or its failure.
unfoldable pub run : World → List Effect × Outcome Bool
unfolding started
run w = started w w.starts_room
