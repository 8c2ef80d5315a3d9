-- ===== src/Peer/Stats.antt =====
-- src/peer.ts: `aggregateStats`. Counters are natural numbers, jitter and round-trip time whole
-- ticks; an average is its sum with its divisor.
pub mod Totals
pub mod Pair
use ad4m_link_language_tests.Prelude.{
  Text, Dict, str, ℕ, zero, suc, ◌+◌, ◌*◌, ◌≤◌, ◌<◌, ◌≡◌, refl, Bool, true, false, ◌&&◌, not,
  Option, none, some, List, [], ◌∷◌, ◌++◌, map, ◌===◌, ltb, arith, lookup, if◌then◌else◌, filter,
  Bool-cases, inl, inr,
}

-- One entry of the `getStats()` map. `none` is an absent field; an empty `rid` or candidate id is
-- falsy too.
pub record Report : Type 0 where
  pub kind : Text
  pub bytes_sent : Option ℕ
  pub packets_sent : Option ℕ
  pub frames_encoded : Option ℕ
  pub rid : Option Text
  pub bytes_received : Option ℕ
  pub packets_received : Option ℕ
  pub packets_lost : Option ℕ
  pub jitter : Option ℕ
  pub frames_decoded : Option ℕ
  pub frames_dropped : Option ℕ
  pub nominated : Bool
  pub current_round_trip_time : Option ℕ
  pub local_candidate_id : Option Text
  pub remote_candidate_id : Option Text
  pub candidate_type : Option Text

pub record Layer : Type 0 where
  pub rid : Text
  pub bytes_sent : ℕ
  pub packets_sent : ℕ
  pub frames_encoded : ℕ
  pub active : Bool

pub record PeerStats : Type 0 where
  pub bytes_sent : ℕ
  pub packets_sent : ℕ
  pub frames_encoded : ℕ
  pub bytes_received : ℕ
  pub packets_received : ℕ
  pub packets_lost : ℕ
  pub jitter : ℕ × ℕ
  pub frames_decoded : ℕ
  pub frames_dropped : ℕ
  pub current_round_trip_time_ms : Option ℕ
  pub selected_candidate_pair : Option Text
  pub selected_local_candidate_type : Option Text
  pub selected_remote_candidate_type : Option Text
  pub simulcast_layer_in_use : Option Text
  pub simulcast_layers : List Layer

-- The variables of the loop.
pub record Rollup : Type 0 where
  pub stats : PeerStats
  pub open stats use *
  pub local_id : Option Text
  pub remote_id : Option Text
  pub inbound_rtp_count : ℕ

-- `n ?? 0`
abbrev pub or_zero : Option ℕ → ℕ
or_zero none = 0
or_zero (some n) = n

-- A string that passes `if (s)`.
abbrev pub truthy : Option Text → Option Text
truthy none = none
truthy (some []) = none
truthy (some (c ∷ s)) = some (c ∷ s)

-- `${s}`
abbrev pub shown : Option Text → Text
shown none = str "undefined"
shown (some s) = s

pub is_outbound : Report → Bool
is_outbound r = r.kind === str "outbound-rtp"

pub is_inbound : Report → Bool
is_inbound r = r.kind === str "inbound-rtp"

pub is_selected_pair : Report → Bool
is_selected_pair r = r.kind === str "candidate-pair" && r.nominated

pub layer_of : Text → Report → Layer
layer_of rid r = record {
  rid = rid;
  bytes_sent = or_zero r.bytes_sent;
  packets_sent = or_zero r.packets_sent;
  frames_encoded = or_zero r.frames_encoded;
  active = ltb 0 (or_zero r.bytes_sent);
}

add_layer : Option Text → Report → PeerStats → PeerStats
add_layer none r s = s
add_layer (some rid) r s = record s {
  simulcast_layer_in_use = some rid;
  simulcast_layers = s.simulcast_layers ++ layer_of rid r ∷ [];
}

add_outbound : Report → Rollup → Rollup
unfolding add_layer
add_outbound r a =
    let s = record (a.stats) {
      bytes_sent = a.bytes_sent + or_zero r.bytes_sent;
      packets_sent = a.packets_sent + or_zero r.packets_sent;
      frames_encoded = a.frames_encoded + or_zero r.frames_encoded;
    } in
    record a { stats = add_layer (truthy r.rid) r s }

add_inbound : Report → Rollup → Rollup
add_inbound r a = record a {
  stats = record (a.stats) {
    bytes_received = a.bytes_received + or_zero r.bytes_received;
    packets_received = a.packets_received + or_zero r.packets_received;
    packets_lost = a.packets_lost + or_zero r.packets_lost;
    jitter = (a.jitter.0 + or_zero r.jitter, a.jitter.1);
    frames_decoded = a.frames_decoded + or_zero r.frames_decoded;
    frames_dropped = a.frames_dropped + or_zero r.frames_dropped;
  };
  inbound_rtp_count = suc a.inbound_rtp_count;
}

abbrev times_1000 : Option ℕ → Option ℕ
times_1000 none = none
times_1000 (some n) = some (n * 1000)

select_pair : Report → Rollup → Rollup
select_pair r a = record a {
  stats = record (a.stats) {
    current_round_trip_time_ms = times_1000 r.current_round_trip_time;
    selected_candidate_pair =
        some (shown r.local_candidate_id ++ (0x2194 ∷ shown r.remote_candidate_id));
  };
  local_id = r.local_candidate_id;
  remote_id = r.remote_candidate_id;
}

-- One round of the loop.
add_report : Report → Rollup → Rollup
add_report r a =
    if is_outbound r
    then add_outbound r a
    else if is_inbound r
    then add_inbound r a
    else if is_selected_pair r
    then select_pair r a
    else a

add_reports : List (Text × Report) → Rollup → Rollup
add_reports [] a = a
add_reports ((_, r) ∷ rs) a = add_reports rs (add_report r a)

start : Rollup
start = record {
  stats = record {
    bytes_sent = 0;
    packets_sent = 0;
    frames_encoded = 0;
    bytes_received = 0;
    packets_received = 0;
    packets_lost = 0;
    jitter = (0, 1);
    frames_decoded = 0;
    frames_dropped = 0;
    current_round_trip_time_ms = none;
    selected_candidate_pair = none;
    selected_local_candidate_type = none;
    selected_remote_candidate_type = none;
    simulcast_layer_in_use = none;
    simulcast_layers = [];
  };
  local_id = none;
  remote_id = none;
  inbound_rtp_count = 0;
}

-- `reports.get(id)?.candidateType ?? null`, when the id is truthy.
pub candidate_type_of : Dict Report → Option Text → Option Text
candidate_type_of reports id = elim (truthy id) [
  | none ↦ none
  | some k ↦ elim (lookup k reports) [ none ↦ none | some r ↦ r.candidate_type ]
]

-- What follows the loop.
finish : Dict Report → Rollup → PeerStats
finish reports a = record (a.stats) {
  jitter = if ltb 1 a.inbound_rtp_count then (a.jitter.0, a.inbound_rtp_count) else (a.jitter.0, 1);
  selected_local_candidate_type = candidate_type_of reports a.local_id;
  selected_remote_candidate_type = candidate_type_of reports a.remote_id;
}

unfoldable pub aggregate_stats : Dict Report → PeerStats
unfolding add_reports add_report add_outbound add_layer add_inbound select_pair finish start
aggregate_stats reports = finish reports (add_reports reports start)
