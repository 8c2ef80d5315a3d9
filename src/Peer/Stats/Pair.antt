-- ===== src/Peer/Stats/Pair.antt =====
-- src/peer.ts: the candidate pair that `aggregateStats` reports.
use ad4m_link_language_tests.Prelude.{
  Text, Dict, ℕ, ◌≡◌, refl, ◌∙◌, ap, Option, none, some, [], ◌∷◌, ◌++◌, ◌*◌, ◌&&◌, ◌===◌, str,
  lookup, arith, if◌then◌else◌, Bool-cases, inl, inr,
}
use ad4m_link_language_tests.Peer.Stats.{
  Report, PeerStats, Rollup, truthy, shown, is_outbound, is_selected_pair, add_layer, add_report,
  add_reports, select_pair, start, add_outbound, add_inbound, times_1000, candidate_type_of,
  aggregate_stats,
}
use ad4m_link_language_tests.Peer.Stats.Totals.{outbound_not_pair, inbound_not_pair}

-- The report that the loop selects last.
last_pair : Option Report → Dict Report → Option Report
last_pair p [] = p
last_pair p ((_, r) ∷ rs) = last_pair (if is_selected_pair r then some r else p) rs

pair_name : Option Report → Option Text
pair_name none = none
pair_name (some r) = some (shown r.local_candidate_id ++ (0x2194 ∷ shown r.remote_candidate_id))

pair_rtt : Option Report → Option ℕ
pair_rtt none = none
pair_rtt (some r) = times_1000 r.current_round_trip_time

pair_local : Option Report → Option Text
pair_local none = none
pair_local (some r) = r.local_candidate_id

pair_remote : Option Report → Option Text
pair_remote none = none
pair_remote (some r) = r.remote_candidate_id

record Selects (p : Option Report) (a : Rollup) : Type 0 where
  name : a.selected_candidate_pair ≡ pair_name p
  rtt : a.current_round_trip_time_ms ≡ pair_rtt p
  local : a.local_id ≡ pair_local p
  remote : a.remote_id ≡ pair_remote p

add_layer-selected :
    (rid : Option Text) (r : Report) (s : PeerStats)
    → ((add_layer rid r s).selected_candidate_pair ≡ s.selected_candidate_pair)
      × ((add_layer rid r s).current_round_trip_time_ms ≡ s.current_round_trip_time_ms)
unfolding add_layer
add_layer-selected none r s = (refl, refl)
add_layer-selected (some k) r s = (refl, refl)

add_report-Selects :
    (p : Option Report) (r : Report) (a : Rollup)
    → Selects p a
    → Selects (if is_selected_pair r then some r else p) (add_report r a)
unfolding add_report add_inbound select_pair pair_name pair_rtt pair_local pair_remote
add_report-Selects p r a h = elim (Bool-cases (is_outbound r)) [
  | inl out ↦
      rw (out, outbound_not_pair r out)
        (unfold add_outbound in
          let kept = add_layer-selected (truthy r.rid) r _ in
          record {
            name = kept.0 ∙ h.name;
            rtt = kept.1 ∙ h.rtt;
            local = h.local;
            remote = h.remote;
          })
  | inr not_out ↦ rw not_out (ground (arith, inbound_not_pair r))
]

add_reports-Selects :
    (p : Option Report) (rs : Dict Report) (a : Rollup)
    → Selects p a
    → Selects (last_pair p rs) (add_reports rs a)
unfolding add_reports last_pair
add_reports-Selects p [] a h = h
add_reports-Selects p ((k, r) ∷ rs) a h =
    add_reports-Selects (if is_selected_pair r then some r else p) rs (add_report r a)
      (add_report-Selects p r a h)

-- The last candidate pair that is nominated.
pub last_nominated : Option Report → Dict Report → Option Report
last_nominated p [] = p
last_nominated p ((_, r) ∷ rs) =
    let found = if r.kind === str "candidate-pair" && r.nominated then some r else p in
    last_nominated found rs

last_pair-last_nominated :
    (rs : Dict Report) (p : Option Report) → last_pair p rs ≡ last_nominated p rs
unfolding last_pair last_nominated is_selected_pair
last_pair-last_nominated [] p = refl
last_pair-last_nominated ((_, r) ∷ rs) p =
    let found = if r.kind === str "candidate-pair" && r.nominated then some r else p in
    last_pair-last_nominated rs found

pub id_text : Option Text → Text
id_text none = str "undefined"
id_text (some id) = id

-- The two candidate ids with an arrow between them.
pub name_of : Option Report → Option Text
unfolding id_text
name_of none = none
name_of (some r) = some (id_text r.local_candidate_id ++ (0x2194 ∷ id_text r.remote_candidate_id))

pair_name-name_of : (p : Option Report) → pair_name p ≡ name_of p
unfolding pair_name name_of id_text
pair_name-name_of none = refl
pair_name-name_of (some r) =
    rw (shown-id_text r.local_candidate_id, shown-id_text r.remote_candidate_id) refl
  where
    shown-id_text : (id : Option Text) → shown id ≡ id_text id
    shown-id_text none = refl
    shown-id_text (some id) = refl

-- A time of `n` seconds is `n * 1000` milliseconds.
pub milliseconds : Option ℕ → Option ℕ
milliseconds none = none
milliseconds (some n) = some (n * 1000)

pub milliseconds_of : Option Report → Option ℕ
unfolding milliseconds
milliseconds_of none = none
milliseconds_of (some r) = milliseconds r.current_round_trip_time

pair_rtt-milliseconds_of : (p : Option Report) → pair_rtt p ≡ milliseconds_of p
unfolding pair_rtt milliseconds_of milliseconds
pair_rtt-milliseconds_of none = refl
pair_rtt-milliseconds_of (some r) = same r.current_round_trip_time
  where
    same : (n : Option ℕ) → times_1000 n ≡ milliseconds n
    same none = refl
    same (some n) = refl

-- The candidate type of the report that stands under this id.
pub type_under : Text → Dict Report → Option Text
type_under id [] = none
type_under id ((k, r) ∷ rs) =
    let rest = type_under id rs in if k === id then r.candidate_type else rest

-- Of an absent or empty id, none.
pub type_at : Dict Report → Option Text → Option Text
unfolding type_under
type_at reports none = none
type_at reports (some []) = none
type_at reports (some (c ∷ id)) = type_under (c ∷ id) reports

found_type-type_under :
    (id : Text) (rs : Dict Report)
    → elim (lookup id rs) as (λ _. Option Text) [ none ↦ none | some r ↦ r.candidate_type ]
      ≡ type_under id rs
unfolding lookup type_under
found_type-type_under id [] = refl
found_type-type_under id ((k, r) ∷ rs) = elim (Bool-cases (k === id)) [
  | inl here ↦ rw here refl
  | inr away ↦ rw away (found_type-type_under id rs)
]

candidate_type_of-type_at :
    (reports : Dict Report) (id : Option Text) → candidate_type_of reports id ≡ type_at reports id
unfolding candidate_type_of type_at
candidate_type_of-type_at reports none = refl
candidate_type_of-type_at reports (some []) = refl
candidate_type_of-type_at reports (some (c ∷ id)) = found_type-type_under (c ∷ id) reports

-- The type of one of the candidates of a pair.
pub type_of : (Report → Option Text) → Dict Report → Option Report → Option Text
unfolding type_at
type_of id reports none = none
type_of id reports (some r) = type_at reports (id r)

types-type_of :
    (reports : Dict Report) (p : Option Report)
    → (candidate_type_of reports (pair_local p) ≡ type_of (λ r. r.local_candidate_id) reports p)
      × (candidate_type_of reports (pair_remote p) ≡ type_of (λ r. r.remote_candidate_id) reports p)
unfolding pair_local pair_remote type_of
types-type_of reports none =
    (candidate_type_of-type_at reports none, candidate_type_of-type_at reports none)
types-type_of reports (some r) = (
  candidate_type_of-type_at reports r.local_candidate_id,
  candidate_type_of-type_at reports r.remote_candidate_id,
)

-- The snapshot tells of the last nominated candidate pair: its name, its round-trip time in
-- milliseconds, and the types of its two candidates as they stand in the reports; of none if no
-- pair is nominated.
pub aggregate_pair :
    (reports : Dict Report)
    → let s = aggregate_stats reports in
      let p = last_nominated none reports in
      (s.selected_candidate_pair ≡ name_of p)
      × (s.current_round_trip_time_ms ≡ milliseconds_of p)
      × (s.selected_local_candidate_type ≡ type_of (λ r. r.local_candidate_id) reports p)
      × (s.selected_remote_candidate_type ≡ type_of (λ r. r.remote_candidate_id) reports p)
unfolding aggregate_stats pair_name pair_rtt pair_local pair_remote
aggregate_pair reports =
    let h =
      add_reports-Selects none reports start
        (record { name = refl; rtt = refl; local = refl; remote = refl }) in
    let p = last_pair none reports in
    let (local, remote) = types-type_of reports p in
    rw (← last_pair-last_nominated reports none) (
      h.name ∙ pair_name-name_of p,
      h.rtt ∙ pair_rtt-milliseconds_of p,
      ap (candidate_type_of reports) h.local ∙ local,
      ap (candidate_type_of reports) h.remote ∙ remote,
    )
