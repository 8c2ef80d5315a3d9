-- ===== src/Peer/Stats/Totals.antt =====
-- What `aggregateStats` reports, told without its loop.
use ad4m_link_language_tests.Prelude.{
  Text, Dict, str, ℕ, ◌+◌, ◌≤◌, ◌≡◌, refl, sym, ◌∙◌, Bool, true, false, Option, none, some, List,
  [], ◌∷◌, ◌++◌, ◌===◌, ltb, arith, if◌then◌else◌, Bool-cases, inl, inr, text_iff, append_assoc,
  append-nil,
}
use ad4m_link_language_tests.Peer.Stats.{
  Report, Layer, PeerStats, Rollup, or_zero, truthy, is_outbound, is_inbound, is_selected_pair,
  layer_of, add_layer, add_report, add_reports, select_pair, start, add_outbound, add_inbound,
  aggregate_stats,
}

-- The sum of one counter over the reports of one kind.
pub total : (Report → Bool) → (Report → Option ℕ) → Dict Report → ℕ
total p f [] = 0
total p f ((_, r) ∷ rs) = (if p r then or_zero (f r) else 0) + total p f rs

pub number_of : (Report → Bool) → Dict Report → ℕ
number_of p [] = 0
number_of p ((_, r) ∷ rs) = (if p r then 1 else 0) + number_of p rs

outbound_not_inbound : (r : Report) → is_outbound r ≡ true → is_inbound r ≡ false
unfolding is_outbound is_inbound
outbound_not_inbound r h = rw ((text_iff r.kind (str "outbound-rtp")).0 h) (unfold ◌===◌ in refl)

pub outbound_not_pair : (r : Report) → is_outbound r ≡ true → is_selected_pair r ≡ false
unfolding is_outbound is_selected_pair
outbound_not_pair r h = rw ((text_iff r.kind (str "outbound-rtp")).0 h) (unfold ◌===◌ in refl)

pub inbound_not_pair : (r : Report) → is_inbound r ≡ true → is_selected_pair r ≡ false
unfolding is_inbound is_selected_pair
inbound_not_pair r h = rw ((text_iff r.kind (str "inbound-rtp")).0 h) (unfold ◌===◌ in refl)

-- What a rollup `b` has more than `a`, after the reports `rs`.
record Grows (rs : Dict Report) (a b : Rollup) : Type 0 where
  bytes_sent : b.bytes_sent ≡ a.bytes_sent + total is_outbound (λ r. r.bytes_sent) rs
  packets_sent : b.packets_sent ≡ a.packets_sent + total is_outbound (λ r. r.packets_sent) rs
  frames_encoded :
      b.frames_encoded ≡ a.frames_encoded + total is_outbound (λ r. r.frames_encoded) rs
  bytes_received : b.bytes_received ≡ a.bytes_received + total is_inbound (λ r. r.bytes_received) rs
  packets_received :
      b.packets_received ≡ a.packets_received + total is_inbound (λ r. r.packets_received) rs
  packets_lost : b.packets_lost ≡ a.packets_lost + total is_inbound (λ r. r.packets_lost) rs
  jitter : b.jitter.0 ≡ a.jitter.0 + total is_inbound (λ r. r.jitter) rs
  frames_decoded : b.frames_decoded ≡ a.frames_decoded + total is_inbound (λ r. r.frames_decoded) rs
  frames_dropped : b.frames_dropped ≡ a.frames_dropped + total is_inbound (λ r. r.frames_dropped) rs
  inbound : b.inbound_rtp_count ≡ a.inbound_rtp_count + number_of is_inbound rs

add_report-Grows : (k : Text) (r : Report) (a : Rollup) → Grows ((k, r) ∷ []) a (add_report r a)
add_report-Grows k r a = elim (Bool-cases (is_outbound r)) [
  | inl out ↦
      unfold aggregate_stats total number_of in ground (arith, out, outbound_not_inbound r out)
  | inr not_out ↦ unfold aggregate_stats total number_of in ground (arith, not_out)
]

add_reports-Grows : (rs : Dict Report) (a : Rollup) → Grows rs a (add_reports rs a)
unfolding add_reports total number_of
add_reports-Grows [] a = omega arith
add_reports-Grows ((k, r) ∷ rs) a =
    let one = add_report-Grows k r a in
    let more = add_reports-Grows rs (add_report r a) in omega arith

-- Each outbound counter of the snapshot is the sum over the outbound reports, each inbound counter
-- the sum over the inbound reports, and the jitter is the sum of the inbound jitters over the
-- number of inbound reports (over 1 when there is none).
pub aggregate_totals :
    (reports : Dict Report)
    → let s = aggregate_stats reports in
      (s.bytes_sent ≡ total is_outbound (λ r. r.bytes_sent) reports)
      × (s.packets_sent ≡ total is_outbound (λ r. r.packets_sent) reports)
      × (s.frames_encoded ≡ total is_outbound (λ r. r.frames_encoded) reports)
      × (s.bytes_received ≡ total is_inbound (λ r. r.bytes_received) reports)
      × (s.packets_received ≡ total is_inbound (λ r. r.packets_received) reports)
      × (s.packets_lost ≡ total is_inbound (λ r. r.packets_lost) reports)
      × (s.frames_decoded ≡ total is_inbound (λ r. r.frames_decoded) reports)
      × (s.frames_dropped ≡ total is_inbound (λ r. r.frames_dropped) reports)
      × (s.jitter.0 ≡ total is_inbound (λ r. r.jitter) reports)
      × (s.jitter.1
          ≡ (if ltb 1 (number_of is_inbound reports) then number_of is_inbound reports else 1))
unfolding aggregate_stats
aggregate_totals reports =
    let g = add_reports-Grows reports start in
    (
      omega arith,
      omega arith,
      omega arith,
      omega arith,
      omega arith,
      omega arith,
      omega arith,
      omega arith,
      ground (arith, g.jitter),
      ground (arith, g.inbound),
    )

-- The layers of the outbound reports that carry a rid, in order.
pub layers : Dict Report → List Layer
layers [] = []
layers ((_, r) ∷ rs) =
    if is_outbound r
    then elim (truthy r.rid) [ none ↦ layers rs | some rid ↦ layer_of rid r ∷ layers rs ]
    else layers rs

pub total_layer_bytes : List Layer → ℕ
total_layer_bytes [] = 0
total_layer_bytes (l ∷ ls) = l.bytes_sent + total_layer_bytes ls

add_layer-layers :
    (rid : Option Text) (r : Report) (s : PeerStats) (rest : List Layer)
    → (add_layer rid r s).simulcast_layers ++ rest
      ≡ s.simulcast_layers ++ elim rid [ none ↦ rest | some k ↦ layer_of k r ∷ rest ]
unfolding add_layer
add_layer-layers none r s rest = refl
add_layer-layers (some k) r s rest = append_assoc s.simulcast_layers (layer_of k r ∷ []) rest

add_report-layers :
    (k : Text) (r : Report) (a : Rollup) (rs : Dict Report)
    → (add_report r a).simulcast_layers ++ layers rs ≡ a.simulcast_layers ++ layers ((k, r) ∷ rs)
unfolding add_report add_outbound add_inbound select_pair layers
add_report-layers k r a rs = elim (Bool-cases (is_outbound r)) [
  | inl out ↦ rw out (add_layer-layers (truthy r.rid) r _ (layers rs))
  | inr not_out ↦ rw not_out (ground arith)
]

add_reports-layers :
    (rs : Dict Report) (a : Rollup)
    → (add_reports rs a).simulcast_layers ≡ a.simulcast_layers ++ layers rs
unfolding add_reports layers
add_reports-layers [] a = sym (append-nil a.simulcast_layers)
add_reports-layers ((k, r) ∷ rs) a =
    add_reports-layers rs (add_report r a) ∙ add_report-layers k r a rs

layers_le :
    (rs : Dict Report) → total_layer_bytes (layers rs) ≤ total is_outbound (λ r. r.bytes_sent) rs
unfolding layers total total_layer_bytes layer_of
layers_le [] = omega arith
layers_le ((k, r) ∷ rs) = ground (arith, layers_le rs)

-- The simulcast layers are those of the outbound reports with a rid, in the order of the reports,
-- a layer is active exactly if it sent bytes, and together they sent no more than the peer did.
pub aggregate_layers :
    (reports : Dict Report)
    → let s = aggregate_stats reports in
      (s.simulcast_layers ≡ layers reports) × (total_layer_bytes s.simulcast_layers ≤ s.bytes_sent)
unfolding aggregate_stats
aggregate_layers reports =
    let same = add_reports-layers reports start in
    let sent = (add_reports-Grows reports start).bytes_sent in
    (same, rw same (rw sent (omega (arith, layers_le reports))))
