-- ===== src/Peer/Tests.antt =====
-- An answer with one video section, a stats map with two layers, and three frames of samples.
use ad4m_link_language_tests.Prelude.{
  Text, Dict, str, ℕ, ◌≤◌, ◌≡◌, ◌⊎◌, refl, true, false, none, some, List, [], ◌∷◌, ◌++◌, length,
  arith, ◌===◌, includes, starts_with, ltb, if◌then◌else◌, zero, suc, length-append,
}
use ad4m_link_language_tests.Peer.Lines.{join, split, crlf}
use ad4m_link_language_tests.Peer.Sdp.{
  munge_answer_for_simulcast, NoTarget, Insertion, munge_inserts, munge_idempotent,
}
use ad4m_link_language_tests.Peer.Stats.{Report, aggregate_stats, is_outbound, is_inbound}
use ad4m_link_language_tests.Peer.Stats.Totals.{total, number_of, aggregate_totals}
use ad4m_link_language_tests.Peer.Stats.Pair.{
  last_nominated, name_of, milliseconds_of, type_of, aggregate_pair,
}
use ad4m_link_language_tests.Peer.Tones.{Tone, concat, feed, new, min_samples}
use ad4m_link_language_tests.Peer.Tones.Result.{IsLoudest, IsTone, feed_result}

abbrev rids : List Text
rids = str "h" ∷ str "l" ∷ []

abbrev sdp : Text
sdp = join crlf (str "v=0" ∷ str "m=video 9" ∷ str "a=recvonly" ∷ str "a=mid:0" ∷ [])

munge-run :
    munge_answer_for_simulcast sdp rids
    ≡ join crlf (
        str "v=0"
        ∷ str "m=video 9"
        ∷ str "a=recvonly"
        ∷ str "a=rid:h recv"
        ∷ str "a=rid:l recv"
        ∷ str "a=simulcast:recv h;l"
        ∷ str "a=mid:0"
        ∷ [])
unfolding munge_answer_for_simulcast includes starts_with ◌===◌ split join
munge-run = refl

munge_inserts_example :
    (out : List Text) × (munge_answer_for_simulcast sdp rids ≡ join crlf out)
    × ((NoTarget none (split sdp) × (out ≡ split sdp)) ⊎ Insertion rids none (split sdp) out)
unfolding includes starts_with join
munge_inserts_example = munge_inserts sdp rids refl (λ p. ground (arith, p))

munge_idempotent_example :
    munge_answer_for_simulcast (munge_answer_for_simulcast sdp rids) rids
    ≡ munge_answer_for_simulcast sdp rids
munge_idempotent_example = munge_idempotent sdp rids

abbrev blank : Report
blank = record {
  kind = [];
  bytes_sent = none;
  packets_sent = none;
  frames_encoded = none;
  rid = none;
  bytes_received = none;
  packets_received = none;
  packets_lost = none;
  jitter = none;
  frames_decoded = none;
  frames_dropped = none;
  nominated = false;
  current_round_trip_time = none;
  local_candidate_id = none;
  remote_candidate_id = none;
  candidate_type = none;
}

abbrev reports : Dict Report
reports =
    (
      str "o1",
      record blank { kind = str "outbound-rtp"; bytes_sent = some 10; rid = some (str "h") },
    )
    ∷ (
      str "o2",
      record blank { kind = str "outbound-rtp"; bytes_sent = some 4; rid = some (str "l") },
    )
    ∷ (
      str "i1",
      record blank { kind = str "inbound-rtp"; bytes_received = some 5; jitter = some 3 },
    )
    ∷ (
      str "cp",
      record blank {
        kind = str "candidate-pair";
        nominated = true;
        current_round_trip_time = some 2;
        local_candidate_id = some (str "c1");
      },
    )
    ∷ (str "c1", record blank { kind = str "local-candidate"; candidate_type = some (str "host") })
    ∷ []

aggregate_totals_example :
    let s = aggregate_stats reports in
    (s.bytes_sent ≡ total is_outbound (λ r. r.bytes_sent) reports)
    × (s.packets_sent ≡ total is_outbound (λ r. r.packets_sent) reports)
    × (s.frames_encoded ≡ total is_outbound (λ r. r.frames_encoded) reports)
    × (s.bytes_received ≡ total is_inbound (λ r. r.bytes_received) reports)
    × (s.packets_received ≡ total is_inbound (λ r. r.packets_received) reports)
    × (s.packets_lost ≡ total is_inbound (λ r. r.packets_lost) reports)
    × (s.frames_decoded ≡ total is_inbound (λ r. r.frames_decoded) reports)
    × (s.frames_dropped ≡ total is_inbound (λ r. r.frames_dropped) reports)
    × (s.jitter.0 ≡ total is_inbound (λ r. r.jitter) reports)
    × (s.jitter.1
        ≡ (if ltb 1 (number_of is_inbound reports) then number_of is_inbound reports else 1))
aggregate_totals_example = aggregate_totals reports

aggregate_pair_example :
    let s = aggregate_stats reports in
    let p = last_nominated none reports in
    (s.selected_candidate_pair ≡ name_of p)
    × (s.current_round_trip_time_ms ≡ milliseconds_of p)
    × (s.selected_local_candidate_type ≡ type_of (λ r. r.local_candidate_id) reports p)
    × (s.selected_remote_candidate_type ≡ type_of (λ r. r.remote_candidate_id) reports p)
aggregate_pair_example = aggregate_pair reports

-- The magnitude of a frequency is the frequency itself; the second frame is long enough.
abbrev loudness : List ℕ → ℕ → ℕ → ℕ
loudness samples rate hz = hz

abbrev candidates : List ℕ
candidates = 440 ∷ 880 ∷ 660 ∷ []

-- `n` samples.
silence : ℕ → List ℕ
silence zero = []
silence (suc n) = 0 ∷ silence n

length-silence : (n : ℕ) → length (silence n) ≡ n
unfolding silence
length-silence zero = refl
length-silence (suc n) = omega (arith, length-silence n)

half_second : List ℕ
half_second = silence 24000

enough_samples : min_samples ≤ length (concat (half_second ∷ []))
unfolding half_second concat
enough_samples = omega (arith, length-append (silence 24000) [], length-silence 24000)

feed_result_example :
    let samples = concat ([] ++ half_second ∷ []) in
    ((feed loudness candidates [] new).result ≡ none)
    × ((t : Tone) × ((feed loudness candidates ([] ++ (half_second ∷ [])) new).result ≡ some t)
        × IsLoudest loudness samples candidates t
        × ((t ≡ record { hz = 0; magnitude = 0 }) ⊎ IsTone loudness samples candidates t))
unfolding concat
feed_result_example = feed_result loudness candidates [] half_second [] (omega arith) enough_samples
