-- ===== src/Peer/Tones.antt =====
-- src/peer.ts: `AudioFingerprinter` and the tone methods of `WebRtcPeer`. The magnitude of a
-- frequency in the collected samples (floating point) is a parameter; magnitudes are compared.
pub mod Result
use ad4m_link_language_tests.Prelude.{
  Text, str, decimal, ℕ, zero, suc, ◌+◌, ◌≤◌, ◌<◌, ◌≡◌, refl, Bool, true, false, Option, none, some,
  List, [], ◌∷◌, ◌++◌, leb, ltb, arith, if◌then◌else◌, length, length-append, Bool-cases,
  Option-cases, inl, inr, All, ◌⊎◌,
}

pub record Tone : Type 0 where
  pub hz : ℕ
  pub magnitude : ℕ

-- The fields of a fingerprinter that change; samples are code numbers.
pub record Fingerprinter : Type 0 where
  pub buffer : List (List ℕ)
  pub total_samples : ℕ
  pub result : Option Tone
  pub stopped : Bool

unfoldable pub new : Fingerprinter
new = record { buffer = []; total_samples = 0; result = none; stopped = false }

abbrev pub min_samples : ℕ
min_samples = 24000

unfoldable pub concat : List (List ℕ) → List ℕ
concat [] = []
concat (chunk ∷ chunks) = chunk ++ concat chunks

module _ (goertzel : List ℕ → ℕ → ℕ → ℕ) where
  -- The loop over the candidate frequencies.
  pub best : List ℕ → List ℕ → Tone → Tone
  best samples [] t = t
  best samples (hz ∷ rest) t =
      let mag = goertzel samples 48000 hz in
      best samples rest (if ltb t.magnitude mag then record { hz = hz; magnitude = mag } else t)

module _ (goertzel : List ℕ → ℕ → ℕ → ℕ) (candidates : List ℕ) where
  -- `analyse`, which frees the buffer.
  analyse : Fingerprinter → Fingerprinter
  unfolding best
  analyse f = record f {
    buffer = [];
    result = some (best goertzel (concat f.buffer) candidates (record { hz = 0; magnitude = 0 }));
  }

  collect : Option Tone → List ℕ → Fingerprinter → Fingerprinter
  unfolding analyse
  collect (some t) samples f = f
  collect none samples f =
      let g = record f {
        buffer = f.buffer ++ samples ∷ [];
        total_samples = f.total_samples + length samples;
      } in
      if leb min_samples g.total_samples then analyse g else g

  -- `sink.ondata`
  unfoldable pub on_data : List ℕ → Fingerprinter → Fingerprinter
  unfolding collect
  on_data samples f = collect f.result samples f

  unfoldable pub feed : List (List ℕ) → Fingerprinter → Fingerprinter
  unfolding on_data
  feed [] f = f
  feed (samples ∷ rest) f = feed rest (on_data samples f)

unfoldable pub reset : Fingerprinter → Fingerprinter
reset f = record f { result = none; buffer = []; total_samples = 0 }

unfoldable pub stop : Fingerprinter → Fingerprinter
stop f = record f { stopped = true }

pub record DetectedTone : Type 0 where
  pub track_id : Text
  pub dominant_hz : ℕ
  pub magnitude : ℕ
  pub samples_analysed : ℕ

add_tone : Option Tone → ℕ → List DetectedTone → List DetectedTone
add_tone none samples tones = tones
add_tone (some r) samples tones =
    tones
    ++ record {
      track_id = str "track-" ++ decimal (length tones);
      dominant_hz = r.hz;
      magnitude = r.magnitude;
      samples_analysed = samples;
    }
      ∷ []

detect : List DetectedTone → List Fingerprinter → List DetectedTone
unfolding add_tone
detect tones [] = tones
detect tones (f ∷ fs) = detect (add_tone f.result f.total_samples tones) fs

unfoldable pub get_detected_tones : List Fingerprinter → List DetectedTone
unfolding detect
get_detected_tones fs = detect [] fs

-- `resetFingerprinting`
unfoldable pub reset_fingerprinting : List Fingerprinter → List Fingerprinter
unfolding reset
reset_fingerprinting [] = []
reset_fingerprinting (f ∷ fs) = reset f ∷ reset_fingerprinting fs
