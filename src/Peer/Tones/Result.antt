-- ===== src/Peer/Tones/Result.antt =====
-- When a fingerprinter resolves, and to which tone.
use ad4m_link_language_tests.Prelude.{
  ℕ, ◌+◌, ◌≤◌, ◌<◌, ◌≡◌, refl, sym, ap, ◌∙◌, none, some, List, [], ◌∷◌, ◌++◌, ltb, arith,
  if◌then◌else◌, length, length-append, append-nil, append_assoc, All, ◌⊎◌, inl, inr, Bool-cases,
  any, ◌==◌, true,
}
use ad4m_link_language_tests.Peer.Tones.{
  Tone, Fingerprinter, new, min_samples, concat, best, on_data, feed,
}

concat-append : (xs ys : List (List ℕ)) → concat (xs ++ ys) ≡ concat xs ++ concat ys
unfolding concat
concat-append [] ys = refl
concat-append (x ∷ xs) ys = rw (concat-append xs ys) (sym (append_assoc x (concat xs) (concat ys)))

-- No candidate is louder in these samples.
abbrev pub IsLoudest : (List ℕ → ℕ → ℕ → ℕ) → List ℕ → List ℕ → Tone → Type 0
IsLoudest goertzel samples candidates t =
    All (λ hz. goertzel samples 48000 hz ≤ t.magnitude) candidates

best_grows :
    (goertzel : List ℕ → ℕ → ℕ → ℕ) (samples candidates : List ℕ) (t : Tone)
    → t.magnitude ≤ (best goertzel samples candidates t).magnitude
unfolding best
best_grows goertzel samples [] t = omega arith
best_grows goertzel samples (hz ∷ rest) t =
    let m = goertzel samples 48000 hz in
    let next : Tone = if ltb t.magnitude m then record { hz = hz; magnitude = m } else t in
    let up : t.magnitude ≤ next.magnitude = ground arith in
    omega (arith, best_grows goertzel samples rest next)

best-IsLoudest :
    (goertzel : List ℕ → ℕ → ℕ → ℕ) (samples candidates : List ℕ) (t : Tone)
    → IsLoudest goertzel samples candidates (best goertzel samples candidates t)
unfolding best
best-IsLoudest goertzel samples [] t = tt
best-IsLoudest goertzel samples (hz ∷ rest) t =
    let m = goertzel samples 48000 hz in
    let next : Tone = if ltb t.magnitude m then record { hz = hz; magnitude = m } else t in
    let up : m ≤ next.magnitude = ground arith in
    (
      omega (arith, best_grows goertzel samples rest next),
      best-IsLoudest goertzel samples rest next,
    )

-- A tone of one of these frequencies, with the magnitude that the frequency has in the samples.
abbrev pub IsTone : (List ℕ → ℕ → ℕ → ℕ) → List ℕ → List ℕ → Tone → Type 0
IsTone goertzel samples candidates t =
    (any (λ hz. hz == t.hz) candidates ≡ true) × (t.magnitude ≡ goertzel samples 48000 t.hz)

louder_real :
    (goertzel : List ℕ → ℕ → ℕ → ℕ) (samples rest : List ℕ) (hz : ℕ) (t b : Tone)
    → let m = goertzel samples 48000 hz in
      b ≡ (if ltb t.magnitude m then record { hz = hz; magnitude = m } else t)
      → (b ≡ t) ⊎ IsTone goertzel samples (hz ∷ rest) b
louder_real goertzel samples rest hz t b e =
    elim (Bool-cases (ltb t.magnitude (goertzel samples 48000 hz))) [
      | inr quiet ↦ inl (rw quiet at e)
      | inl louder ↦ let e' = rw louder at e in inr (rw e' (ground arith, refl))
    ]

best_real :
    (goertzel : List ℕ → ℕ → ℕ → ℕ) (samples candidates : List ℕ) (t : Tone)
    → let b = best goertzel samples candidates t in (b ≡ t) ⊎ IsTone goertzel samples candidates b
unfolding best
best_real goertzel samples [] t = inl refl
best_real goertzel samples (hz ∷ rest) t =
    let m = goertzel samples 48000 hz in
    let next : Tone = if ltb t.magnitude m then record { hz = hz; magnitude = m } else t in
    elim (best_real goertzel samples rest next) [
      | inl same ↦ louder_real goertzel samples rest hz t (best goertzel samples rest next) same
      | inr (among, real) ↦ inr (ground (arith, among), real)
    ]

module _ (goertzel : List ℕ → ℕ → ℕ → ℕ) (candidates : List ℕ) where
  abbrev feed_new : List (List ℕ) → Fingerprinter → Fingerprinter
  feed_new = feed goertzel candidates

  -- A fingerprinter that has collected `chunks` and not resolved yet.
  record Collecting (chunks : List (List ℕ)) (f : Fingerprinter) : Type 0 where
    held : f.buffer ≡ chunks
    counted : f.total_samples ≡ length (concat chunks)
    open_yet : f.result ≡ none

  length-concat_snoc :
      (chunks : List (List ℕ)) (c : List ℕ)
      → length (concat (chunks ++ c ∷ [])) ≡ length (concat chunks) + length c
  length-concat_snoc chunks c =
      rw (concat-append chunks (c ∷ []))
        (unfold concat in rw (append-nil c) (length-append (concat chunks) c))

  on_data_short :
      (chunks : List (List ℕ)) (c : List ℕ) (f : Fingerprinter)
      → Collecting chunks f
      → length (concat (chunks ++ c ∷ [])) < min_samples
      → Collecting (chunks ++ c ∷ []) (on_data goertzel candidates c f)
  unfolding on_data
  on_data_short chunks c f h short =
      let grown = length-concat_snoc chunks c in
      ground (arith, h.open_yet, h.counted, h.held, grown)

  on_data_enough :
      (chunks : List (List ℕ)) (c : List ℕ) (f : Fingerprinter)
      → Collecting chunks f
      → min_samples ≤ length (concat (chunks ++ c ∷ []))
      → ((on_data goertzel candidates c f).result
          ≡ some (
              best goertzel
                (concat (chunks ++ c ∷ []))
                candidates
                (record { hz = 0; magnitude = 0 })))
        × ((on_data goertzel candidates c f).buffer ≡ [])
  unfolding on_data
  on_data_enough chunks c f h enough =
      let grown = length-concat_snoc chunks c in
      ground (arith, h.open_yet, h.counted, h.held, grown)

  feed_resolved :
      (rest : List (List ℕ)) (f : Fingerprinter) (t : Tone)
      → f.result ≡ some t
      → feed goertzel candidates rest f ≡ f
  unfolding feed
  feed_resolved [] f t h = refl
  feed_resolved (c ∷ rest) f t h =
      let same : on_data goertzel candidates c f ≡ f = unfold on_data in rw h refl in
      rw same (feed_resolved rest f t h)

  feed-Collecting :
      (before rest : List (List ℕ)) (f : Fingerprinter)
      → Collecting before f
      → length (concat (before ++ rest)) < min_samples
      → Collecting (before ++ rest) (feed goertzel candidates rest f)
  unfolding feed
  feed-Collecting before [] f h short = rw (append-nil before) h
  feed-Collecting before (c ∷ rest) f h short =
      let regroup = append_assoc before (c ∷ []) rest in
      let total = length-append (concat (before ++ c ∷ [])) (concat rest) in
      let whole = ap length (ap concat regroup) in
      let parts = ap length (concat-append (before ++ c ∷ []) rest) in
      rw (← regroup) (
        feed-Collecting (before ++ c ∷ []) rest (on_data goertzel candidates c f)
          (on_data_short before c f h (omega arith)) (omega arith))

  feed-append :
      (xs ys : List (List ℕ)) (f : Fingerprinter)
      → feed goertzel candidates (xs ++ ys) f
        ≡ feed goertzel candidates ys (feed goertzel candidates xs f)
  unfolding feed
  feed-append [] ys f = refl
  feed-append (x ∷ xs) ys f = feed-append xs ys (on_data goertzel candidates x f)

  new-Collecting : Collecting [] new
  unfolding new concat
  new-Collecting = record { held = refl; counted = refl; open_yet = refl }

  feed_after :
      (c : List ℕ) (rest : List (List ℕ)) (f : Fingerprinter) (t : Tone)
      → (on_data goertzel candidates c f).result ≡ some t
      → (feed goertzel candidates (c ∷ rest) f).result ≡ some t
  unfolding feed
  feed_after c rest f t decided =
      ap (λ (g : Fingerprinter). g.result)
        (feed_resolved rest (on_data goertzel candidates c f) t decided)
      ∙ decided

  -- A new fingerprinter has no result while it has fewer than 24,000 samples; the frame that brings
  -- it there decides the result, and no later frame changes it. Over exactly the samples received so
  -- far, no candidate is louder than the result, and the result is one of the candidates with its
  -- own magnitude, or 0 Hz with magnitude 0.
  pub feed_result :
      (before : List (List ℕ)) (c : List ℕ) (rest : List (List ℕ))
      → length (concat before) < min_samples
      → min_samples ≤ length (concat (before ++ c ∷ []))
      → let samples = concat (before ++ c ∷ []) in
        ((feed goertzel candidates before new).result ≡ none)
        × ((t : Tone) × ((feed goertzel candidates (before ++ (c ∷ rest)) new).result ≡ some t)
            × IsLoudest goertzel samples candidates t
            × ((t ≡ record { hz = 0; magnitude = 0 }) ⊎ IsTone goertzel samples candidates t))
  feed_result before c rest short enough =
      let samples = concat (before ++ c ∷ []) in
      let none_yet : Tone = record { hz = 0; magnitude = 0 } in
      let waiting = feed-Collecting [] before new new-Collecting short in
      let (decided, _) =
        on_data_enough before c (feed goertzel candidates before new) waiting enough in
      (
        waiting.open_yet,
        (
          best goertzel samples candidates none_yet,
          ap (λ (f : Fingerprinter). f.result) (feed-append before (c ∷ rest) new)
              ∙ feed_after c rest (feed goertzel candidates before new) _ decided,
          best-IsLoudest goertzel samples candidates none_yet,
          best_real goertzel samples candidates none_yet,
        ),
      )
