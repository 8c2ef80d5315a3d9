-- ===== src/Mcp/Frames.antt =====
-- src/mcp-client.ts: cutting the read buffer of an event stream into its frames.
use ad4m_link_language_tests.Prelude.{
  Text, ℕ, zero, suc, ◌≤◌, ◌<◌, ◌≡◌, refl, sym, ◌∙◌, none, some, inl, inr, [], ◌∷◌, ◌++◌, ◌&&◌,
  ◌==◌, arith, length, length-append, Option-cases, Bool-cases,
}
use ad4m_link_language_tests.Mcp.{find_break, take_frames, frames_of}

-- A break stays where it is when more text arrives.
find_break-append :
    (s b f r : Text) → find_break s ≡ some (f, r) → find_break (s ++ b) ≡ some (f, r ++ b)
unfolding find_break
find_break-append [] b f r h = absurd (ground (arith, h))
find_break-append (c ∷ []) b f r h = absurd (ground (arith, h))
find_break-append (c ∷ (d ∷ s)) b f r h = elim (Bool-cases (c == 10 && d == 10)) [
  | inl at ↦ ground (arith, at, h)
  | inr past ↦ elim (Option-cases (find_break (d ∷ s))) [
    | inl e ↦ absurd (ground (arith, past, h, e))
    | inr ((g, q), e) ↦ ground (arith, past, h, e, find_break-append (d ∷ s) b g q e)
  ]
]

find_break-shorter : (s f r : Text) → find_break s ≡ some (f, r) → length r < length s
unfolding find_break
find_break-shorter [] f r h = absurd (ground (arith, h))
find_break-shorter (c ∷ []) f r h = absurd (ground (arith, h))
find_break-shorter (c ∷ (d ∷ s)) f r h = elim (Bool-cases (c == 10 && d == 10)) [
  | inl at ↦ (let same : s ≡ r = ground (arith, at, h) in rw (sym same) (omega arith))
  | inr past ↦ elim (Option-cases (find_break (d ∷ s))) [
    | inl e ↦ absurd (ground (arith, past, h, e))
    | inr ((g, q), e) ↦
        (let same : q ≡ r = ground (arith, past, h, e) in
          rw (sym same) (omega (arith, find_break-shorter (d ∷ s) g q e)))
  ]
]

take_zero : (s : Text) → take_frames zero s ≡ ([], s)
unfolding take_frames
take_zero s = refl

take_none : (n : ℕ) (s : Text) → find_break s ≡ none → take_frames n s ≡ ([], s)
unfolding take_frames
take_none zero s h = refl
take_none (suc n) s h = ground (arith, h)

take_some :
    (n : ℕ) (s f r : Text)
    → find_break s ≡ some (f, r)
    → take_frames (suc n) s ≡ (f ∷ (take_frames n r).0, (take_frames n r).1)
unfolding take_frames
take_some n s f r h = ground (arith, h)

find_break-short : (s : Text) → length s ≤ 0 → find_break s ≡ none
unfolding find_break
find_break-short [] h = refl
find_break-short (c ∷ s) h = absurd (omega (arith, h))

-- What is left once the fuel is the buffer's length holds no break.
take_rest : (n : ℕ) (s : Text) → length s ≤ n → find_break ((take_frames n s).1) ≡ none
take_rest zero s h = rw (take_none zero s (find_break-short s h)) (find_break-short s h)
take_rest (suc n) s h = elim (Option-cases (find_break s)) [
  | inl e ↦ rw (take_none (suc n) s e) e
  | inr ((f, r), e) ↦
      rw (take_some n s f r e) (take_rest n r (omega (arith, h, find_break-shorter s f r e)))
]

take_rest-shorter : (n : ℕ) (s : Text) → length ((take_frames n s).1) ≤ length s
take_rest-shorter zero s = rw (take_zero s) (omega arith)
take_rest-shorter (suc n) s = elim (Option-cases (find_break s)) [
  | inl e ↦ rw (take_none (suc n) s e) (omega arith)
  | inr ((f, r), e) ↦
      rw (take_some n s f r e) (omega (arith, take_rest-shorter n r, find_break-shorter s f r e))
]

-- Fuel above the length of the buffer changes nothing.
take_enough : (n m : ℕ) (s : Text) → length s ≤ n → length s ≤ m → take_frames n s ≡ take_frames m s
take_enough zero m s h k =
    take_none zero s (find_break-short s h) ∙ sym (take_none m s (find_break-short s h))
take_enough (suc n) zero s h k =
    take_none (suc n) s (find_break-short s k) ∙ sym (take_none zero s (find_break-short s k))
take_enough (suc n) (suc m) s h k = elim (Option-cases (find_break s)) [
  | inl e ↦ take_none (suc n) s e ∙ sym (take_none (suc m) s e)
  | inr ((f, r), e) ↦
      (let less = find_break-shorter s f r e in
        let same : take_frames n r ≡ take_frames m r =
          take_enough n m r (omega (arith, h, less)) (omega (arith, k, less)) in
        rw (take_some n s f r e) (rw (take_some m s f r e) (rw same refl)))
]

take_append :
    (n : ℕ) (s b : Text)
    → length (s ++ b) ≤ n
    → take_frames n (s ++ b) ≡ (
      (take_frames n s).0 ++ (take_frames n ((take_frames n s).1 ++ b)).0,
      (take_frames n ((take_frames n s).1 ++ b)).1,
    )
take_append zero s b h =
    rw (take_none zero s (find_break-short s (omega (arith, h, length-append s b)))) refl
take_append (suc n) s b h = elim (Option-cases (find_break s)) [
  | inl e ↦ rw (take_none (suc n) s e) refl
  | inr ((f, r), e) ↦
      (let less = find_break-shorter s f r e in
        let fits : length (r ++ b) ≤ n =
          omega (arith, h, length-append r b, length-append s b, less) in
        let left = (take_frames n r).1 ++ b in
        let enough : take_frames (suc n) left ≡ take_frames n left =
          take_enough (suc n) n left
            (omega (
              arith,
              fits,
              length-append ((take_frames n r).1) b,
              length-append r b,
              take_rest-shorter n r,
            ))
            (omega (
              arith,
              fits,
              length-append ((take_frames n r).1) b,
              length-append r b,
              take_rest-shorter n r,
            )) in
        rw (take_some n s f r e) (
          rw (take_some n (s ++ b) f (r ++ b) (find_break-append s b f r e))
            (rw enough (rw (take_append n r b fits) refl))))
]

-- Text that arrives later leaves the frames that were taken off as they are, and what is cut next
-- starts from the buffer that was left.
pub frames-append :
    (s b : Text)
    → frames_of (s ++ b) ≡ (
      (frames_of s).0 ++ (frames_of ((frames_of s).1 ++ b)).0,
      (frames_of ((frames_of s).1 ++ b)).1,
    )
unfolding frames_of
frames-append s b =
    let n = length (s ++ b) in
    let left = (take_frames n s).1 ++ b in
    let fits : length s ≤ n = omega (arith, length-append s b) in
    let first : take_frames (length s) s ≡ take_frames n s =
      take_enough (length s) n s (omega arith) fits in
    let next : take_frames (length left) left ≡ take_frames n left =
      take_enough (length left) n left (omega arith) (
        omega (
          arith,
          length-append ((take_frames n s).1) b,
          length-append s b,
          take_rest-shorter n s,
        )) in
    rw first (rw next (take_append n s b (omega arith)))

-- The loop that cuts a buffer into frames ends with all of them taken: its fuel, the length of the
-- buffer, is enough, so what is left holds no blank line, and no more fuel changes the result.
pub frames_of-terminates :
    (buf : Text)
    → (find_break ((frames_of buf).1) ≡ none)
      × ((n : ℕ) → length buf ≤ n → take_frames n buf ≡ frames_of buf)
unfolding frames_of
frames_of-terminates buf = (
  take_rest (length buf) buf (omega arith),
  λ n h. take_enough n (length buf) buf h (omega arith),
)

pub frames_of-none : (s : Text) → find_break s ≡ none → frames_of s ≡ ([], s)
unfolding frames_of
frames_of-none s h = take_none (length s) s h

pub frames_of-some :
    (s f r : Text)
    → find_break s ≡ some (f, r)
    → frames_of s ≡ (f ∷ (frames_of r).0, (frames_of r).1)
unfolding frames_of
frames_of-some s f r h =
    let less = find_break-shorter s f r h in
    let more : take_frames (length s) s ≡ take_frames (suc (length s)) s =
      take_enough (length s) (suc (length s)) s (omega arith) (omega arith) in
    let same : take_frames (length s) r ≡ take_frames (length r) r =
      take_enough (length s) (length r) r (omega (arith, less)) (omega arith) in
    rw more (rw (take_some (length s) s f r h) (rw same refl))
