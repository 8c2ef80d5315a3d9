-- ===== src/Rpc/Pending.antt =====
-- How often a promise number stands among the pending requests and among the settled ones.
use ad4m_link_language_tests.Prelude.{
  Text, Dict, ℕ, ◌+◌, ◌≤◌, ◌≡◌, refl, ◌==◌, none, some, List, [], ◌∷◌, ◌++◌, map, All, arith,
  decimal, decimal_inj, lookup, insert, remove, if◌then◌else◌, text_iff,
}

abbrev pub bit : ℕ → ℕ → ℕ
bit n m = if n == m then 1 else 0

unfoldable pub times_pending : ℕ → Dict ℕ → ℕ
times_pending n [] = 0
times_pending n ((k, v) ∷ m) = bit v n + times_pending n m

unfoldable pub times_settled {ℓ} : {O : Type ℓ} → ℕ → List (ℕ × O) → ℕ
times_settled n [] = 0
times_settled n ((v, o) ∷ s) = bit v n + times_settled n s

-- Every pending entry is keyed by the digits of its promise.
abbrev pub IsKeyed : Dict ℕ → Type 0
IsKeyed = All (λ e. e.0 ≡ decimal e.1)

pub times_settled-append {ℓ} :
    {O : Type ℓ} (n : ℕ) (s t : List (ℕ × O))
    → times_settled n (s ++ t) ≡ times_settled n s + times_settled n t
unfolding times_settled
times_settled-append n [] t = omega arith
times_settled-append n ((v, o) ∷ s) t = omega (arith, times_settled-append n s t)

pub times_settled-map {ℓ} :
    {O : Type ℓ} (n : ℕ) (o : O) (m : Dict ℕ)
    → times_settled n (map (λ e. (e.1, o)) m) ≡ times_pending n m
unfolding times_settled times_pending
times_settled-map n o [] = refl
times_settled-map n o ((k, v) ∷ m) = omega (arith, times_settled-map n o m)

pub lookup-IsKeyed :
    (k : Text) (v : ℕ) (m : Dict ℕ)
    → IsKeyed m
    → lookup k m ≡ some v
    → (k ≡ decimal v) × (1 ≤ times_pending v m)
unfolding lookup times_pending
lookup-IsKeyed k v [] h e = absurd (cc)
lookup-IsKeyed k v ((j, w) ∷ m) (q, h) e = ground (arith, text_iff j k, lookup-IsKeyed k v m h)

pub times_pending_of_absent :
    (n : ℕ) (m : Dict ℕ) → IsKeyed m → lookup (decimal n) m ≡ none → times_pending n m ≡ 0
unfolding lookup times_pending
times_pending_of_absent n [] h e = refl
times_pending_of_absent n ((j, w) ∷ m) (q, h) e =
    ground (arith, text_iff j (decimal n), times_pending_of_absent n m h)

pub times_pending-insert :
    (n v : ℕ) (k : Text) (m : Dict ℕ)
    → lookup k m ≡ none
    → times_pending n (insert k v m) ≡ bit v n + times_pending n m
unfolding lookup insert times_pending
times_pending-insert n v k [] e = omega arith
times_pending-insert n v k ((j, w) ∷ m) e = ground (arith, times_pending-insert n v k m)

pub insert-IsKeyed : (v : ℕ) (m : Dict ℕ) → IsKeyed m → IsKeyed (insert (decimal v) v m)
unfolding insert
insert-IsKeyed v [] h = (refl, tt)
insert-IsKeyed v ((j, w) ∷ m) (q, h) = ground (arith, insert-IsKeyed v m h)

pub remove-IsKeyed : (k : Text) (m : Dict ℕ) → IsKeyed m → IsKeyed (remove k m)
unfolding remove
remove-IsKeyed k [] h = tt
remove-IsKeyed k ((j, w) ∷ m) (q, h) = ground (arith, remove-IsKeyed k m h)

-- Removing the key of `v` takes every entry of `v` away and no other.
pub times_pending-remove :
    (n v : ℕ) (m : Dict ℕ)
    → IsKeyed m
    → times_pending n (remove (decimal v) m) ≡ (if v == n then 0 else times_pending n m)
unfolding remove times_pending
times_pending-remove n v [] h = ground arith
times_pending-remove n v ((j, w) ∷ m) (q, h) =
    ground (arith, text_iff j (decimal v), decimal_inj w v, times_pending-remove n v m h)
