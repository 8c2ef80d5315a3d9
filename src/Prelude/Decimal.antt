-- ===== src/Prelude/Decimal.antt =====
-- `String(n)` and `${n}` of a whole number: its decimal digits, with no leading zero.
use mathlib.Core.WellFounded.{Acc, WellFounded}
use mathlib.Core.Logic.{dite, dif_pos, dif_neg}
use native.Mathlib.Decide.{dec_lt}
use native.Mathlib.Bridge.{le_prop}
use Prim.Native.Nat.{ℕ, zero, suc, ◌+◌, ◌-◌, ◌*◌, ◌/◌, ◌%◌, ◌<◌}
use mathlib.Core.Path.{◌≡◌, refl, sym, ap, ◌∙◌}
use mathlib.Core.List.{[], ◌∷◌, ◌++◌}
use native.Mathlib.Omega.{arith}
use ad4m_link_language_tests.Prelude.Strings.{Text, str}

Acc-below : (k n : ℕ) → n < k → Acc ◌<◌ n
Acc-below zero n h = elim h [ ]
Acc-below (suc k) n h = Acc.intro n (λ m hm. Acc-below k m (omega arith))

lt_wf : WellFounded ◌<◌
unfolding Acc-below
lt_wf = record { apply = λ n. Acc-below (suc n) n (omega arith) }

decimal_acc : (n : ℕ) → Acc ◌<◌ n → Text
decimal_acc n (Acc.intro _ smaller) =
    dite (dec_lt n 10) (λ _. (b'0' + n) ∷ [])
      (λ h. decimal_acc (n / 10) (smaller (n / 10) (omega arith)) ++ (b'0' + n % 10) ∷ [])

unfoldable pub decimal : ℕ → Text
unfolding decimal_acc lt_wf dec_lt
decimal n = decimal_acc n (lt_wf.apply n)

decimal_runs : decimal 1207 ≡ str "1207"
unfolding decimal
decimal_runs = refl

-- The value of a digit string, read from the left.
value_from : ℕ → Text → ℕ
value_from acc [] = acc
value_from acc (c ∷ s) = value_from (acc * 10 + (c - b'0')) s

value_from-append :
    (acc : ℕ) (s : Text) (c : ℕ) → value_from acc (s ++ c ∷ []) ≡ value_from acc s * 10 + (c - b'0')
unfolding value_from
value_from-append acc [] c = refl
value_from-append acc (d ∷ s) c = value_from-append (acc * 10 + (d - b'0')) s c

value-decimal_acc : (n : ℕ) (w : Acc ◌<◌ n) → value_from 0 (decimal_acc n w) ≡ n
unfolding decimal_acc
value-decimal_acc n (Acc.intro _ smaller) = elim (dec_lt n 10) [
  | yes h ↦ rw (dif_pos (dec_lt n 10) le_prop h) (unfold value_from in omega arith)
  | no h ↦ rw (dif_neg (dec_lt n 10) h) (
      rw value_from-append
        (omega (arith, value-decimal_acc (n / 10) (smaller (n / 10) (omega arith)))))
]

-- Different numbers have different digits.
pub decimal_inj : (n m : ℕ) → decimal n ≡ decimal m → n ≡ m
unfolding decimal
decimal_inj n m e =
    sym (value-decimal_acc n (lt_wf.apply n))
    ∙ ap (value_from 0) e
    ∙ value-decimal_acc m (lt_wf.apply m)
