-- ===== src/ConvergenceScenario/Links.antt =====
-- src/scenarios/c1-convergence.ts: the links that the two agents write are different from each other.
use ad4m_link_language_tests.Prelude.{
  Text, str, decimal, decimal_inj, ℕ, zero, suc, ◌+◌, ◌*◌, ◌≤◌, ◌≡◌, ◌≢◌, refl, sym, ap, List, [],
  ◌∷◌, ◌++◌, length, length-append, All, All-append, IsDistinct, add_new, append_cancel_left, arith,
}
use ad4m_link_language_tests.ConvergenceScenario.{
  World, link_key, link_a, link_b, expected_from, rounds, expected,
}

append_same_length : (a b x y : Text) → length a ≡ length b → a ++ x ≡ b ++ y → a ≡ b
append_same_length [] [] x y h e = refl
append_same_length [] (d ∷ b) x y h e = absurd (omega (arith, h))
append_same_length (c ∷ a) [] x y h e = absurd (omega (arith, h))
append_same_length (c ∷ a) (d ∷ b) x y h e =
    ground (arith, e, append_same_length a b x y (omega (arith, h)) (ground (arith, e)))

-- A text that stands twice, around another one, is determined by the whole.
twice : (a b m : Text) → a ++ (m ++ a) ≡ b ++ (m ++ b) → a ≡ b
twice a b m e =
    append_same_length a b (m ++ a) (m ++ b)
      (omega (
        arith,
        length-append a (m ++ a),
        length-append m a,
        length-append b (m ++ b),
        length-append m b,
        ap length e,
      ))
      e

key_a_inj : (i j : ℕ) → link_key (link_a i) ≡ link_key (link_a j) → i ≡ j
unfolding link_key link_a
key_a_inj i j e =
    let around = str "|c1://has_message|literal://a-" in
    decimal_inj i j (
      twice (decimal i) (decimal j) around (
        append_cancel_left (str "ad4m://c1-A-") (decimal i ++ (around ++ decimal i))
          (decimal j ++ (around ++ decimal j)) e))

key_b_inj : (i j : ℕ) → link_key (link_b i) ≡ link_key (link_b j) → i ≡ j
unfolding link_key link_b
key_b_inj i j e =
    let around = str "|c1://has_message|literal://b-" in
    decimal_inj i j (
      twice (decimal i) (decimal j) around (
        append_cancel_left (str "ad4m://c1-B-") (decimal i ++ (around ++ decimal i))
          (decimal j ++ (around ++ decimal j)) e))

keys_apart : (i j : ℕ) → link_key (link_a i) ≢ link_key (link_b j)
unfolding link_key link_a link_b
keys_apart i j e =
    let around_a = str "|c1://has_message|literal://a-" in
    let around_b = str "|c1://has_message|literal://b-" in
    ground (
      arith,
      append_cancel_left (str "ad4m://c1-") (b'A' ∷ (b'-' ∷ (decimal i ++ (around_a ++ decimal i))))
          (b'B' ∷ (b'-' ∷ (decimal j ++ (around_b ++ decimal j)))) e,
    )

-- No link of the rounds from `i` on has the key.
IsBefore : ℕ → Text → Type 0
IsBefore i k = (j : ℕ) → i ≤ j → (k ≢ link_key (link_a j)) × (k ≢ link_key (link_b j))

All-IsBefore-suc : (i : ℕ) (ks : List Text) → All (IsBefore i) ks → All (IsBefore (suc i)) ks
unfolding IsBefore
All-IsBefore-suc i [] h = tt
All-IsBefore-suc i (k ∷ ks) (p, h) = (λ j le. p j (omega (arith, le)), All-IsBefore-suc i ks h)

All-apart_a : (i : ℕ) (ks : List Text) → All (IsBefore i) ks → All (λ k. k ≢ link_key (link_a i)) ks
unfolding IsBefore
All-apart_a i [] h = tt
All-apart_a i (k ∷ ks) (p, h) = ((p i (omega arith)).0, All-apart_a i ks h)

All-apart_b : (i : ℕ) (ks : List Text) → All (IsBefore i) ks → All (λ k. k ≢ link_key (link_b i)) ks
unfolding IsBefore
All-apart_b i [] h = tt
All-apart_b i (k ∷ ks) (p, h) = ((p i (omega arith)).1, All-apart_b i ks h)

IsDistinct-snoc :
    (xs : List Text) (x : Text) → IsDistinct xs → All (λ y. y ≢ x) xs → IsDistinct (xs ++ x ∷ [])
IsDistinct-snoc [] x d h = (tt, tt)
IsDistinct-snoc (y ∷ xs) x (away, d) (p, h) =
    (All-append (λ z. y ≢ z) xs (x ∷ []) away (p, tt), IsDistinct-snoc xs x d h)

key_a-IsBefore : (i : ℕ) → IsBefore (suc i) (link_key (link_a i))
unfolding IsBefore
key_a-IsBefore i j le = (λ e. absurd (omega (arith, le, key_a_inj i j e)), λ e. keys_apart i j e)

key_b-IsBefore : (i : ℕ) → IsBefore (suc i) (link_key (link_b i))
unfolding IsBefore
key_b-IsBefore i j le =
    (λ e. keys_apart j i (sym e), λ e. absurd (omega (arith, le, key_b_inj i j e)))

expected_from-IsDistinct :
    (left i : ℕ) (acc : List Text)
    → All (IsBefore i) acc
    → IsDistinct acc
    → IsDistinct (expected_from left i acc)
      × (length (expected_from left i acc) ≡ length acc + 2 * left)
unfolding expected_from
expected_from-IsDistinct zero i acc before d = (d, omega arith)
expected_from-IsDistinct (suc left) i acc before d =
    let a = link_key (link_a i) in
    let b = link_key (link_b i) in
    let away_a = All-apart_a i acc before in
    let apart : (link_key (link_a i) ≢ link_key (link_b i)) = keys_apart i i in
    let away_b = All-append (λ k. k ≢ b) acc (a ∷ []) (All-apart_b i acc before) (apart, tt) in
    let (all, size) =
      expected_from-IsDistinct left (suc i) ((acc ++ a ∷ []) ++ b ∷ [])
        (All-append (IsBefore (suc i)) (acc ++ a ∷ []) (b ∷ [])
          (All-append (IsBefore (suc i)) acc (a ∷ []) (All-IsBefore-suc i acc before)
            (key_a-IsBefore i, tt))
          (key_b-IsBefore i, tt))
        (IsDistinct-snoc (acc ++ a ∷ []) b (IsDistinct-snoc acc a d away_a) away_b) in
    rw (add_new a acc away_a) (
      rw (add_new b (acc ++ a ∷ []) away_b) (
        all,
        omega (arith, size, length-append (acc ++ a ∷ []) (b ∷ []), length-append acc (a ∷ [])),
      ))

-- Whatever number of rounds is asked for, each of them expects two links, and no two of the links
-- that are expected have the same key, so none counts for another.
pub expected-IsDistinct :
    (w : World) → IsDistinct (expected w) × (length (expected w) ≡ 2 * rounds w.links)
unfolding expected
expected-IsDistinct w =
    let (d, size) = expected_from-IsDistinct (rounds w.links) 0 [] tt tt in (d, omega (arith, size))
