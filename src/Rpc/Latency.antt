-- ===== src/Rpc/Latency.antt =====
-- src/client.ts: `getStats`. The indices `Math.floor(count * 0.95)` and the like are computed in
-- whole numbers, and an average is its numerator with its denominator.
use ad4m_link_language_tests.Prelude.{
  ℕ, zero, suc, ◌-◌, ◌*◌, ◌/◌, ◌≤◌, ◌<◌, ◌≡◌, refl, ◌∙◌, Option, some, List, [], ◌∷◌, arith, ◌==◌,
  length, get_elem?, All, false, if◌then◌else◌,
}
use ad4m_link_language_tests.Rpc.Metrics.{Metrics}
use ad4m_link_language_tests.Rpc.Sorting.{
  sort, IsSorted, sort-IsSorted, length-sort, In, sort-In, In-lt,
}

pub record Stats : Type 0 where
  pub count : ℕ
  pub errors : ℕ
  pub avg : ℕ × ℕ
  pub p50 : Option ℕ
  pub p95 : Option ℕ
  pub p99 : Option ℕ
  pub min : Option ℕ
  pub max : Option ℕ

-- `none` is `undefined`, what an index out of range reads.
stats_of : List ℕ → Metrics → Stats
stats_of sorted m =
    let count = length sorted in
    if count == 0
    then record {
      count = 0;
      errors = 0;
      avg = (0, 1);
      p50 = some 0;
      p95 = some 0;
      p99 = some 0;
      min = some 0;
      max = some 0;
    }
    else record {
      count = count;
      errors = m.total_errors;
      avg = (m.total_duration, count);
      p50 = get_elem? sorted (count * 50 / 100);
      p95 = get_elem? sorted (count * 95 / 100);
      p99 = get_elem? sorted (count * 99 / 100);
      min = get_elem? sorted 0;
      max = get_elem? sorted (count - 1);
    }

unfoldable pub get_stats : Metrics → Stats
unfolding stats_of sort
get_stats m = stats_of (sort m.latencies) m

read_at : (xs : List ℕ) (i : ℕ) → i < length xs → (a : ℕ) × (get_elem? xs i ≡ some a)
read_at [] i h = elim h [ ]
read_at (x ∷ xs) zero h = (x, refl)
read_at (x ∷ xs) (suc i) h = read_at xs i (omega arith)

get_elem?-All :
    (lo : ℕ) (xs : List ℕ) (i a : ℕ) → All (λ y. lo ≤ y) xs → get_elem? xs i ≡ some a → lo ≤ a
get_elem?-All lo [] i a h e = absurd (cc)
get_elem?-All lo (x ∷ xs) zero a (p, h) e = ground arith
get_elem?-All lo (x ∷ xs) (suc i) a (p, h) e = get_elem?-All lo xs i a h e

get_elem?_mono :
    (xs : List ℕ) (i j a b : ℕ)
    → IsSorted xs
    → i ≤ j
    → get_elem? xs i ≡ some a
    → get_elem? xs j ≡ some b
    → a ≤ b
get_elem?_mono [] i j a b h le e f = absurd (cc)
get_elem?_mono (x ∷ xs) zero zero a b h le e f = ground arith
get_elem?_mono (x ∷ xs) zero (suc j) a b (p, h) le e f =
    let lower = get_elem?-All x xs j b p f in ground arith
get_elem?_mono (x ∷ xs) (suc i) zero a b h le e f = absurd (omega arith)
get_elem?_mono (x ∷ xs) (suc i) (suc j) a b (p, h) le e f =
    get_elem?_mono xs i j a b h (omega arith) e f

-- Values read at rising indices of a sorted list.
pub record Quantiles (s : Stats) : Type 0 where
  pub lo : ℕ
  pub half : ℕ
  pub most : ℕ
  pub nearly : ℕ
  pub hi : ℕ
  pub has_min : s.min ≡ some lo
  pub has_p50 : s.p50 ≡ some half
  pub has_p95 : s.p95 ≡ some most
  pub has_p99 : s.p99 ≡ some nearly
  pub has_max : s.max ≡ some hi
  pub ordered : (lo ≤ half) × (half ≤ most) × (most ≤ nearly) × (nearly ≤ hi)

stats_of-Quantiles :
    (xs : List ℕ) (m : Metrics)
    → IsSorted xs
    → 1 ≤ length xs
    → (q : Quantiles (stats_of xs m)) × ((stats_of xs m).count ≡ length xs)
      × ((v : ℕ) → In v xs → (q.lo ≤ v) × (v ≤ q.hi))
unfolding stats_of
stats_of-Quantiles xs m sorted h =
    let n = length xs in
    let (lo, at_lo) = read_at xs 0 (omega arith) in
    let (half, at_half) = read_at xs (n * 50 / 100) (omega arith) in
    let (most, at_most) = read_at xs (n * 95 / 100) (omega arith) in
    let (nearly, at_nearly) = read_at xs (n * 99 / 100) (omega arith) in
    let (hi, at_hi) = read_at xs (n - 1) (omega arith) in
    let some_count : (n == 0) ≡ false = ground arith in
    let rises =
      λ (i j a b : ℕ) (le : i ≤ j) (e : get_elem? xs i ≡ some a) (f : get_elem? xs j ≡ some b).
        get_elem?_mono xs i j a b sorted le e f in
    rw some_count (
      record {
        lo = lo;
        half = half;
        most = most;
        nearly = nearly;
        hi = hi;
        has_min = at_lo;
        has_p50 = at_half;
        has_p95 = at_most;
        has_p99 = at_nearly;
        has_max = at_hi;
        ordered = (
          rises _ _ _ _ (omega arith) at_lo at_half,
          rises _ _ _ _ (omega arith) at_half at_most,
          rises _ _ _ _ (omega arith) at_most at_nearly,
          rises _ _ _ _ (omega arith) at_nearly at_hi,
        );
      },
      refl,
      λ v (i, e). (
        rises _ _ _ _ (omega arith) at_lo e,
        rises _ _ _ _ (omega (arith, In-lt v xs i e)) e at_hi,
      ),
    )

In-All : (P : ℕ → Type 0) (xs : List ℕ) → ((v : ℕ) → In v xs → P v) → All P xs
In-All P [] h = tt
In-All P (x ∷ xs) h = (h x (0, refl), In-All P xs (λ v (i, e). h v (suc i, e)))

-- After at least one timed call `getStats` reads no `undefined`: the minimum, the three
-- percentiles and the maximum are numbers in rising order, every latency lies between the minimum
-- and the maximum, and the count is the number of latencies.
pub get_stats_ordered :
    (m : Metrics)
    → 1 ≤ length m.latencies
    → (q : Quantiles (get_stats m)) × ((get_stats m).count ≡ length m.latencies)
      × All (λ v. (q.lo ≤ v) × (v ≤ q.hi)) m.latencies
unfolding get_stats
get_stats_ordered m h =
    let n = length-sort m.latencies in
    let (q, counted, bounds) =
      stats_of-Quantiles (sort m.latencies) m (sort-IsSorted m.latencies) (omega arith) in
    (
      q,
      counted ∙ n,
      In-All (λ v. (q.lo ≤ v) × (v ≤ q.hi)) m.latencies
          (λ v found. bounds v (sort-In v m.latencies found)),
    )
