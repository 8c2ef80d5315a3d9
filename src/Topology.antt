-- ===== src/Topology.antt =====
-- src/scenarios/t5-topology-table.ts: the decision table of topologies and the scenario that runs it.
mod Cells
use ad4m_link_language_tests.Prelude.Outcome.{Outcome, returned, threw}
use ad4m_link_language_tests.Prelude.{
  Text, str, decimal, ℕ, suc, ◌+◌, Bool, true, false, List, [], ◌∷◌, ◌++◌, leb, filter, length, not,
  if◌then◌else◌,
}

pub data Mode : Type 0 where
  mesh sfu cascaded : Mode

pub data Avail : Type 0 where
  none single multi : Avail

-- `Topology` has the words of `Mode`.
pub record Case : Type 0 where
  pub mode : Mode
  pub participant_count : ℕ
  pub max_mesh : ℕ
  pub avail : Avail
  pub expected : Mode

by_count : ℕ → ℕ → Mode
by_count count max = if leb count max then mesh else sfu

unfoldable pub resolve : Mode → ℕ → ℕ → Avail → Mode
unfolding by_count
resolve mesh count max avail = mesh
resolve cascaded count max multi = cascaded
resolve cascaded count max single = sfu
resolve cascaded count max none = mesh
resolve sfu count max none = mesh
resolve sfu count max single = by_count count max
resolve sfu count max multi = by_count count max

-- `for (const x of xs)` that pushes what `f` pushes.
for_each : {A B : Type 0} → List A → (A → List B) → List B
for_each [] f = []
for_each (x ∷ xs) f = f x ++ for_each xs f

cell : Mode → ℕ → ℕ → Avail → Case
unfolding resolve
cell mode count max avail = record {
  mode = mode;
  participant_count = count;
  max_mesh = max;
  avail = avail;
  expected = resolve mode count max avail;
}

unfoldable pub build_matrix : List Case
unfolding for_each cell
build_matrix = for_each (mesh ∷ sfu ∷ cascaded ∷ []) (λ mode.
    for_each (1 ∷ 3 ∷ 5 ∷ 8 ∷ 12 ∷ []) (λ count.
      for_each (3 ∷ 5 ∷ [])
        (λ max. for_each (none ∷ single ∷ multi ∷ []) (λ avail. cell mode count max avail ∷ []))))

-- `a === b`
same_topology : Mode → Mode → Bool
same_topology mesh mesh = true
same_topology sfu sfu = true
same_topology cascaded cascaded = true
same_topology _ _ = false

diverges : Case → Bool
unfolding resolve same_topology
diverges c = not (same_topology (resolve c.mode c.participant_count c.max_mesh c.avail) c.expected)

unfoldable pub failures : List Case → List Case
unfolding diverges
failures matrix = filter diverges matrix

unfoldable pub cells_of : Mode → List Case → ℕ
unfolding same_topology
cells_of t matrix = length (filter (λ c. same_topology c.expected t) matrix)

summary_of : List Case → Text
unfolding cells_of decimal
summary_of matrix =
    str "T5: "
    ++ decimal (length matrix)
    ++ str " cells PASS — mesh="
    ++ decimal (cells_of mesh matrix)
    ++ str " sfu="
    ++ decimal (cells_of sfu matrix)
    ++ str " cascaded="
    ++ decimal (cells_of cascaded matrix)

-- What `run` ends in, for the cells that failed.
verdict : List Case → List Case → Outcome Text
unfolding summary_of decimal
verdict matrix [] = returned (summary_of matrix)
verdict matrix (c ∷ cs) = threw (
    str "T5: "
    ++ decimal (length (c ∷ cs))
    ++ str "/"
    ++ decimal (length matrix)
    ++ str " cells diverged from expected")

-- `run`: the summary of a passed result, or the error.
unfoldable pub run : Outcome Text
unfolding verdict failures build_matrix
run = verdict build_matrix (failures build_matrix)
