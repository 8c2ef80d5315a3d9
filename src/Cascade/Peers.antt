-- ===== src/Cascade/Peers.antt =====
-- src/cascade.ts: what each executor of the cluster is told of the others, and the ports they take.
use ad4m_link_language_tests.Cascade
use ad4m_link_language_tests.Prelude.Outcome.{returned}
use ad4m_link_language_tests.Prelude.{
  Text, ℕ, zero, suc, ◌+◌, ◌-◌, ◌*◌, ◌≤◌, ◌<◌, true, false, ◌==◌, some, List, [], ◌∷◌, ◌++◌, length,
  get_elem?, All, All-mono, IsDistinct, ◌≡◌, ◌≢◌, refl, sym, ap, ◌∙◌, ◌⊎◌, inl, inr, arith, map,
  str, append-nil,
}

module _ {ℓ} {A : Type ℓ} where
  get_elem?-right :
      (xs ys : List A) (m i : ℕ) → m ≡ length xs + i → get_elem? (xs ++ ys) m ≡ get_elem? ys i
  get_elem?-right [] ys m i h = ap (λ k. get_elem? ys k) (omega (arith, h))
  get_elem?-right (x ∷ xs) ys zero i h = absurd (omega (arith, h))
  get_elem?-right (x ∷ xs) ys (suc m) i h = get_elem?-right xs ys m i (omega (arith, h))

-- These texts with commas between them.
commas : Text → List Text → Text
commas a [] = a
commas a (b ∷ rest) = a ++ (b',' ∷ commas b rest)

-- What a node's arguments end with for peers of these addresses.
pub peers_args : List Text → List Text
unfolding commas
peers_args [] = []
peers_args (a ∷ rest) = str "--sfu-cascade-peers" ∷ commas a rest ∷ []

join-commas : (a : Text) (rest : List Text) → Cascade.join (a ∷ rest) ≡ commas a rest
unfolding Cascade.join commas
join-commas a [] = refl
join-commas a (b ∷ rest) = ap (λ t. a ++ (b',' ∷ t)) (join-commas b rest)

with_peers-peers_args :
    (own : List Text) (c : ℕ) (a : Text) (rest : List Text)
    → Cascade.with_peers own (Cascade.join ((c ∷ a) ∷ rest)) ≡ own ++ peers_args ((c ∷ a) ∷ rest)
unfolding Cascade.with_peers peers_args commas Cascade.join
with_peers-peers_args own c a [] = refl
with_peers-peers_args own c a (b ∷ rest) =
    ap (λ t. own ++ str "--sfu-cascade-peers" ∷ ((c ∷ a) ++ (b',' ∷ t)) ∷ []) (join-commas b rest)

abbrev pub ports : List Cascade.Planned → List ℕ
ports [] = []
ports (p ∷ ps) = p.port ∷ p.gossip_port ∷ ports ps

module _ (ws gossip : ℕ) where
  -- Behind its own index nothing is left out.
  others-after :
      (i left j : ℕ)
      → i < j
      → Cascade.others i j (Cascade.planned_from ws gossip left j)
        ≡ Cascade.planned_from ws gossip left j
  unfolding Cascade.others Cascade.planned_from
  others-after i zero j after = refl
  others-after i (suc left) j after =
      let apart : (j == i) ≡ false = ground arith in
      ground (arith, apart, others-after i left (suc j) (omega arith))

  others_lem :
      (i j left before after : ℕ)
      → left ≡ before + suc after
      → i ≡ j + before
      → Cascade.others i j (Cascade.planned_from ws gossip left j)
        ≡ Cascade.planned_from ws gossip before j ++ Cascade.planned_from ws gossip after (suc i)
  unfolding Cascade.others Cascade.planned_from
  others_lem i j zero before after sizes here = absurd (omega (arith, sizes))
  others_lem i j (suc left) zero after sizes here =
      let same : (j == i) ≡ true = ground arith in
      rw same (
        others-after i left (suc j) (omega arith)
        ∙ ap (λ n. Cascade.planned_from ws gossip n (suc j)) (omega arith)
        ∙ ap (λ k. Cascade.planned_from ws gossip after (suc k)) (omega arith))
  others_lem i j (suc left) (suc before) after sizes there =
      let apart : (j == i) ≡ false = ground arith in
      rw apart (
        ap (λ ps. Cascade.planned_node ws gossip j ∷ ps)
          (others_lem i (suc j) left before after (omega arith) (omega arith)))

  -- A node's own arguments, and those for the peers of two ranges.
  with_peers-planned :
      (own : List Text) (before after j k : ℕ)
      → let ps =
          Cascade.planned_from ws gossip before j ++ Cascade.planned_from ws gossip after k in
        Cascade.with_peers own (Cascade.join (map Cascade.address ps))
        ≡ own ++ peers_args (map Cascade.address ps)
  unfolding Cascade.planned_from Cascade.planned_node Cascade.address
  with_peers-planned own zero zero j k =
      unfold Cascade.with_peers Cascade.join peers_args in sym (append-nil own)
  with_peers-planned own zero (suc after) j k = with_peers-peers_args own _ _ _
  with_peers-planned own (suc before) after j k = with_peers-peers_args own _ _ _

  -- The loop reaches every node when every directory is made.
  spawn_all-get_elem? :
      (w : Cascade.World) (t : Text) (o : Cascade.Options) (left j k i : ℕ)
      → All (λ p. w.init_data_dir p.data_path ≡ returned tt) (Cascade.planned_from ws gossip left j)
      → k < left
      → i ≡ j + k
      → get_elem? (Cascade.spawn_all w t o j (Cascade.planned_from ws gossip left j)).0 k
        ≡ some (Cascade.spawn i (Cascade.args_of t o i (Cascade.planned_node ws gossip i)))
  unfolding Cascade.spawn_all Cascade.planned_from Cascade.spawned
  spawn_all-get_elem? w t o zero j k i made upto at = absurd (omega arith)
  spawn_all-get_elem? w t o (suc left) j zero i (first, made) upto at = rw first (
      ap (λ x. some (Cascade.spawn x (Cascade.args_of t o x (Cascade.planned_node ws gossip x))))
        (omega arith))
  spawn_all-get_elem? w t o (suc left) j (suc k) i (first, made) upto at =
      rw first (spawn_all-get_elem? w t o left (suc j) k i made (omega arith) (omega arith))

  length-free_ports :
      (left j : ℕ) → length (Cascade.free_ports (Cascade.planned_from ws gossip left j)) ≡ 2 * left
  unfolding Cascade.free_ports Cascade.planned_from
  length-free_ports zero j = refl
  length-free_ports (suc left) j = omega (arith, length-free_ports left (suc j))

  -- A port of one of the two ranges from the index `j` on.
  abbrev InRange : ℕ → ℕ → ℕ → Type 0
  InRange left j x = (ws + j ≤ x × x < ws + j + left) ⊎ (gossip + j ≤ x × x < gossip + j + left)

  ports-InRange :
      (left j : ℕ) → All (InRange left j) (ports (Cascade.planned_from ws gossip left j))
  unfolding Cascade.planned_from Cascade.planned_node
  ports-InRange zero j = tt
  ports-InRange (suc left) j = (
    inl (omega arith, omega arith),
    (
      inr (omega arith, omega arith),
      All-mono (InRange left (suc j)) (InRange (suc left) j)
          (ports (Cascade.planned_from ws gossip left (suc j)))
          (λ x h. elim h [
            | inl (lo, hi) ↦ inl (omega arith, omega arith)
            | inr (lo, hi) ↦ inr (omega arith, omega arith)
          ])
          (ports-InRange left (suc j)),
    ),
  )

  -- The two ranges do not overlap.
  abbrev pub Apart : ℕ → Type 0
  Apart n = (ws + n ≤ gossip) ⊎ (gossip + n ≤ ws)

  ports-away :
      (left j x : ℕ)
      → ((y : ℕ) → InRange left j y → x ≢ y)
      → All (λ y. x ≢ y) (ports (Cascade.planned_from ws gossip left j))
  ports-away left j x f =
      All-mono (InRange left j) (λ y. x ≢ y) (ports (Cascade.planned_from ws gossip left j)) f
        (ports-InRange left j)

  ports-IsDistinct :
      (n left j : ℕ)
      → left + j ≤ n
      → Apart n
      → IsDistinct (ports (Cascade.planned_from ws gossip left j))
  unfolding Cascade.planned_from Cascade.planned_node
  ports-IsDistinct n zero j upto apart = tt
  ports-IsDistinct n (suc left) j upto apart = (
    (
      (λ same. elim apart [ inl h ↦ omega arith | inr h ↦ omega arith ]),
      ports-away left (suc j) (ws + j)
          (λ y h same. elim apart [ inl k ↦ omega arith | inr k ↦ omega arith ]),
    ),
    (
      ports-away left (suc j) (gossip + j) (λ y h same. omega arith),
      ports-IsDistinct n left (suc j) (omega arith) apart,
    ),
  )

module _ (w : Cascade.World) (t : Text) (o : Cascade.Options) where
  -- When every data directory is made and the two port ranges do not overlap, `startCluster` spawns
  -- every planned node: behind the two freed ports of each node stands the spawn of the `i`-th node,
  -- whose arguments are its own and the addresses of exactly the nodes before it and the nodes
  -- behind it, each once and never its own, with commas between them (without other nodes, its own
  -- arguments alone); no two of all the WS and gossip ports are the same.
  pub start_cluster-peers :
      All (λ p. w.init_data_dir p.data_path ≡ returned tt) (Cascade.planned_nodes o)
      → Apart (Cascade.ws_base o) (Cascade.gossip_base o) o.node_count
      → (i : ℕ) → i < o.node_count
      → (get_elem? (Cascade.start_cluster w t o).0 (2 * o.node_count + i)
          ≡ some (
              Cascade.spawn i (
                Cascade.own_args t o
                  (Cascade.planned_node (Cascade.ws_base o) (Cascade.gossip_base o) i)
                ++ peers_args (
                    map Cascade.address (
                      Cascade.planned_from (Cascade.ws_base o) (Cascade.gossip_base o) i 0
                      ++ Cascade.planned_from
                          (Cascade.ws_base o)
                          (Cascade.gossip_base o)
                          (o.node_count - suc i)
                          (suc i))))))
        × IsDistinct (ports (Cascade.planned_nodes o))
  unfolding Cascade.start_cluster Cascade.after_spawn Cascade.planned_nodes Cascade.args_of
  start_cluster-peers made apart i upto =
      let ws = Cascade.ws_base o in
      let gossip = Cascade.gossip_base o in
      let n = o.node_count in
      let own = Cascade.own_args t o (Cascade.planned_node ws gossip i) in
      (
        get_elem?-right (Cascade.free_ports (Cascade.planned_from ws gossip n 0))
              (Cascade.spawn_all w t o 0 (Cascade.planned_from ws gossip n 0)).0 (2 * n + i) i
              (omega (arith, length-free_ports ws gossip n 0))
            ∙ spawn_all-get_elem? ws gossip w t o n 0 i i made upto (omega arith)
            ∙ ap
                (λ ps. some (
                  Cascade.spawn i (Cascade.with_peers own (Cascade.join (map Cascade.address ps)))))
                (others_lem ws gossip i 0 n i (n - suc i) (omega arith) (omega arith))
            ∙ ap (λ args. some (Cascade.spawn i args))
                (with_peers-planned ws gossip own i (n - suc i) 0 (suc i)),
        ports-IsDistinct ws gossip n n 0 (omega arith) apart,
      )
