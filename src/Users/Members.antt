-- ===== src/Users/Members.antt =====
-- `registerClusterSfuMembers` registers every DID of a user on every node.
use ad4m_link_language_tests.Prelude.{
  Text, ◌≡◌, Bool, true, false, ◌||◌, ◌&&◌, List, [], ◌∷◌, ◌++◌, ◌===◌, All, arith, Dict, text_iff,
  text_refl, Bool-cases, inl, inr, contains, add, contains-add_new, contains-add_old,
}
use ad4m_link_language_tests.Users.{
  NodeEntry, ClusterPeerSession, all_dids, register_did, register_dids,
  register_cluster_sfu_members,
}

-- Whether `sfu.ensureMembership` was called on `node` for `did`.
pub called : Text → Text → List (Text × Text) → Bool
called node did [] = false
called node did ((n, d) ∷ cs) = (n === node && d === did) || called node did cs

all_dids_keeps :
    (y : Text) (set : List Text) (es : Dict NodeEntry)
    → contains y set ≡ true
    → contains y (all_dids set es) ≡ true
unfolding all_dids
all_dids_keeps y set [] h = h
all_dids_keeps y set ((k, e) ∷ es) h =
    all_dids_keeps y (add e.did set) es (contains-add_old e.did y set h)

all_dids_complete :
    (set : List Text) (es : Dict NodeEntry)
    → All (λ e. contains e.1.did (all_dids set es) ≡ true) es
unfolding all_dids
all_dids_complete set [] = tt
all_dids_complete set ((k, e) ∷ es) = (
  all_dids_keeps e.did (add e.did set) es (contains-add_new e.did set),
  all_dids_complete (add e.did set) es,
)

called-append_left :
    (node did : Text) (xs ys : List (Text × Text))
    → called node did xs ≡ true
    → called node did (xs ++ ys) ≡ true
unfolding called
called-append_left node did [] ys h = cc
called-append_left node did ((n, d) ∷ xs) ys h = ground (arith, called-append_left node did xs ys)

called-append_right :
    (node did : Text) (xs ys : List (Text × Text))
    → called node did ys ≡ true
    → called node did (xs ++ ys) ≡ true
unfolding called
called-append_right node did [] ys h = h
called-append_right node did ((n, d) ∷ xs) ys h = ground (arith, called-append_right node did xs ys)

called-register_did :
    (node did : Text) (nodes : List Text)
    → contains node nodes ≡ true
    → called node did (register_did did nodes) ≡ true
unfolding called contains register_did
called-register_did node did [] h = h
called-register_did node did (n ∷ nodes) h =
    ground (arith, text_refl did, called-register_did node did nodes)

called-register_dids :
    (node did : Text) (nodes dids : List Text)
    → contains node nodes ≡ true
    → contains did dids ≡ true
    → called node did (register_dids nodes dids) ≡ true
unfolding contains register_dids
called-register_dids node did nodes [] h k = cc
called-register_dids node did nodes (d ∷ dids) h k = elim (Bool-cases (d === did)) [
  | inl same ↦ rw ((text_iff d did).0 same) (
      called-append_left node did (register_did did nodes) (register_dids nodes dids)
        (called-register_did node did nodes h))
  | inr other ↦
      called-append_right node did (register_did d nodes) (register_dids nodes dids)
        (called-register_dids node did nodes dids h (ground arith))
]

-- Every session of `ss` has every DID of its own called on `node`.
abbrev pub IsRegistered : Text → List (Text × Text) → List ClusterPeerSession → Type 0
IsRegistered node calls = All (λ s. All (λ e. called node e.1.did calls ≡ true) s.by_node)

session_called :
    (node : Text) (nodes dids : List Text) (rest : List (Text × Text)) (es : Dict NodeEntry)
    → contains node nodes ≡ true
    → All (λ e. contains e.1.did dids ≡ true) es
    → All (λ e. called node e.1.did (register_dids nodes dids ++ rest) ≡ true) es
session_called node nodes dids rest [] h k = tt
session_called node nodes dids rest ((n, e) ∷ es) h (p, k) = (
  called-append_left node e.did (register_dids nodes dids) rest
      (called-register_dids node e.did nodes dids h p),
  session_called node nodes dids rest es h k,
)

later_called :
    (node : Text) (xs calls : List (Text × Text)) (ss : List ClusterPeerSession)
    → IsRegistered node calls ss
    → IsRegistered node (xs ++ calls) ss
later_called node xs calls [] h = tt
later_called node xs calls (s ∷ ss) (p, h) = (entries s.by_node p, later_called node xs calls ss h)
  where
    entries :
        (es : Dict NodeEntry)
        → All (λ e. called node e.1.did calls ≡ true) es
        → All (λ e. called node e.1.did (xs ++ calls) ≡ true) es
    entries [] p = tt
    entries ((n, e) ∷ es) (q, p) = (called-append_right node e.did xs calls q, entries es p)

-- After `registerClusterSfuMembers` every DID that a session has on any node has been registered
-- on each of the given nodes.
pub cluster_registers_all :
    (nodes : List Text) (ss : List ClusterPeerSession) (node : Text)
    → contains node nodes ≡ true
    → IsRegistered node (register_cluster_sfu_members nodes ss) ss
unfolding register_cluster_sfu_members
cluster_registers_all nodes [] node h = tt
cluster_registers_all nodes (s ∷ ss) node h = (
  session_called node nodes (all_dids [] s.by_node) (register_cluster_sfu_members nodes ss)
      s.by_node h (all_dids_complete [] s.by_node),
  later_called node (register_dids nodes (all_dids [] s.by_node))
      (register_cluster_sfu_members nodes ss) ss (cluster_registers_all nodes ss node h),
)
