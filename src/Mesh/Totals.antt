-- ===== src/Mesh/Totals.antt =====
-- The sums and the worst round-trip time over a host's peers.
use ad4m_link_language_tests.Prelude.{
  Dict, ℕ, ◌≤◌, ◌≡◌, refl, sym, ◌∙◌, Option, none, some, [], ◌∷◌, All, arith, ◌⊎◌, inl, inr,
}
use ad4m_link_language_tests.Mesh.{MeshPeer, MeshHost, rtt_of, worse, worst_from, worst_rtt_ms}

-- `r` is not above the round-trip time `w`; a peer with none is below every other.
abbrev pub AtMost : Option ℕ → Option ℕ → Type 0
AtMost none w = Unit
AtMost (some r) none = ⊥
AtMost (some r) (some w) = r ≤ w

-- A peer of the host has round-trip time `w`.
pub Attains : Option ℕ → Dict MeshPeer → Type 0
Attains w [] = ⊥
Attains w ((_, p) ∷ ps) = (rtt_of p ≡ w) ⊎ Attains w ps

AtMost-worse_new : (r w : Option ℕ) → AtMost r (worse r w)
unfolding worse
AtMost-worse_new none w = tt
AtMost-worse_new (some r) none = omega arith
AtMost-worse_new (some r) (some w) = omega arith

AtMost-worse_old : (r w : Option ℕ) → AtMost w (worse r w)
unfolding worse
AtMost-worse_old none none = tt
AtMost-worse_old none (some w) = omega arith
AtMost-worse_old (some r) none = tt
AtMost-worse_old (some r) (some w) = omega arith

AtMost-trans : (a b c : Option ℕ) → AtMost a b → AtMost b c → AtMost a c
AtMost-trans none b c p q = tt
AtMost-trans (some a) none c p q = absurd p
AtMost-trans (some a) (some b) none p q = absurd q
AtMost-trans (some a) (some b) (some c) p q = omega arith

worst_from_grows : (w : Option ℕ) (ps : Dict MeshPeer) → AtMost w (worst_from w ps)
unfolding worst_from
worst_from_grows none [] = tt
worst_from_grows (some w) [] = omega arith
worst_from_grows w ((k, p) ∷ ps) =
    AtMost-trans w (worse (rtt_of p) w) _ (AtMost-worse_old (rtt_of p) w)
      (worst_from_grows (worse (rtt_of p) w) ps)

worst_from_bounds :
    (w : Option ℕ) (ps : Dict MeshPeer) → All (λ e. AtMost (rtt_of e.1) (worst_from w ps)) ps
unfolding worst_from
worst_from_bounds w [] = tt
worst_from_bounds w ((k, p) ∷ ps) = (
  AtMost-trans (rtt_of p) (worse (rtt_of p) w) _ (AtMost-worse_new (rtt_of p) w)
      (worst_from_grows (worse (rtt_of p) w) ps),
  worst_from_bounds (worse (rtt_of p) w) ps,
)

worse_either : (r w : Option ℕ) → (worse r w ≡ w) ⊎ (worse r w ≡ r)
unfolding worse
worse_either none w = inl refl
worse_either (some r) none = inr refl
worse_either (some r) (some w) = ground arith

worst_from_attained :
    (w : Option ℕ) (ps : Dict MeshPeer) → (worst_from w ps ≡ w) ⊎ Attains (worst_from w ps) ps
unfolding worst_from Attains
worst_from_attained w [] = inl refl
worst_from_attained w ((k, p) ∷ ps) = elim (worst_from_attained (worse (rtt_of p) w) ps) [
  | inr there ↦ inr (inr there)
  | inl same ↦ elim (worse_either (rtt_of p) w) [
    | inl old ↦ inl (same ∙ old)
    | inr here ↦ inr (inl (sym (same ∙ here)))
  ]
]

-- `worstRttMs` is at least the round-trip time of every peer that has one, and it is the
-- round-trip time of some peer, unless it is null.
pub worst_rtt_is_max :
    (h : MeshHost)
    → All (λ e. AtMost (rtt_of e.1) (worst_rtt_ms h)) h.peers
      × ((worst_rtt_ms h ≡ none) ⊎ Attains (worst_rtt_ms h) h.peers)
unfolding worst_rtt_ms
worst_rtt_is_max h = (worst_from_bounds none h.peers, worst_from_attained none h.peers)
