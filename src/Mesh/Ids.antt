-- ===== src/Mesh/Ids.antt =====
-- src/mesh.ts: the remote ids that hosts have peers for, and `getPeer` of a new one.
use ad4m_link_language_tests.Prelude.{
  Text, Dict, ◌≡◌, ◌≢◌, refl, sym, ap, Bool, true, false, none, some, List, [], ◌∷◌, ◌++◌, map, All,
  arith, lookup, insert, text_iff, All-append,
}
use ad4m_link_language_tests.Mesh.{MeshPeer, MeshHost, peer_name, get_peer}

-- The remote ids that a host has a peer for, in the order in which they were made.
unfoldable pub keys : MeshHost → List Text
keys h = map (λ e. e.0) h.peers

abbrev pub ids : List MeshHost → List Text
ids = map (λ h. h.id)

abbrev pub IsAway : Text → List Text → Type 0
IsAway k = All (λ j. j ≢ k)

abbrev pub IsDistinct : List Text → Type 0
IsDistinct [] = Unit
IsDistinct (x ∷ xs) = IsAway x xs × IsDistinct xs

-- In a full mesh each host has the hosts before it and then those behind it.
unfoldable pub others : List Text → List Text → List (List Text)
others before [] = []
others before (x ∷ xs) = (before ++ xs) ∷ others (before ++ x ∷ []) xs

lookup_away : (k : Text) (m : Dict MeshPeer) → IsAway k (map (λ e. e.0) m) → lookup k m ≡ none
unfolding lookup
lookup_away k [] h = refl
lookup_away k ((j, p) ∷ m) (q, h) = ground (arith, text_iff j k, lookup_away k m h)

insert_away :
    (k : Text) (p : MeshPeer) (m : Dict MeshPeer)
    → IsAway k (map (λ e. e.0) m)
    → insert k p m ≡ m ++ (k, p) ∷ []
unfolding insert
insert_away k p [] h = refl
insert_away k p ((j, q) ∷ m) (n, h) = ground (arith, text_iff j k, insert_away k p m h)

map-snoc :
    (m : Dict MeshPeer) (k : Text) (p : MeshPeer)
    → map (λ e. e.0) (m ++ (k, p) ∷ []) ≡ map (λ e. e.0) m ++ k ∷ []
map-snoc [] k p = refl
map-snoc ((j, q) ∷ m) k p = ap (λ l. j ∷ l) (map-snoc m k p)

module _ (attach : Text → Bool) (attaches : (name : Text) → attach name ≡ true) where
  pub get_peer_new :
      (k : Text) (h : MeshHost)
      → IsAway k (keys h)
      → (h' : MeshHost) × (p : MeshPeer) × (get_peer attach k h ≡ some (h', p))
        × (h'.id ≡ h.id)
        × (keys h' ≡ keys h ++ k ∷ [])
  unfolding get_peer keys
  get_peer_new k h away =
      let p : MeshPeer = record { name = peer_name h.id k; last_stats = none; sampling = false } in
      (
        record h { peers = insert k p h.peers },
        p,
        rw (lookup_away k h.peers away) (rw (attaches (peer_name h.id k)) refl),
        refl,
        rw (insert_away k p h.peers away) (map-snoc h.peers k p),
      )

pub IsAway-snoc :
    (k : Text) (ks : List Text) (os : List MeshHost)
    → All (λ o. IsAway o.id ks) os
    → IsAway k (ids os)
    → All (λ o. IsAway o.id (ks ++ k ∷ [])) os
IsAway-snoc k ks [] h a = tt
IsAway-snoc k ks (o ∷ os) (p, h) (q, a) =
    (All-append (λ j. j ≢ o.id) ks (k ∷ []) p ((λ e. q (sym e)), tt), IsAway-snoc k ks os h a)

pub IsAway-ids :
    (ks : List Text) (os os' : List MeshHost)
    → ids os' ≡ ids os
    → All (λ o. IsAway o.id ks) os
    → All (λ o. IsAway o.id ks) os'
IsAway-ids ks [] [] e h = tt
IsAway-ids ks [] (p ∷ ps) e h = cc
IsAway-ids ks (o ∷ os) [] e h = tt
IsAway-ids ks (o ∷ os) (p ∷ ps) e (a, h) =
    let same : p.id ≡ o.id = cc in
    let same_rest : ids ps ≡ ids os = cc in (rw same a, IsAway-ids ks os ps same_rest h)
