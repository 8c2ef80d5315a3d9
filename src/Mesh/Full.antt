-- ===== src/Mesh/Full.antt =====
-- `connectAll` builds the full mesh.
use ad4m_link_language_tests.Prelude.{
  Text, ℕ, zero, suc, ◌+◌, ◌*◌, ◌≡◌, refl, sym, ap, subst, ◌∙◌, Bool, true, some, List, [], ◌∷◌,
  ◌++◌, map, All, arith, length, length-append, length-map, append-nil, append_assoc,
}
use mathlib.Core.Path.{ap₂}
use ad4m_link_language_tests.Mesh.{
  MeshPeer, MeshHost, Link, peer_count, connect_one, connect_from, connect_all,
}
use ad4m_link_language_tests.Mesh.Ids.{
  keys, ids, IsAway, IsDistinct, others, get_peer_new, IsAway-snoc, IsAway-ids,
}

module _ (attach : Text → Bool) (pair : Text → Text → Bool)
    (attaches : (name : Text) → attach name ≡ true) (pairs : (a b : Text) → pair a b ≡ true) where
  -- What one round of the outer loop gives.
  record Round (h : MeshHost) (before : List Text) (os : List MeshHost) : Type 0 where
    host : MeshHost
    rest : List MeshHost
    links : List Link
    runs : connect_one attach pair h os ≡ some (host, rest, links)
    same_id : host.id ≡ h.id
    all_keys : keys host ≡ keys h ++ ids os
    same_ids : ids rest ≡ ids os
    grown : All (λ o. keys o ≡ before ++ h.id ∷ []) rest
    counted : length links ≡ length os

  connect_one-Round :
      (h : MeshHost) (before : List Text) (os : List MeshHost)
      → All (λ o. keys o ≡ before) os
      → IsAway h.id before
      → All (λ o. IsAway o.id (keys h)) os
      → IsDistinct (ids os)
      → Round h before os
  unfolding connect_one
  connect_one-Round h before [] _ _ _ _ = record {
    host = h;
    rest = [];
    links = [];
    runs = refl;
    same_id = refl;
    all_keys = sym (append-nil (keys h));
    same_ids = refl;
    grown = tt;
    counted = refl;
  }
  connect_one-Round h before (o ∷ os) (ko, kos) away (ao, aos) (fresh, distinct) =
      let (h1, a, e1, id1, keys1) = get_peer_new attach attaches o.id h ao in
      let away' : IsAway h.id (keys o) = rw ko away in
      let (o1, b, e2, id2, keys2) = get_peer_new attach attaches h.id o away' in
      let away1 : IsAway h1.id before = rw id1 away in
      let aos1 : All (λ x. IsAway x.id (keys h1)) os =
        rw keys1 (IsAway-snoc o.id (keys h) os aos fresh) in
      let r = connect_one-Round h1 before os kos away1 aos1 distinct in
      record {
        host = r.host;
        rest = o1 ∷ r.rest;
        links = record { offerer = a.name; answerer = b.name } ∷ r.links;
        runs = rw e1 (rw e2 (rw (pairs a.name b.name) (rw r.runs refl)));
        same_id = r.same_id ∙ id1;
        all_keys = r.all_keys ∙ (rw keys1 (append_assoc (keys h) (o.id ∷ []) (ids os)));
        same_ids = ap₂ (λ x xs. x ∷ xs) id2 r.same_ids;
        grown = (
          keys2 ∙ ap (λ l. l ++ h.id ∷ []) ko,
          subst (λ (k : Text). All (λ x. keys x ≡ before ++ k ∷ []) r.rest) id1 r.grown,
        );
        counted = ap suc r.counted;
      }

  -- The outer loop over hosts that have peers for `before` alone.
  record Meshed (before : List Text) (hosts : List MeshHost) (n : ℕ) : Type 0 where
    meshed : List MeshHost
    links : List Link
    runs : connect_from attach pair n hosts ≡ some (meshed, links)
    same_ids : ids meshed ≡ ids hosts
    all_keys : map keys meshed ≡ others before (ids hosts)
    counted : 2 * length links + length hosts ≡ length hosts * length hosts

  connect_from-Meshed :
      (before : List Text) (hosts : List MeshHost) (n : ℕ)
      → n ≡ length hosts
      → All (λ o. keys o ≡ before) hosts
      → All (λ o. IsAway o.id before) hosts
      → IsDistinct (ids hosts)
      → Meshed before hosts n
  unfolding connect_from others
  connect_from-Meshed before [] zero e _ _ _ = record {
    meshed = [];
    links = [];
    runs = refl;
    same_ids = refl;
    all_keys = refl;
    counted = refl;
  }
  connect_from-Meshed before [] (suc n) e _ _ _ = absurd (omega arith)
  connect_from-Meshed before (h ∷ os) zero e _ _ _ = absurd (omega arith)
  connect_from-Meshed before (h ∷ os) (suc n) e (kh, kos) (ah, aos) (fresh, distinct) =
      let at_h : All (λ o. IsAway o.id (keys h)) os = rw kh aos in
      let r = connect_one-Round h before os kos ah at_h distinct in
      let same_length : length r.rest ≡ length os =
        sym (length-map (λ o. o.id) r.rest) ∙ ap length r.same_ids ∙ length-map (λ o. o.id) os in
      let away : All (λ o. IsAway o.id (before ++ h.id ∷ [])) r.rest =
        IsAway-ids (before ++ h.id ∷ []) os r.rest r.same_ids
          (IsAway-snoc h.id before os aos fresh) in
      let distinct' : IsDistinct (ids r.rest) = rw r.same_ids distinct in
      let m =
        connect_from-Meshed (before ++ h.id ∷ []) r.rest n (omega arith) r.grown away distinct' in
      record {
        meshed = r.host ∷ m.meshed;
        links = r.links ++ m.links;
        runs = rw r.runs (rw m.runs refl);
        same_ids = ap₂ (λ x xs. x ∷ xs) r.same_id (m.same_ids ∙ r.same_ids);
        all_keys =
            ap₂ (λ x xs. x ∷ xs) (r.all_keys ∙ ap (λ l. l ++ ids os) kh)
              (m.all_keys ∙ ap (others (before ++ h.id ∷ [])) r.same_ids);
        counted =
            let later : 2 * length m.links + length os ≡ length os * length os =
              subst (λ (k : ℕ). 2 * length m.links + k ≡ k * k) same_length m.counted in
            omega (arith, length-append r.links m.links, r.counted, later);
      }

length-others :
    (before xs : List Text)
    → All (λ ks. length ks + 1 ≡ length before + length xs) (others before xs)
unfolding others
length-others before [] = tt
length-others before (x ∷ xs) = (
  omega (arith, length-append before xs),
  All_change (others (before ++ x ∷ []) xs) _ _ (omega (arith, length-append before (x ∷ [])))
      (length-others (before ++ x ∷ []) xs),
)
  where
    All_change :
        (kss : List (List Text)) (m n : ℕ)
        → m ≡ n
        → All (λ ks. length ks + 1 ≡ m) kss
        → All (λ ks. length ks + 1 ≡ n) kss
    All_change [] m n e h = tt
    All_change (ks ∷ kss) m n e (p, h) = (p ∙ e, All_change kss m n e h)

peer_counts :
    (n : ℕ) (hosts : List MeshHost)
    → All (λ ks. length ks + 1 ≡ n) (map keys hosts)
    → All (λ h. peer_count h + 1 ≡ n) hosts
unfolding keys
peer_counts n [] h = tt
peer_counts n (x ∷ xs) (p, h) =
    (omega (arith, length-map (λ (e : Text × MeshPeer). e.0) x.peers), peer_counts n xs h)

-- Connecting hosts with distinct ids and no peers yet, where every stream attaches and every pair
-- of peers pairs, succeeds with the full mesh: the same hosts, each with one peer for every other
-- host and none for itself, so n - 1 of n, and n (n - 1) / 2 pairings in all.
pub connect_all_full :
    (attach : Text → Bool) (pair : Text → Text → Bool) (hosts : List MeshHost)
    → ((name : Text) → attach name ≡ true)
    → ((a b : Text) → pair a b ≡ true)
    → All (λ h. keys h ≡ []) hosts
    → IsDistinct (ids hosts)
    → (meshed : List MeshHost) × (links : List Link) × (connect_all attach pair hosts
        ≡ some (meshed, links))
      × (ids meshed ≡ ids hosts)
      × (map keys meshed ≡ others [] (ids hosts))
      × All (λ h. peer_count h + 1 ≡ length hosts) meshed
      × (2 * length links + length hosts ≡ length hosts * length hosts)
unfolding connect_all
connect_all_full attach pair hosts attaches pairs bare distinct =
    let m =
      connect_from-Meshed attach pair attaches pairs [] hosts (length hosts) refl bare
        (no_keys hosts) distinct in
    let n = length-map (λ (h : MeshHost). h.id) hosts in
    let whole : All (λ ks. length ks + 1 ≡ length hosts) (map keys m.meshed) = rw m.all_keys (
      subst (λ k. All (λ ks. length ks + 1 ≡ k) (others [] (ids hosts))) (omega (arith, n))
        (length-others [] (ids hosts))) in
    (m.meshed, m.links, m.runs, m.same_ids, m.all_keys, peer_counts _ m.meshed whole, m.counted)
  where
    no_keys : (hs : List MeshHost) → All (λ o. IsAway o.id []) hs
    no_keys [] = tt
    no_keys (h ∷ hs) = (tt, no_keys hs)
