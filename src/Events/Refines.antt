-- ===== src/Events/Refines.antt =====
-- src/events.ts: the client keeps what `Spec` promises.
pub mod Kept
use ad4m_link_language_tests.Prelude.{
  Text, Dict, ℕ, zero, suc, ◌+◌, ◌<◌, ◌≡◌, ◌≢◌, ◌⊎◌, refl, sym, ap, subst, ◌∙◌, Bool, true, false,
  ◌===◌, ◌==◌, text_iff, text_refl, Option, none, some, inl, inr, List, [], ◌∷◌, ◌++◌, length,
  length-append, lookup, insert, remove, lookup-insert, lookup-remove, All, arith, if◌then◌else◌,
  Bool-cases, Option-cases,
}
use ad4m_link_language_tests.Events.{
  Client, ensure_set, listeners_at, listeners, add_listener, set_at, update_at,
}
use ad4m_link_language_tests.Events.Heap.{
  set_at-update, set_at-update_other, set_at-new, set_at-beyond, length-update_at, add_listener-new,
}

-- The types that are known have sets, each its own.
pub record IsApart (c : Client) : Type 0 where
  pub in_range : (t : Text) (a : ℕ) → lookup t c.listeners_by_type ≡ some a → a < length c.sets
  pub separate :
      (t u : Text) (a : ℕ)
      → lookup t c.listeners_by_type ≡ some a
      → lookup u c.listeners_by_type ≡ some a
      → t ≡ u

-- What holds once there is a set for the type `t`.
pub record Ensured (t : Text) (c : Client) (a : ℕ) (c' : Client) : Type 0 where
  pub known : lookup t c'.listeners_by_type ≡ some a
  pub apart : IsApart c'
  pub same_listeners : (u : Text) → listeners u c' ≡ listeners u c
  pub same_sets :
      (u : Text) (b : ℕ)
      → lookup u c.listeners_by_type ≡ some b
      → lookup u c'.listeners_by_type ≡ some b

-- An entry of the extended table is the new one or one that was there.
insert_cases :
    (t u : Text) (n a : ℕ) (m : Dict ℕ)
    → lookup u (insert t n m) ≡ some a
    → ((t ≡ u) × (a ≡ n)) ⊎ ((t ≢ u) × (lookup u m ≡ some a))
insert_cases t u n a m e = elim (Bool-cases (t === u)) [
  | inl at ↦ inl ((text_iff t u).0 at, ground (arith, lookup-insert t u n m, at, e))
  | inr past ↦
      inr
        (λ q. ground (arith, past, text_iff t u, q), ground (arith, lookup-insert t u n m, past, e))
]

with_set : Text → Client → Client
unfolding insert
with_set t c = record {
  sets = c.sets ++ [] ∷ [];
  listeners_by_type = insert t (length c.sets) c.listeners_by_type;
}

with_set-IsApart : (t : Text) (c : Client) → IsApart c → IsApart (with_set t c)
unfolding with_set
with_set-IsApart t c h = record {
  in_range = λ u a e. elim (insert_cases t u (length c.sets) a c.listeners_by_type e) [
    | inl (_, new) ↦ omega (arith, new, length-append c.sets ([] ∷ []))
    | inr (_, old) ↦ omega (arith, h.in_range u a old, length-append c.sets ([] ∷ []))
  ];
  separate = λ u v a e f. elim (insert_cases t u (length c.sets) a c.listeners_by_type e) [
    | inl (at_u, new) ↦ elim (insert_cases t v (length c.sets) a c.listeners_by_type f) [
      | inl (at_v, _) ↦ sym at_u ∙ at_v
      | inr (_, old) ↦ absurd (omega (arith, new, h.in_range v a old))
    ]
    | inr (_, old_u) ↦ elim (insert_cases t v (length c.sets) a c.listeners_by_type f) [
      | inl (_, new) ↦ absurd (omega (arith, new, h.in_range u a old_u))
      | inr (_, old_v) ↦ h.separate u v a old_u old_v
    ]
  ];
}

listeners_at-new :
    (o : Option ℕ) (sets : List (List ℕ)) → listeners_at o (sets ++ [] ∷ []) ≡ listeners_at o sets
unfolding listeners_at
listeners_at-new none sets = refl
listeners_at-new (some a) sets = set_at-new a sets

listeners-with_set :
    (t u : Text) (c : Client)
    → lookup t c.listeners_by_type ≡ none
    → listeners u (with_set t c) ≡ listeners u c
unfolding listeners listeners_at with_set
listeners-with_set t u c e = elim (Bool-cases (t === u)) [
  | inl at ↦
      (let same : t ≡ u = (text_iff t u).0 at in
        let old : lookup u c.listeners_by_type ≡ none =
          subst (λ x. lookup x c.listeners_by_type ≡ none) same e in
        rw (lookup-insert t u (length c.sets) c.listeners_by_type) (
          rw at (
            rw old
              (set_at-new (length c.sets) c.sets ∙ set_at-beyond (length c.sets) c.sets refl))))
  | inr past ↦
      rw (lookup-insert t u (length c.sets) c.listeners_by_type)
        (rw past (listeners_at-new (lookup u c.listeners_by_type) c.sets))
]

ensure_set-Ensured :
    (t : Text) (o : Option ℕ) (c : Client)
    → lookup t c.listeners_by_type ≡ o
    → IsApart c
    → Ensured t c ((ensure_set t o c).0) ((ensure_set t o c).1)
unfolding ensure_set with_set
ensure_set-Ensured t (some a) c e h = record {
  known = e;
  apart = h;
  same_listeners = λ u. refl;
  same_sets = λ u b f. f;
}
ensure_set-Ensured t none c e h = record {
  known = ground (arith, lookup-insert t t (length c.sets) c.listeners_by_type, text_refl t);
  apart = with_set-IsApart t c h;
  same_listeners = λ u. listeners-with_set t u c e;
  same_sets = λ u b f. elim (Bool-cases (t === u)) [
    | inl at ↦ absurd (
        ground
          (arith, e, f, subst (λ x. lookup x c.listeners_by_type ≡ none) ((text_iff t u).0 at) e))
    | inr past ↦ ground (arith, lookup-insert t u (length c.sets) c.listeners_by_type, past, f)
  ];
}

-- A set that is registered is changed: the listeners of its type are, and those of no other.
pub listeners-update :
    (t u : Text) (a : ℕ) (f : List ℕ → List ℕ) (c : Client)
    → IsApart c
    → lookup t c.listeners_by_type ≡ some a
    → listeners u (record c { sets = update_at a f c.sets })
      ≡ (if t === u then f (listeners u c) else listeners u c)
unfolding listeners listeners_at
listeners-update t u a f c h e = elim (Bool-cases (t === u)) [
  | inl at ↦
      (let here : lookup u c.listeners_by_type ≡ some a =
          subst (λ x. lookup x c.listeners_by_type ≡ some a) ((text_iff t u).0 at) e in
        rw at (rw here (set_at-update a f c.sets (h.in_range t a e))))
  | inr past ↦ elim (Option-cases (lookup u c.listeners_by_type)) [
    | inl gone ↦ rw past (rw gone refl)
    | inr (b, there) ↦ rw past (
        rw there (
          set_at-update_other a b f c.sets (λ q. ground (
            arith,
            past,
            text_iff t u,
            h.separate t u a e (subst (λ x. lookup u c.listeners_by_type ≡ some x) (sym q) there),
          ))))
  ]
]

pub update-IsApart :
    (a : ℕ) (f : List ℕ → List ℕ) (c : Client)
    → IsApart c
    → IsApart (record c { sets = update_at a f c.sets })
update-IsApart a f c h = record {
  in_range = λ u b e. omega (arith, h.in_range u b e, length-update_at a f c.sets);
  separate = h.separate;
}
