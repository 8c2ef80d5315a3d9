-- ===== src/Events/Refines/Kept.antt =====
-- src/events.ts: a subscription keeps the client and what is promised of it together.
pub mod Dropped
pub mod Runs
use ad4m_link_language_tests.Prelude.{
  Text, Dict, ℕ, zero, suc, ◌+◌, ◌<◌, ◌≡◌, ◌≢◌, refl, sym, ap, subst, ◌∙◌, Bool, true, false, not,
  ◌===◌, ◌==◌, text_iff, text_refl, Option, none, some, inl, inr, List, [], ◌∷◌, ◌++◌, length,
  length-append, get_elem?, get_elem?-left, get_elem?-last, find?-All, lookup, remove,
  lookup-remove, All, All-append, All-mono, All-both, append-nil, arith, if◌then◌else◌, Bool-cases,
  Option-cases,
}
use ad4m_link_language_tests.Events.{
  Client, Off, Operation, sub, unsub, close, Session, ensure_set, subscribe, on, drop_type, off,
  disconnect, listeners_at, listeners, add_listener, delete_listener, set_at, update_at, call_off,
  step, run, start, fresh, on_message, typed,
}
use ad4m_link_language_tests.Events.Heap.{add_listener-new}
use ad4m_link_language_tests.Events.Spec.{
  Subscription, Subscriptions, handlers_of, without, find_token, promise, promises, IsFair, AreFair,
  Differ, AreDistinct, handlers_of-append, handlers_of-without, without-All, without-AreDistinct,
  AreDistinct-snoc,
}
use ad4m_link_language_tests.Events.Refines.{
  IsApart, Ensured, ensure_set-Ensured, listeners-update, update-IsApart,
}

-- The function that was returned for a live subscription, and the set that is registered.
unfoldable pub IsHeld : List Off → Client → Subscription → Type 0
IsHeld offs c x =
    (a : ℕ) × (get_elem? offs x.token
      ≡ some (record { event_type = x.event_type; set = a; handler = x.handler }))
    × (lookup x.event_type c.listeners_by_type ≡ some a)

pub record IsKept (s : Session) (p : Subscriptions) : Type 0 where
  pub apart : IsApart s.client
  pub served : (t : Text) → listeners t s.client ≡ handlers_of t p.live
  pub counted : length s.offs ≡ p.next
  pub below : All (λ x. x.token < p.next) p.live
  pub held : All (IsHeld s.offs s.client) p.live
  pub distinct : AreDistinct p.live

-- A listener that is not among those of a type is none of its subscriptions'.
handlers_apart :
    (t : Text) (h : ℕ) (ss : List Subscription)
    → All (λ k. k ≢ h) (handlers_of t ss)
    → All (λ s. s.event_type ≡ t → s.handler ≢ h) ss
unfolding handlers_of
handlers_apart t h [] a = tt
handlers_apart t h (s ∷ ss) a = elim (Bool-cases (s.event_type === t)) [
  | inl e ↦ (let b = rw e at a in (λ _. b.0, handlers_apart t h ss (b.1)))
  | inr e ↦ (
    λ q. absurd (ground (arith, e, text_iff s.event_type t, q)),
    handlers_apart t h ss (rw e at a),
  )
]

abbrev newcomer : ℕ → Text → ℕ → Subscription
newcomer i t h = record { token = i; event_type = t; handler = h }

sub-distinct :
    (t : Text) (h i : ℕ) (ss : List Subscription)
    → All (λ x. x.token < i) ss
    → All (λ k. k ≢ h) (handlers_of t ss)
    → AreDistinct ss
    → AreDistinct (ss ++ newcomer i t h ∷ [])
unfolding Differ
sub-distinct t h i ss below new d =
    let facts =
      All-both (λ x. x.token < i) (λ s. s.event_type ≡ t → s.handler ≢ h) ss below
        (handlers_apart t h ss new) in
    AreDistinct-snoc ss (newcomer i t h) d (
      All-mono (λ s. (s.token < i) × (s.event_type ≡ t → s.handler ≢ h))
        (λ s. Differ s (newcomer i t h)) ss
        (λ s (lt, apart). (λ e. absurd (omega (arith, lt, e)), apart)) facts)

sub-served :
    (t u : Text) (h i : ℕ) (ss : List Subscription)
    → All (λ k. k ≢ h) (handlers_of t ss)
    → (if t === u then add_listener h (handlers_of u ss) else handlers_of u ss)
      ≡ handlers_of u (ss ++ newcomer i t h ∷ [])
unfolding handlers_of
sub-served t u h i ss new = elim (Bool-cases (t === u)) [
  | inl e ↦
      (let same : t ≡ u = (text_iff t u).0 e in
        let last =
          add_listener-new h (handlers_of u ss)
            (subst (λ x. All (λ k. k ≢ h) (handlers_of x ss)) same new) in
        ground (arith, e, last, handlers_of-append u ss (newcomer i t h ∷ [])))
  | inr e ↦
      ground
        (arith, e, handlers_of-append u ss (newcomer i t h ∷ []), append-nil (handlers_of u ss))
]

sub-IsHeld :
    (t : Text) (h i a : ℕ) (offs : List Off) (c c' : Client) (ss : List Subscription)
    → length offs ≡ i
    → lookup t c'.listeners_by_type ≡ some a
    → ((u : Text) (b : ℕ)
        → lookup u c.listeners_by_type ≡ some b
        → lookup u c'.listeners_by_type ≡ some b)
    → All (IsHeld offs c) ss
    → All
        (IsHeld (offs ++ record { event_type = t; set = a; handler = h } ∷ []) c')
        (ss ++ newcomer i t h ∷ [])
unfolding IsHeld
sub-IsHeld t h i a offs c c' ss counted known kept held =
    let o : Off = record { event_type = t; set = a; handler = h } in
    All-append (IsHeld (offs ++ o ∷ []) c') ss (newcomer i t h ∷ [])
      (All-mono (IsHeld offs c) (IsHeld (offs ++ o ∷ []) c') ss
        (λ x (b, at, there).
          (b, get_elem?-left offs (o ∷ []) x.token _ at, kept x.event_type b there))
        held)
      (
        (
          a,
          subst (λ n. get_elem? (offs ++ o ∷ []) n ≡ some o) counted (get_elem?-last offs o),
          known,
        ),
        tt,
      )

pub sub-IsKept :
    (t : Text) (h : ℕ) (s : Session) (p : Subscriptions)
    → IsFair (sub t h) p
    → IsKept s p
    → IsKept (step (sub t h) s) (promise (sub t h) p)
unfolding step on subscribe promise IsFair listeners
sub-IsKept t h s p new k =
    let o = lookup t s.client.listeners_by_type in
    let e = ensure_set-Ensured t o s.client refl k.apart in
    let a = (ensure_set t o s.client).0 in
    let c = (ensure_set t o s.client).1 in
    record {
      apart = update-IsApart a (add_listener h) c e.apart;
      served = λ u.
          listeners-update t u a (add_listener h) c e.apart e.known
          ∙ ap (λ l. if t === u then add_listener h l else l) (e.same_listeners u ∙ k.served u)
          ∙ sub-served t u h p.next p.live new;
      counted = omega (
        arith,
        k.counted,
        length-append s.offs (record { event_type = t; set = a; handler = h } ∷ []),
      );
      below =
          All-append (λ x. x.token < suc p.next) p.live (newcomer p.next t h ∷ [])
            (All-mono (λ x. x.token < p.next) (λ x. x.token < suc p.next) p.live
              (λ x lt. omega (arith, lt)) k.below)
            (omega arith, tt);
      held =
          sub-IsHeld t h p.next a s.offs s.client
            (record c { sets = update_at a (add_listener h) c.sets }) p.live k.counted e.known
            e.same_sets k.held;
      distinct = sub-distinct t h p.next p.live k.below new k.distinct;
    }
