-- ===== src/Events/Refines/Kept/Dropped.antt =====
-- src/events.ts: the end of a subscription, which may leave its set empty and its type forgotten.
use ad4m_link_language_tests.Prelude.{
  Text, Dict, ℕ, ◌<◌, ◌≡◌, ◌≢◌, refl, sym, ap, subst, ◌∙◌, ◌===◌, ◌==◌, text_iff, text_refl, some,
  inl, inr, List, [], ◌∷◌, find?-All, lookup, lookup-remove, All, All-mono, All-both, arith,
  if◌then◌else◌, Bool-cases, Option-cases,
}
use ad4m_link_language_tests.Events.{
  Client, unsub, Session, drop_type, off, listeners_at, listeners, delete_listener, set_at,
  update_at, call_off, step,
}
use ad4m_link_language_tests.Events.Spec.{
  Subscription, Subscriptions, handlers_of, without, find_token, promise, IsFair,
  handlers_of-without, without-All, without-AreDistinct,
}
use ad4m_link_language_tests.Events.Refines.{IsApart, listeners-update, update-IsApart}
use ad4m_link_language_tests.Events.Refines.Kept.{IsHeld, IsKept}

-- The set `a` of the type `t` stays as it is, and is forgotten if it is empty.
dropped : Text → ℕ → Client → Client
unfolding drop_type
dropped t a c = record c { listeners_by_type = drop_type t (set_at a c.sets) c.listeners_by_type }

drop_cases :
    (t u : Text) (set : List ℕ) (m : Dict ℕ) (b : ℕ)
    → lookup u (drop_type t set m) ≡ some b
    → lookup u m ≡ some b
unfolding drop_type
drop_cases t u [] m b e = elim (Bool-cases (t === u)) [
  | inl at ↦ absurd (ground (arith, lookup-remove t u m, at, e))
  | inr past ↦ ground (arith, lookup-remove t u m, past, e)
]
drop_cases t u (h ∷ set) m b e = e

drop_kept :
    (t u : Text) (set : List ℕ) (m : Dict ℕ) (b : ℕ)
    → (t ≡ u → set ≢ [])
    → lookup u m ≡ some b
    → lookup u (drop_type t set m) ≡ some b
unfolding drop_type
drop_kept t u [] m b h e = elim (Bool-cases (t === u)) [
  | inl at ↦ absurd (h ((text_iff t u).0 at) refl)
  | inr past ↦ ground (arith, lookup-remove t u m, past, e)
]
drop_kept t u (k ∷ set) m b h e = e

dropped-IsApart : (t : Text) (a : ℕ) (c : Client) → IsApart c → IsApart (dropped t a c)
unfolding dropped
dropped-IsApart t a c h = record {
  in_range = λ u b e. h.in_range u b (drop_cases t u (set_at a c.sets) c.listeners_by_type b e);
  separate = λ u v b e f.
      h.separate u v b (drop_cases t u (set_at a c.sets) c.listeners_by_type b e)
        (drop_cases t v (set_at a c.sets) c.listeners_by_type b f);
}

drop-listeners :
    (t u : Text) (a : ℕ) (set : List ℕ) (c : Client)
    → set_at a c.sets ≡ set
    → lookup t c.listeners_by_type ≡ some a
    → listeners_at (lookup u (drop_type t set c.listeners_by_type)) c.sets ≡ listeners u c
unfolding drop_type listeners listeners_at
drop-listeners t u a [] c e known = elim (Bool-cases (t === u)) [
  | inl at ↦
      (let here : lookup u c.listeners_by_type ≡ some a =
          subst (λ x. lookup x c.listeners_by_type ≡ some a) ((text_iff t u).0 at) known in
        rw (lookup-remove t u c.listeners_by_type) (rw at (rw here (sym e))))
  | inr past ↦ rw (lookup-remove t u c.listeners_by_type) (rw past refl)
]
drop-listeners t u a (h ∷ set) c e known = refl

more_handlers :
    (t : Text) (s : Subscription) (ss : List Subscription)
    → handlers_of t ss ≢ []
    → handlers_of t (s ∷ ss) ≢ []
unfolding handlers_of
more_handlers t s ss h e = elim (Bool-cases (s.event_type === t)) [
  | inl b ↦ ground (arith, b, e)
  | inr b ↦ h (ground (arith, b, e))
]

-- A live subscription's type has a listener.
handlers_of-here : (ss : List Subscription) → All (λ x. handlers_of x.event_type ss ≢ []) ss
unfolding handlers_of
handlers_of-here [] = tt
handlers_of-here (s ∷ ss) = (
  λ e. ground (arith, text_refl s.event_type, e),
  All-mono (λ x. handlers_of x.event_type ss ≢ []) (λ x. handlers_of x.event_type (s ∷ ss) ≢ []) ss
      (λ x h. more_handlers x.event_type s ss h) (handlers_of-here ss),
)

find_token-token :
    (i : ℕ) (ss : List Subscription) (x : Subscription) → find_token i ss ≡ some x → x.token ≡ i
unfolding find_token
find_token-token i [] x e = absurd (ground (arith, e))
find_token-token i (s ∷ ss) x e = elim (Bool-cases (s.token == i)) [
  | inl at ↦
      (let same : s ≡ x = ground (arith, at, e) in
        subst (λ y. y.token ≡ i) same (ground (arith, at)))
  | inr past ↦ find_token-token i ss x (ground (arith, past, e))
]

listeners-known :
    (t : Text) (a : ℕ) (c : Client)
    → lookup t c.listeners_by_type ≡ some a
    → listeners t c ≡ set_at a c.sets
unfolding listeners listeners_at
listeners-known t a c e = rw e refl

module _ (s : Session) (p : Subscriptions) (k : IsKept s p) (x : Subscription) (a : ℕ)
    (found : find_token x.token p.live ≡ some x)
    (known : lookup x.event_type s.client.listeners_by_type ≡ some a) where
  abbrev shrunk : Client
  shrunk = record s.client { sets = update_at a (delete_listener x.handler) s.client.sets }

  shrunk-served : (u : Text) → listeners u shrunk ≡ handlers_of u (without x.token p.live)
  shrunk-served u =
      listeners-update x.event_type u a (delete_listener x.handler) s.client k.apart known
      ∙ ap (λ l. if x.event_type === u then delete_listener x.handler l else l) (k.served u)
      ∙ sym (handlers_of-without u x.token x p.live k.distinct found)

  off-IsHeld : All (IsHeld s.offs (dropped x.event_type a shrunk)) (without x.token p.live)
  unfolding IsHeld dropped
  off-IsHeld =
      let rest = without x.token p.live in
      let set = set_at a shrunk.sets in
      All-mono (λ y. IsHeld s.offs s.client y × (handlers_of y.event_type rest ≢ []))
        (IsHeld s.offs (dropped x.event_type a shrunk)) rest
        (λ y ((b, at, there), busy). (
          b,
          at,
          drop_kept x.event_type y.event_type set s.client.listeners_by_type b
              (λ same empty. busy (
                sym (shrunk-served y.event_type)
                ∙ listeners-known y.event_type a shrunk
                    (subst (λ t. lookup t s.client.listeners_by_type ≡ some a) same known)
                ∙ empty))
              there,
        ))
        (All-both (IsHeld s.offs s.client) (λ y. handlers_of y.event_type rest ≢ []) rest
          (without-All (IsHeld s.offs s.client) x.token p.live k.held) (handlers_of-here rest))

  off-IsKept :
      IsKept (record s { client = dropped x.event_type a shrunk }) (promise (unsub x.token) p)
  unfolding promise listeners dropped
  off-IsKept = record {
    apart =
        dropped-IsApart x.event_type a shrunk
          (update-IsApart a (delete_listener x.handler) s.client k.apart);
    served = λ u.
        drop-listeners x.event_type u a (set_at a shrunk.sets) shrunk refl known ∙ shrunk-served u;
    counted = k.counted;
    below = without-All (λ y. y.token < p.next) x.token p.live k.below;
    held = off-IsHeld;
    distinct = without-AreDistinct x.token p.live k.distinct;
  }

unsub_here :
    (s : Session) (p : Subscriptions) (x : Subscription)
    → find_token x.token p.live ≡ some x
    → IsKept s p
    → IsKept (step (unsub x.token) s) (promise (unsub x.token) p)
unfolding IsHeld find_token step call_off off dropped
unsub_here s p x found k =
    let (a, at, known) =
      find?-All (IsHeld s.offs s.client) (λ y. y.token == x.token) p.live x k.held found in
    rw at (off-IsKept s p k x a found known)

pub unsub-IsKept :
    (i : ℕ) (s : Session) (p : Subscriptions)
    → IsFair (unsub i) p
    → IsKept s p
    → IsKept (step (unsub i) s) (promise (unsub i) p)
unfolding IsFair
unsub-IsKept i s p fair k = elim (Option-cases (find_token i p.live)) [
  | inl gone ↦ absurd (fair gone)
  | inr (x, found) ↦
      (let token = find_token-token i p.live x found in
        subst (λ j. IsKept (step (unsub j) s) (promise (unsub j) p)) token
          (unsub_here s p x (subst (λ j. find_token j p.live ≡ some x) (sym token) found) k))
]
