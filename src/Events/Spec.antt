-- ===== src/Events/Spec.antt =====
-- What a client of src/events.ts promises: subscriptions, each with a token of its own, of which
-- those that have not been taken back are live, in the order in which they were made.
use ad4m_link_language_tests.Prelude.{
  Text, ℕ, suc, ◌≡◌, ◌≢◌, refl, sym, ap, subst, ◌∙◌, not, ◌==◌, ◌===◌, text_iff, Option, none, some,
  inl, inr, List, [], ◌∷◌, ◌++◌, filter, find?, All, All-append, arith, if◌then◌else◌, Bool-cases,
}
use ad4m_link_language_tests.Events.{Operation, sub, unsub, close, delete_listener}
use ad4m_link_language_tests.Events.Heap.{delete_listener-away}

pub record Subscription : Type 0 where
  pub token : ℕ
  pub event_type : Text
  pub handler : ℕ

pub record Subscriptions : Type 0 where
  pub next : ℕ
  pub live : List Subscription

-- The listeners of a type.
unfoldable pub handlers_of : Text → List Subscription → List ℕ
unfolding ◌===◌
handlers_of t [] = []
handlers_of t (s ∷ ss) =
    let rest = handlers_of t ss in if s.event_type === t then s.handler ∷ rest else rest

unfoldable pub without : ℕ → List Subscription → List Subscription
without i ss = filter (λ s. not (s.token == i)) ss

unfoldable pub find_token : ℕ → List Subscription → Option Subscription
find_token i ss = find? (λ s. s.token == i) ss

unfoldable pub promise : Operation → Subscriptions → Subscriptions
unfolding without
promise (sub t h) s = record {
  next = suc s.next;
  live = s.live ++ record { token = s.next; event_type = t; handler = h } ∷ [];
}
promise (unsub i) s = record s { live = without i s.live }
promise close s = record s { live = [] }

unfoldable pub promises : List Operation → Subscriptions → Subscriptions
unfolding promise
promises [] s = s
promises (o ∷ os) s = promises os (promise o s)

-- A listener subscribes to a type that it does not listen to yet, and a subscription is taken back
-- while it is live.
unfoldable pub IsFair : Operation → Subscriptions → Type 0
unfolding find_token handlers_of
IsFair (sub t h) s = All (λ k. k ≢ h) (handlers_of t s.live)
IsFair (unsub i) s = find_token i s.live ≢ none
IsFair close s = Unit

unfoldable pub AreFair : List Operation → Subscriptions → Type 0
unfolding IsFair promise
AreFair [] s = Unit
AreFair (o ∷ os) s = IsFair o s × AreFair os (promise o s)

-- Two subscriptions differ in their tokens, and in their listeners where they are to one type.
unfoldable pub Differ : Subscription → Subscription → Type 0
Differ s r = (s.token ≢ r.token) × (s.event_type ≡ r.event_type → s.handler ≢ r.handler)

unfoldable pub AreDistinct : List Subscription → Type 0
unfolding Differ
AreDistinct [] = Unit
AreDistinct (s ∷ ss) = All (Differ s) ss × AreDistinct ss

pub handlers_of-append :
    (t : Text) (ss rs : List Subscription)
    → handlers_of t (ss ++ rs) ≡ handlers_of t ss ++ handlers_of t rs
unfolding handlers_of
handlers_of-append t [] rs = refl
handlers_of-append t (s ∷ ss) rs = ground (arith, handlers_of-append t ss rs)

without_away : (i : ℕ) (ss : List Subscription) → All (λ s. s.token ≢ i) ss → without i ss ≡ ss
unfolding without
without_away i [] h = refl
without_away i (s ∷ ss) (p, h) = ground (arith, p, without_away i ss h)

tokens_away :
    (s : Subscription) (ss : List Subscription)
    → All (Differ s) ss
    → All (λ r. r.token ≢ s.token) ss
unfolding Differ
tokens_away s [] h = tt
tokens_away s (r ∷ ss) (p, h) = (λ e. p.0 (sym e), tokens_away s ss h)

handlers_away :
    (s : Subscription) (ss : List Subscription)
    → All (Differ s) ss
    → All (λ k. k ≢ s.handler) (handlers_of s.event_type ss)
unfolding Differ handlers_of
handlers_away s [] h = tt
handlers_away s (r ∷ ss) (p, h) = elim (Bool-cases (r.event_type === s.event_type)) [
  | inl e ↦
      rw e (λ q. p.1 (sym ((text_iff r.event_type s.event_type).0 e)) (sym q), handlers_away s ss h)
  | inr e ↦ rw e (handlers_away s ss h)
]

-- The token that is found and the listener under it.
find_token-Differ :
    (i : ℕ) (s x : Subscription) (ss : List Subscription)
    → All (Differ s) ss
    → find_token i ss ≡ some x
    → Differ s x × (x.token ≡ i)
unfolding find_token
find_token-Differ i s x [] h e = absurd (ground (arith, e))
find_token-Differ i s x (r ∷ ss) (p, h) e = elim (Bool-cases (r.token == i)) [
  | inl at ↦
      (let same : r ≡ x = ground (arith, at, e) in
        subst (λ y. Differ s y × (y.token ≡ i)) same (p, ground (arith, at)))
  | inr past ↦ find_token-Differ i s x ss h (ground (arith, past, e))
]

without_head :
    (s : Subscription) (ss : List Subscription) → All (Differ s) ss → without s.token (s ∷ ss) ≡ ss
unfolding without
without_head s ss away = ground (arith, without_away s.token ss (tokens_away s ss away))

handlers_of-head :
    (t : Text) (s : Subscription) (ss : List Subscription)
    → All (Differ s) ss
    → handlers_of t ss ≡ (
        if s.event_type === t
        then delete_listener s.handler (handlers_of t (s ∷ ss))
        else handlers_of t (s ∷ ss))
unfolding handlers_of delete_listener
handlers_of-head t s ss away = elim (Bool-cases (s.event_type === t)) [
  | inr e ↦ ground (arith, e)
  | inl e ↦
      (let same : s.event_type ≡ t = (text_iff s.event_type t).0 e in
        let free : delete_listener s.handler (handlers_of t ss) ≡ handlers_of t ss =
          delete_listener-away s.handler (handlers_of t ss) (
            subst (λ u. All (λ k. k ≢ s.handler) (handlers_of u ss)) same
              (handlers_away s ss away)) in
        ground (arith, e, free))
]

handlers_of-tail :
    (t : Text) (s x : Subscription) (rest kept : List Subscription)
    → Differ s x
    → handlers_of t kept ≡ (
        if x.event_type === t
        then delete_listener x.handler (handlers_of t rest)
        else handlers_of t rest)
    → handlers_of t (s ∷ kept) ≡ (
        if x.event_type === t
        then delete_listener x.handler (handlers_of t (s ∷ rest))
        else handlers_of t (s ∷ rest))
unfolding handlers_of delete_listener Differ
handlers_of-tail t s x rest kept (_, apart) h = elim (Bool-cases (s.event_type === t)) [
  | inr e ↦ ground (arith, e, h)
  | inl e ↦ elim (Bool-cases (x.event_type === t)) [
    | inr f ↦ ground (arith, e, f, h)
    | inl f ↦
        (let differ : s.handler ≢ x.handler =
            apart ((text_iff s.event_type t).0 e ∙ sym ((text_iff x.event_type t).0 f)) in
          ground (arith, e, f, h, differ))
  ]
]

-- Taking a live subscription back takes its listener from its type, and from no other.
pub handlers_of-without :
    (t : Text) (i : ℕ) (x : Subscription) (ss : List Subscription)
    → AreDistinct ss
    → find_token i ss ≡ some x
    → handlers_of t (without i ss) ≡ (
        if x.event_type === t
        then delete_listener x.handler (handlers_of t ss)
        else handlers_of t ss)
unfolding AreDistinct
handlers_of-without t i x [] d e = absurd (unfold find_token in ground (arith, e))
handlers_of-without t i x (s ∷ ss) (away, d) e = elim (Bool-cases (s.token == i)) [
  | inl at ↦
      (let same : s ≡ x = unfold find_token in ground (arith, at, e) in
        let token : s.token ≡ i = ground (arith, at) in
        subst
          (λ j. handlers_of t (without j (s ∷ ss)) ≡ (
            if x.event_type === t
            then delete_listener x.handler (handlers_of t (s ∷ ss))
            else handlers_of t (s ∷ ss)))
          token
          (ap (handlers_of t) (without_head s ss away)
            ∙ subst
                (λ y. handlers_of t ss ≡ (
                  if y.event_type === t
                  then delete_listener y.handler (handlers_of t (s ∷ ss))
                  else handlers_of t (s ∷ ss)))
                same (handlers_of-head t s ss away)))
  | inr past ↦
      (let found : find_token i ss ≡ some x = unfold find_token in ground (arith, past, e) in
        let kept : without i (s ∷ ss) ≡ s ∷ without i ss = unfold without in ground (arith, past) in
        rw kept (
          handlers_of-tail t s x ss (without i ss) ((find_token-Differ i s x ss away found).0)
            (handlers_of-without t i x ss d found)))
]

pub without-All :
    (P : Subscription → Type 0) (i : ℕ) (ss : List Subscription) → All P ss → All P (without i ss)
unfolding without
without-All P i [] h = tt
without-All P i (s ∷ ss) (p, h) = elim (Bool-cases (s.token == i)) [
  | inl e ↦ rw e (without-All P i ss h)
  | inr e ↦ rw e (p, without-All P i ss h)
]

pub without-AreDistinct :
    (i : ℕ) (ss : List Subscription) → AreDistinct ss → AreDistinct (without i ss)
unfolding AreDistinct without
without-AreDistinct i [] d = tt
without-AreDistinct i (s ∷ ss) (away, d) = elim (Bool-cases (s.token == i)) [
  | inl e ↦ rw e (without-AreDistinct i ss d)
  | inr e ↦ rw e (without-All (Differ s) i ss away, without-AreDistinct i ss d)
]

pub AreDistinct-snoc :
    (ss : List Subscription) (x : Subscription)
    → AreDistinct ss
    → All (λ s. Differ s x) ss
    → AreDistinct (ss ++ x ∷ [])
unfolding AreDistinct
AreDistinct-snoc [] x d h = (tt, tt)
AreDistinct-snoc (s ∷ ss) x (away, d) (p, h) =
    (All-append (Differ s) ss (x ∷ []) away (p, tt), AreDistinct-snoc ss x d h)
