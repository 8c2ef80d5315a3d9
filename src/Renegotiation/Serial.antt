-- ===== src/Renegotiation/Serial.antt =====
-- src/renegotiation.ts: every offer is answered once, in the order of arrival.
use ad4m_link_language_tests.Prelude.{
  Text, suc, ◌+◌, Bool, true, false, Bool-cases, inl, inr, Option, none, some, List, [], ◌∷◌, ◌++◌,
  if◌then◌else◌, arith, ◌≡◌, refl, sym, ap, ◌∙◌, length, append_assoc, append-nil, length-append,
  subst,
}
use ad4m_link_language_tests.Prelude.Outcome.{Outcome, returned, threw}
use ad4m_link_language_tests.Renegotiation.{
  EventFrame, Config, Backend, Wire, fresh, matches, negotiate, count, apply_text, apply_offer,
  Event, arrives, works, detaches, work, step, run, drain, detach,
}

text_of : Option Text → List Text
text_of none = []
text_of (some sdp) = sdp ∷ []

-- The offer of a frame that is for this room.
offer_of : Config → EventFrame → List Text
unfolding text_of
offer_of cfg f = if matches cfg f then text_of f.sdp_offer else []

-- The offers for this room among the frames.
pub offers : Config → List EventFrame → List Text
unfolding offer_of
offers cfg [] = []
offers cfg (f ∷ fs) = offer_of cfg f ++ offers cfg fs

answer_of : Outcome Text → List Text
answer_of (returned a) = a ∷ []
answer_of (threw e) = []

-- The answers to those offers that are answered.
pub answers : Backend → List Text → List Text
unfolding answer_of
answers b [] = []
answers b (sdp ∷ sdps) = answer_of (negotiate b sdp) ++ answers b sdps

answers-append :
    (b : Backend) (xs ys : List Text) → answers b (xs ++ ys) ≡ answers b xs ++ answers b ys
unfolding answers
answers-append b [] ys = refl
answers-append b (x ∷ xs) ys =
    rw (answers-append b xs ys) (sym (append_assoc (answer_of (negotiate b x)) _ _))

-- The frames that arrive before the listener is taken off.
pub heard : Bool → List Event → List EventFrame
heard listening [] = []
heard listening (arrives f ∷ es) =
    let rest = heard listening es in if listening then f ∷ rest else rest
heard listening (works ∷ es) = heard listening es
heard listening (detaches ∷ es) = heard false es

module _ (cfg : Config) (b : Backend) (quiet : b.on_renegotiated ≡ returned tt) where
  -- From `w` on, the wire has settled these offers and come to `w'`.
  record HasSettled (w : Wire) (sdps : List Text) (w' : Wire) : Type 0 where
    counted : w'.applied + w'.failed ≡ w.applied + w.failed + length sdps
    posts : w'.posted ≡ w.posted ++ answers b sdps
    applies : w'.applied + length w.posted ≡ w.applied + length w'.posted

  count-HasSettled :
      (o : Outcome Text) (w : Wire)
      → ((count b o w).applied + (count b o w).failed ≡ suc (w.applied + w.failed))
        × ((count b o w).posted ≡ w.posted ++ answer_of o)
        × ((count b o w).applied + length w.posted ≡ w.applied + length (count b o w).posted)
        × ((count b o w).queue ≡ w.queue)
        × ((count b o w).listening ≡ w.listening)
  unfolding count answer_of
  count-HasSettled (threw e) w = (omega arith, sym (append-nil w.posted), refl, refl, refl)
  count-HasSettled (returned a) w =
      rw quiet (omega arith, refl, omega (arith, length-append w.posted (a ∷ [])), refl, refl)

  HasSettled-none : (w : Wire) → HasSettled w [] w
  unfolding answers
  HasSettled-none w = record {
    counted = omega arith;
    posts = sym (append-nil w.posted);
    applies = refl;
  }

  HasSettled-trans :
      (u v w : Wire) (xs ys : List Text)
      → HasSettled u xs v
      → HasSettled v ys w
      → HasSettled u (xs ++ ys) w
  HasSettled-trans u v w xs ys h k = record {
    counted = omega (arith, h.counted, k.counted, length-append xs ys);
    posts =
        k.posts
        ∙ ap (λ l. l ++ answers b ys) h.posts
        ∙ append_assoc u.posted (answers b xs) (answers b ys)
        ∙ ap (λ l. u.posted ++ l) (sym (answers-append b xs ys));
    applies = omega (arith, h.applies, k.applies);
  }

  -- Settling an offer leaves the queue and the listener alone.
  apply_text-HasSettled :
      (o : Option Text) (w : Wire)
      → HasSettled w (text_of o) (apply_text b o w)
        × ((apply_text b o w).queue ≡ w.queue)
        × ((apply_text b o w).listening ≡ w.listening)
  unfolding apply_text text_of answers
  apply_text-HasSettled none w = (HasSettled-none w, refl, refl)
  apply_text-HasSettled (some sdp) w =
      let (counted, posts, applies, queue, listening) = count-HasSettled (negotiate b sdp) w in
      (
        record {
          counted = omega (arith, counted);
          posts = rw (append-nil (answer_of (negotiate b sdp))) posts;
          applies = applies;
        },
        queue,
        listening,
      )

  apply_offer-HasSettled :
      (f : EventFrame) (w : Wire)
      → HasSettled w (offer_of cfg f) (apply_offer cfg b f w)
        × ((apply_offer cfg b f w).queue ≡ w.queue)
        × ((apply_offer cfg b f w).listening ≡ w.listening)
  unfolding apply_offer offer_of
  apply_offer-HasSettled f w = elim (Bool-cases (matches cfg f)) [
    | inr other ↦ rw other (HasSettled-none w, refl, refl)
    | inl ours ↦ rw ours (apply_text-HasSettled f.sdp_offer w)
  ]

  drain-HasSettled :
      (fs : List EventFrame) (w : Wire) → HasSettled w (offers cfg fs) (drain cfg b fs w)
  unfolding drain offers
  drain-HasSettled [] w = HasSettled-none w
  drain-HasSettled (f ∷ fs) w =
      let (one, _, _) = apply_offer-HasSettled f (record w { queue = fs }) in
      let first : HasSettled w (offer_of cfg f) (apply_offer cfg b f (record w { queue = fs })) =
        record { counted = one.counted; posts = one.posts; applies = one.applies } in
      HasSettled-trans w _ _ (offer_of cfg f) (offers cfg fs) first (drain-HasSettled fs _)

  with_queue : Bool → List EventFrame → Wire → Wire
  with_queue l q w = record w { listening = l; queue = q }

  run-HasSettled :
      (es : List Event) (l : Bool) (q : List EventFrame) (w : Wire)
      → HasSettled w (offers cfg (q ++ heard l es)) (detach cfg b (run cfg b es (with_queue l q w)))
  unfolding run step work heard with_queue offers
  run-HasSettled [] l q w =
      let h = drain-HasSettled q (record w { listening = false; queue = q }) in
      rw (append-nil q)
        (unfold detach in record { counted = h.counted; posts = h.posts; applies = h.applies })
  run-HasSettled (arrives f ∷ es) true q w =
      rw (← append_assoc q (f ∷ []) (heard true es)) (run-HasSettled es true (q ++ f ∷ []) w)
  run-HasSettled (arrives f ∷ es) false q w = run-HasSettled es false q w
  run-HasSettled (works ∷ es) l [] w = run-HasSettled es l [] w
  run-HasSettled (works ∷ es) l (f ∷ fs) w =
      let u = record w { listening = l; queue = fs } in
      let v = apply_offer cfg b f u in
      let (one, queue, listening) = apply_offer-HasSettled f u in
      let first : HasSettled w (offer_of cfg f) v = record {
        counted = one.counted;
        posts = one.posts;
        applies = one.applies;
      } in
      let same : with_queue l fs v ≡ v =
        λ i. record v { listening = sym listening i; queue = sym queue i } in
      let rest = run-HasSettled es l fs v in
      HasSettled-trans w v _ (offer_of cfg f) (offers cfg (fs ++ heard l es)) first (
        subst (λ x. HasSettled v (offers cfg (fs ++ heard l es)) (detach cfg b (run cfg b es x)))
          same rest)
  run-HasSettled (detaches ∷ es) l q w = run-HasSettled es false q w

  -- Whenever frames arrive, are worked off and the listener is taken off, and the callback does not
  -- throw: once `detach` has drained the queue, the renegotiations applied and those failed add up
  -- to the offers for this room that were heard, and the answers posted are those to the offers that
  -- could be answered, in the order of arrival, as many as were applied.
  pub detach-offers :
      (es : List Event)
      → let w = detach cfg b (run cfg b es fresh) in
        let sdps = offers cfg (heard true es) in
        (w.applied + w.failed ≡ length sdps)
        × (w.posted ≡ answers b sdps)
        × (w.applied ≡ length (answers b sdps))
  unfolding with_queue
  detach-offers es =
      let h = run-HasSettled es true [] fresh in
      (
        omega (arith, h.counted),
        h.posts,
        (let posted = ap length h.posts in omega (arith, h.applies, posted)),
      )
