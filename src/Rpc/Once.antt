-- ===== src/Rpc/Once.antt =====
-- Every promise that `wsCall` returns is settled at most once, by the answer to its own request.
use ad4m_link_language_tests.Prelude.{
  Text, ℕ, suc, ◌+◌, ◌≤◌, ◌≡◌, refl, ◌&&◌, leb, ◌==◌, Option, none, some, List, [], ◌∷◌, ◌++◌, map,
  arith, decimal, decimal_inj, lookup, ◌===◌, text_iff, ◌≢◌, if◌then◌else◌, inl, inr, Option-cases,
  Bool-cases, str,
}
use ad4m_link_language_tests.Rpc.{
  Client, Event, Message, Outcome, connect, opened, failed, disconnect, close, message, timeout,
  call, fresh, take_pending, on_id, outcome_of, on_message, is_open, ws_call, step, run, rejected,
  resolved, RpcError, error_text,
}
use ad4m_link_language_tests.Rpc.Pending.{
  times_pending, times_settled, IsKeyed, times_settled-append, times_settled-map, lookup-IsKeyed,
  times_pending-insert, insert-IsKeyed, times_pending_of_absent, remove-IsKeyed,
  times_pending-remove,
}

-- Whether `wsCall` has returned promise `n`, as 0 or 1.
abbrev pub issued : ℕ → ℕ → ℕ
issued n r = if leb 1 n && leb n r then 1 else 0

module _ {V : Type 0} where
  pub record IsSound (c : Client V) : Type 0 where
    pub keyed : IsKeyed c.pending
    pub accounted :
        (n : ℕ) → times_settled n c.settled + times_pending n c.pending ≡ issued n c.request_id

  fresh-IsSound : IsSound (fresh {V = V})
  unfolding fresh times_settled times_pending
  fresh-IsSound = record { keyed = tt; accounted = λ n. ground arith }

  take_pending-IsSound :
      (id : Text) (found : Option ℕ) (o : Outcome V) (c : Client V)
      → lookup id c.pending ≡ found
      → IsSound c
      → IsSound (take_pending id found o c)
  unfolding take_pending times_settled
  take_pending-IsSound id none o c e h = h
  take_pending-IsSound id (some v) o c e h =
      let (key, held) = lookup-IsKeyed id v c.pending h.keyed e in
      record {
        keyed = remove-IsKeyed id c.pending h.keyed;
        accounted = λ n. rw key (
            ground (
              arith,
              times_settled-append n c.settled ((v, o) ∷ []),
              times_pending-remove n v c.pending h.keyed,
              h.accounted n,
            ));
      }

  lookup_next : (c : Client V) → IsSound c → lookup (decimal (suc c.request_id)) c.pending ≡ none
  lookup_next c h = elim (Option-cases (lookup (decimal (suc c.request_id)) c.pending)) [
    | inl absent ↦ absent
    | inr (v, found) ↦
        let (key, held) = lookup-IsKeyed _ v c.pending h.keyed found in
        absurd (ground (arith, decimal_inj (suc c.request_id) v key, h.accounted v))
  ]

  on_id-IsSound :
      (id : Option Text) (m : Message V) (c : Client V) → IsSound c → IsSound (on_id id m c)
  unfolding on_id
  on_id-IsSound none m c h = h
  on_id-IsSound (some id) m c h = take_pending-IsSound id _ _ c refl h

  ws_call-IsSound :
      (method : Text) (params : V) (c : Client V) → IsSound c → IsSound (ws_call method params c).0
  unfolding ws_call
  ws_call-IsSound method params c h = elim (Bool-cases (is_open c.socket)) [
    | inr shut ↦ rw shut h
    | inl live ↦ rw live (record {
      keyed = insert-IsKeyed (suc c.request_id) c.pending h.keyed;
      accounted = λ n. ground (
        arith,
        times_pending-insert n (suc c.request_id) _ c.pending (lookup_next c h),
        h.accounted n,
      );
    })
  ]

  step-IsSound : (e : Event V) (c : Client V) → IsSound c → IsSound (step e c)
  unfolding step times_settled times_pending
  step-IsSound connect c h = record { keyed = h.keyed; accounted = h.accounted }
  step-IsSound opened c h = record { keyed = h.keyed; accounted = h.accounted }
  step-IsSound failed c h = h
  step-IsSound disconnect c h = record { keyed = h.keyed; accounted = h.accounted }
  step-IsSound close c h = record {
    keyed = tt;
    accounted = λ n. ground (
      arith,
      times_settled-append n c.settled
          (map (λ e. (e.1, rejected (str "WebSocket closed"))) c.pending),
      times_settled-map {O = Outcome V} n (rejected (str "WebSocket closed")) c.pending,
      h.accounted n,
    );
  }
  step-IsSound (message none) c h = h
  step-IsSound (message (some m)) c h = on_id-IsSound m.id m c h
  step-IsSound (timeout n method) c h = take_pending-IsSound (decimal n) _ _ c refl h
  step-IsSound (call method params) c h = ws_call-IsSound method params c h

  run-IsSound : (es : List (Event V)) (c : Client V) → IsSound c → IsSound (run es c)
  unfolding run
  run-IsSound [] c h = h
  run-IsSound (e ∷ es) c h = run-IsSound es (step e c) (step-IsSound e c h)

  take_pending_lem :
      (n : ℕ) (o : Outcome V) (c : Client V)
      → IsSound c
      → 1 ≤ n
      → n ≤ c.request_id
      → (take_pending (decimal n) (lookup (decimal n) c.pending) o c).settled
        ≡ (if times_settled n c.settled == 0 then c.settled ++ (n, o) ∷ [] else c.settled)
  take_pending_lem n o c h lo hi = elim (Option-cases (lookup (decimal n) c.pending)) [
    | inl absent ↦
        let gone = times_pending_of_absent n c.pending h.keyed absent in
        rw absent (unfold take_pending in ground (arith, gone, h.accounted n))
    | inr (v, found) ↦
        let (key, held) = lookup-IsKeyed (decimal n) v c.pending h.keyed found in
        let same = decimal_inj n v key in
        rw found (unfold take_pending in rw (← same) (ground (arith, same, held, h.accounted n)))
  ]

  answer_settles :
      (c : Client V) (n : ℕ) (m : Message V)
      → IsSound c
      → 1 ≤ n
      → n ≤ c.request_id
      → m.id ≡ some (decimal n)
      → (on_message (some m) c).settled ≡ (
          if times_settled n c.settled == 0 then c.settled ++ (n, outcome_of m) ∷ [] else c.settled)
  unfolding on_message
  answer_settles c n m h lo hi e =
      rw e (unfold on_id in take_pending_lem n (outcome_of m) c h lo hi)

  -- After any events, promise `n` is settled or pending, once in all, exactly if `wsCall` has
  -- returned it: no promise is settled twice, lost, or settled without having been issued.
  pub exactly_once :
      (es : List (Event V)) (n : ℕ)
      → let c = run es fresh in
        times_settled n c.settled + times_pending n c.pending ≡ issued n c.request_id
  exactly_once es n = (run-IsSound es fresh fresh-IsSound).accounted n

  -- When the socket closes, no request is left pending and every promise that was ever issued is
  -- settled exactly once.
  pub close_settles_all :
      (es : List (Event V)) (n : ℕ)
      → let c = step close (run es fresh) in
        (c.pending ≡ []) × (times_settled n c.settled ≡ issued n c.request_id)
  unfolding step times_pending
  close_settles_all es n =
      let h = step-IsSound close (run es fresh) (run-IsSound es fresh fresh-IsSound) in
      (refl, omega (arith, h.accounted n))

  -- What a frame settles a promise with: its result when it has no error, else the error's message,
  -- or the error as JSON where the message is empty.
  pub data Answers (m : Message V) : Outcome V → Type 0 where
    with_result : m.error ≡ none → Answers m (resolved m.result)
    with_message :
        (e : RpcError) → m.error ≡ some e → e.message ≢ [] → Answers m (rejected e.message)
    with_json : (e : RpcError) → m.error ≡ some e → e.message ≡ [] → Answers m (rejected e.json)

  error_text-Answers :
      (m : Message V) (e : RpcError) → m.error ≡ some e → Answers m (rejected (error_text e))
  unfolding ◌===◌
  error_text-Answers m e at = elim (Bool-cases (e.message === [])) [
    | inl empty ↦ rw empty (with_json e at ((text_iff e.message []).0 empty))
    | inr full ↦
        rw full (with_message e at (λ same. ground (arith, full, (text_iff e.message []).1 same)))
  ]

  outcome-Answers :
      (m : Message V) (found : Option RpcError)
      → m.error ≡ found
      → Answers m (elim found [ none ↦ resolved m.result | some e ↦ rejected (error_text e) ])
  outcome-Answers m none good = with_result good
  outcome-Answers m (some e) bad = error_text-Answers m e bad

  outcome_of-Answers : (m : Message V) → Answers m (outcome_of m)
  unfolding outcome_of
  outcome_of-Answers m = outcome-Answers m m.error refl

  -- A frame whose id is that of an issued request settles exactly that request's promise, and only
  -- if it was not settled before: with the frame's result when it has no error, and otherwise with
  -- the message of the error, or the error as JSON where the message is empty.
  pub response_settles :
      (es : List (Event V)) (n : ℕ) (m : Message V)
      → 1 ≤ n
      → n ≤ (run es fresh).request_id
      → m.id ≡ some (decimal n)
      → let c = run es fresh in
        (o : Outcome V) × Answers m o
        × ((on_message (some m) c).settled
            ≡ (if times_settled n c.settled == 0 then c.settled ++ (n, o) ∷ [] else c.settled))
  response_settles es n m lo hi e =
      let h = run-IsSound es fresh fresh-IsSound in
      (outcome_of m, outcome_of-Answers m, answer_settles (run es fresh) n m h lo hi e)
