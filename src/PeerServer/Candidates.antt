-- ===== src/PeerServer/Candidates.antt =====
-- src/peer-server.ts: the ICE candidates between the peer and the remote that polls for them.
use ad4m_link_language_tests.Prelude.{
  Text, ℕ, Option, none, some, List, [], ◌∷◌, ◌++◌, ◌≡◌, ◌≢◌, refl, sym, ap, ◌∙◌, append_assoc,
  append-nil, All,
}
use ad4m_link_language_tests.Prelude.Outcome.{Outcome, returned, threw}
use ad4m_link_language_tests.PeerServer.{
  Body, Reply, Request, Route, ice_candidates, get_stats, get_health, not_allowed, create_offer,
  accept_offer, accept_answer, ice_candidate, start_stats, close, not_found, start, route, Server,
  fresh, Event, request, candidate, handle, step, run, on_route, parsed, on_post, on_start, on_peer,
  close_peer, attached, stats_of,
}

module _ {C : Type 0} where
  handed : Body C → List C
  handed (Body.candidates cs) = cs
  handed _ = []

  -- The candidates that replies hand out.
  unfoldable pub delivered : List (Reply C) → List C
  unfolding handed
  delivered [] = []
  delivered (r ∷ rs) = handed r.body ++ delivered rs

  -- The candidates that the listeners have caught.
  pub produced : List (Event C) → List C
  produced [] = []
  produced (request r ∷ es) = produced es
  produced (candidate c ∷ es) = c ∷ produced es

  -- The event is no request to close the peer.
  unfoldable pub KeepsPeer : Event C → Type 0
  KeepsPeer (request r) = route r.method r.url ≢ close
  KeepsPeer (candidate c) = Unit

  delivered-append : (xs ys : List (Reply C)) → delivered (xs ++ ys) ≡ delivered xs ++ delivered ys
  unfolding delivered
  delivered-append [] ys = refl
  delivered-append (r ∷ xs) ys =
      rw (delivered-append xs ys) (sym (append_assoc (handed r.body) (delivered xs) (delivered ys)))

  -- Neither hands a candidate out nor touches those that wait.
  abbrev IsSilent : Server C × Reply C → Server C → Type 0
  IsSilent (s', r) s = (handed r.body ≡ []) × (s'.pending ≡ s.pending)

  on_peer-handed :
      (p : Option ℕ) (calls : Outcome Text) (answered : Text → Body C)
      → ((t : Text) → handed (answered t) ≡ [])
      → handed (on_peer p calls answered).body ≡ []
  unfolding on_peer handed
  on_peer-handed none calls answered h = refl
  on_peer-handed (some p) (returned t) answered h = h t
  on_peer-handed (some p) (threw e) answered h = refl

  on_start-IsSilent :
      (closes : Outcome (Unit {0})) (r : Request) (s : Server C) → IsSilent (on_start closes r s) s
  unfolding on_start handed
  on_start-IsSilent (threw e) r s = (refl, refl)
  on_start-IsSilent (returned _) r s = (attached-handed r.attaches, refl)
    where
      attached-handed : (o : Outcome (Unit {0})) → handed (attached {C = C} o).body ≡ []
      attached-handed (returned _) = refl
      attached-handed (threw e) = refl

  on_post-IsSilent :
      (o : Route) (r : Request) (s : Server C) → o ≢ close → IsSilent (on_post o r s) s
  unfolding on_post handed
  on_post-IsSilent start r s h = on_start-IsSilent (close_peer s.peer r.closes) r s
  on_post-IsSilent create_offer r s h = (on_peer-handed s.peer r.calls _ (λ t. refl), refl)
  on_post-IsSilent accept_offer r s h = (on_peer-handed s.peer r.calls _ (λ t. refl), refl)
  on_post-IsSilent accept_answer r s h = (on_peer-handed s.peer r.calls _ (λ t. refl), refl)
  on_post-IsSilent ice_candidate r s h = (on_peer-handed s.peer r.calls _ (λ t. refl), refl)
  on_post-IsSilent start_stats r s h = (on_peer-handed s.peer r.calls _ (λ t. refl), refl)
  on_post-IsSilent close r s h = absurd (h refl)
  on_post-IsSilent ice_candidates r s h = (refl, refl)
  on_post-IsSilent get_stats r s h = (refl, refl)
  on_post-IsSilent get_health r s h = (refl, refl)
  on_post-IsSilent not_allowed r s h = (refl, refl)
  on_post-IsSilent not_found r s h = (refl, refl)

  parsed-IsSilent :
      (o : Route) (p : Outcome (Unit {0})) (r : Request) (s : Server C)
      → o ≢ close
      → IsSilent (parsed o p r s) s
  unfolding parsed handed
  parsed-IsSilent o (threw e) r s h = (refl, refl)
  parsed-IsSilent o (returned _) r s h = on_post-IsSilent o r s h

  IsSilent-delivered :
      (x : Server C × Reply C) (s : Server C)
      → IsSilent x s
      → delivered (x.1 ∷ []) ++ x.0.pending ≡ s.pending
  unfolding delivered
  IsSilent-delivered x s (nothing, same) = rw (nothing, same) refl

  stats-handed : (p : Option ℕ) (t : Option Text) → handed (stats_of {C = C} p t) ≡ []
  unfolding stats_of handed
  stats-handed none t = refl
  stats-handed (some p) none = refl
  stats-handed (some p) (some t) = refl

  on_route-delivered :
      (o : Route) (r : Request) (s : Server C)
      → o ≢ close
      → delivered ((on_route o r s).1 ∷ []) ++ (on_route o r s).0.pending ≡ s.pending
  unfolding on_route delivered handed
  on_route-delivered ice_candidates r s h = append-nil _ ∙ append-nil s.pending
  on_route-delivered get_stats r s h =
      ap (λ l. l ++ s.pending) (append-nil _ ∙ stats-handed s.peer r.last_stats)
  on_route-delivered get_health r s h = refl
  on_route-delivered not_allowed r s h = refl
  on_route-delivered o r s h =
      IsSilent-delivered (parsed o r.parses r s) s (parsed-IsSilent o r.parses r s h)

  run-delivered :
      (es : List (Event C)) (s : Server C)
      → All KeepsPeer es
      → delivered (run es s).1 ++ (run es s).0.pending ≡ s.pending ++ produced es
  unfolding run step produced KeepsPeer handle
  run-delivered [] s h = unfold delivered in sym (append-nil s.pending)
  run-delivered (candidate c ∷ es) s (_, h) =
      run-delivered es (record s { pending = s.pending ++ c ∷ [] }) h
      ∙ append_assoc s.pending (c ∷ []) (produced es)
  run-delivered (request r ∷ es) s (keeps, h) =
      let x = on_route (route r.method r.url) r s in
      let now = delivered (x.1 ∷ []) in
      let later = run es x.0 in
      ap (λ l. l ++ later.0.pending) (delivered-append (x.1 ∷ []) later.1)
      ∙ append_assoc now (delivered later.1) later.0.pending
      ∙ ap (λ l. now ++ l) (run-delivered es x.0 h)
      ∙ sym (append_assoc now x.0.pending (produced es))
      ∙ ap (λ l. l ++ produced es) (on_route-delivered (route r.method r.url) r s keeps)

-- While no request closes the peer, whatever else is asked and whatever throws: the candidates that
-- polls have handed out, followed by those that wait, are the candidates caught so far, each once
-- and in order. A peer that `/peer/start` has replaced is no exception: its candidates stay.
pub delivered-produced :
    {C : Type 0} (es : List (Event C))
    → All KeepsPeer es
    → delivered (run es fresh).1 ++ (run es fresh).0.pending ≡ produced es
delivered-produced es h = run-delivered es fresh h
