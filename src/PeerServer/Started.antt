-- ===== src/PeerServer/Started.antt =====
-- src/peer-server.ts: requests that need a peer.
use ad4m_link_language_tests.Prelude.{Text, ℕ, Option, none, some, arith, ◌≡◌, ◌↔◌, refl}
use ad4m_link_language_tests.Prelude.Outcome.{Outcome, returned, threw}
use ad4m_link_language_tests.PeerServer.{
  Body, Request, Route, create_offer, accept_offer, accept_answer, ice_candidate, start_stats,
  route, Server, handle, on_route, parsed, on_post, on_peer,
}

-- The routes of the five methods that the remote calls on a started peer.
unfoldable pub IsNegotiation : Route → Type 0
IsNegotiation create_offer = Unit
IsNegotiation accept_offer = Unit
IsNegotiation accept_answer = Unit
IsNegotiation ice_candidate = Unit
IsNegotiation start_stats = Unit
IsNegotiation _ = ⊥

module _ {C : Type 0} where
  on_peer-status :
      (p : Option ℕ) (calls : Outcome Text) (answered : Text → Body C)
      → ((on_peer p calls answered).status ≡ 400) ↔ (p ≡ none)
  unfolding on_peer
  on_peer-status none calls answered = (λ _. refl, λ _. refl)
  on_peer-status (some p) (returned t) answered = (λ h. ground (arith, h), λ h. ground (arith, h))
  on_peer-status (some p) (threw e) answered = (λ h. ground (arith, h), λ h. ground (arith, h))

  on_post-status :
      (o : Route) (r : Request) (s : Server C)
      → IsNegotiation o
      → ((on_post o r s).0 ≡ s) × (((on_post o r s).1.status ≡ 400) ↔ (s.peer ≡ none))
  unfolding on_post IsNegotiation
  on_post-status create_offer r s h = (refl, on_peer-status s.peer r.calls _)
  on_post-status accept_offer r s h = (refl, on_peer-status s.peer r.calls _)
  on_post-status accept_answer r s h = (refl, on_peer-status s.peer r.calls _)
  on_post-status ice_candidate r s h = (refl, on_peer-status s.peer r.calls _)
  on_post-status start_stats r s h = (refl, on_peer-status s.peer r.calls _)
  on_post-status _ r s h = absurd h

  on_route-status :
      (o : Route) (r : Request) (s : Server C)
      → IsNegotiation o
      → r.parses ≡ returned tt
      → ((on_route o r s).0 ≡ s) × (((on_route o r s).1.status ≡ 400) ↔ (s.peer ≡ none))
  unfolding on_route parsed IsNegotiation
  on_route-status create_offer r s h e = rw e (on_post-status create_offer r s h)
  on_route-status accept_offer r s h e = rw e (on_post-status accept_offer r s h)
  on_route-status accept_answer r s h e = rw e (on_post-status accept_answer r s h)
  on_route-status ice_candidate r s h e = rw e (on_post-status ice_candidate r s h)
  on_route-status start_stats r s h e = rw e (on_post-status start_stats r s h)
  on_route-status _ r s h e = absurd h

-- A request for one of the peer's five methods, with a body that parses, leaves the server as it
-- is, whatever the method ends in, and is refused with status 400 exactly when no peer is started.
pub handle-status :
    {C : Type 0} (r : Request) (s : Server C)
    → IsNegotiation (route r.method r.url)
    → r.parses ≡ returned tt
    → ((handle r s).0 ≡ s) × (((handle r s).1.status ≡ 400) ↔ (s.peer ≡ none))
unfolding handle
handle-status r s h e = on_route-status (route r.method r.url) r s h e
