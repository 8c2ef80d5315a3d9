-- ===== src/PeerServer/Tests.antt =====
-- A peer that is started twice between two polls, and a request that comes too early.
use ad4m_link_language_tests.Prelude.{
  Text, str, ℕ, ◌≡◌, ◌↔◌, refl, none, List, [], ◌∷◌, ◌++◌, arith, ◌===◌,
}
use ad4m_link_language_tests.Prelude.Outcome.{returned}
use ad4m_link_language_tests.PeerServer.{
  route, Request, Event, request, candidate, fresh, run, handle,
}
use ad4m_link_language_tests.PeerServer.Candidates.{
  KeepsPeer, delivered, produced, delivered-produced,
}
use ad4m_link_language_tests.PeerServer.Started.{IsNegotiation, handle-status}

abbrev to : Text → Text → Request
to method url = record {
  method = method;
  url = url;
  parses = returned tt;
  closes = returned tt;
  attaches = returned tt;
  calls = returned (str "sdp");
  last_stats = none;
}

abbrev poll : Event ℕ
poll = request (to (str "GET") (str "/peer/iceCandidates"))

abbrev arm : Event ℕ
arm = request (to (str "POST") (str "/peer/start"))

abbrev restarted : List (Event ℕ)
restarted = arm ∷ candidate 1 ∷ candidate 2 ∷ poll ∷ candidate 3 ∷ arm ∷ candidate 4 ∷ poll ∷ []

restarted-run : delivered (run restarted fresh).1 ≡ 1 ∷ 2 ∷ 3 ∷ 4 ∷ []
unfolding run ◌===◌ delivered
restarted-run = refl

delivered-produced_example :
    delivered (run restarted fresh).1 ++ (run restarted fresh).0.pending ≡ produced restarted
unfolding KeepsPeer route ◌===◌
delivered-produced_example = delivered-produced restarted (
  λ p. ground (arith, p),
  (
    tt,
    (
      tt,
      (λ p. ground (arith, p), (tt, (λ p. ground (arith, p), (tt, (λ p. ground (arith, p), tt))))),
    ),
  ),
)

abbrev early : Request
early = to (str "POST") (str "/peer/createOffer")

handle-status_example :
    ((handle {C = ℕ} early fresh).0 ≡ fresh)
    × (((handle {C = ℕ} early fresh).1.status ≡ 400) ↔ ((fresh {C = ℕ}).peer ≡ none))
unfolding IsNegotiation route ◌===◌
handle-status_example = handle-status early fresh tt refl
