-- ===== src/PeerServer.antt =====
-- src/peer-server.ts: one `WebRtcPeer` behind HTTP. What the peer's methods do is given with each
-- request, in the order in which the handler awaits them; a peer is known by the number of its
-- start. Requests are handled one after the other, as by a client that awaits each reply.
mod Arguments
pub mod Candidates
pub mod Started
mod Tests
use ad4m_link_language_tests.Prelude.{
  Text, str, ℕ, zero, suc, ◌+◌, Bool, true, false, ◌&&◌, Option, none, some, List, [], ◌∷◌, ◌++◌,
  ◌===◌, if◌then◌else◌,
}
use ad4m_link_language_tests.Prelude.Outcome.{Outcome, returned, threw}

pub data Body (C : Type 0) : Type 0 where
  ok : Body C
  health : Bool → Body C
  candidates : List C → Body C
  stats offer answer : Text → Body C
  no_stats : Body C
  failure : Text → Body C

pub record Reply (C : Type 0) : Type 0 where
  pub status : ℕ
  pub body : Body C

-- `closes` is `peer.close()` of the peer there is, `parses` the reading of the body, and `attaches`
-- and `calls` what the peer's method ends in.
pub record Request : Type 0 where
  pub method : Text
  pub url : Text
  pub parses : Outcome (Unit {0})
  pub closes : Outcome (Unit {0})
  pub attaches : Outcome (Unit {0})
  pub calls : Outcome Text
  pub last_stats : Option Text

pub data Route : Type 0 where
  ice_candidates get_stats get_health not_allowed : Route
  start create_offer accept_offer accept_answer ice_candidate start_stats close not_found : Route

-- The tests on method and url.
unfoldable pub route : Text → Text → Route
route method url =
    if method === str "GET" && url === str "/peer/iceCandidates"
    then ice_candidates
    else if method === str "GET" && url === str "/peer/stats"
    then get_stats
    else if method === str "GET" && url === str "/peer/health"
    then get_health
    else if method === str "POST"
    then posted
    else not_allowed
  where
    posted : Route
    posted =
        if url === str "/peer/start"
        then start
        else if url === str "/peer/createOffer"
        then create_offer
        else if url === str "/peer/offer"
        then accept_offer
        else if url === str "/peer/answer"
        then accept_answer
        else if url === str "/peer/iceCandidate"
        then ice_candidate
        else if url === str "/peer/startStats"
        then start_stats
        else if url === str "/peer/close"
        then close
        else not_found

-- `peer` and `pendingIceCandidates`; `starts` counts the peers made so far.
pub record Server (C : Type 0) : Type 0 where
  pub peer : Option ℕ
  pub starts : ℕ
  pub pending : List C

-- A request, or a candidate that a peer's listener has caught.
pub data Event (C : Type 0) : Type 0 where
  request : Request → Event C
  candidate : C → Event C

-- `if (peer) await peer.close()`
close_peer : Option ℕ → Outcome (Unit {0}) → Outcome (Unit {0})
close_peer none closes = returned tt
close_peer (some p) closes = closes

has_peer : Option ℕ → Bool
has_peer none = false
has_peer (some p) = true

module _ {C : Type 0} where
  abbrev pub fresh : Server C
  fresh = record { peer = none; starts = 0; pending = [] }

  abbrev reply : ℕ → Body C → Reply C
  reply status body = record { status = status; body = body }

  -- The reply to an exception.
  abbrev failed : Text → Reply C
  failed e = reply 500 (failure e)

  abbrev not_started : Reply C
  not_started = reply 400 (failure (str "peer not started"))

  attached : Outcome (Unit {0}) → Reply C
  attached (returned _) = reply 200 ok
  attached (threw e) = failed e

  on_start : Outcome (Unit {0}) → Request → Server C → Server C × Reply C
  unfolding attached
  on_start (threw e) r s = (s, failed e)
  on_start (returned _) r s =
      (record s { peer = some (suc s.starts); starts = suc s.starts }, attached r.attaches)

  on_close : Outcome (Unit {0}) → Server C → Server C × Reply C
  on_close (threw e) s = (s, failed e)
  on_close (returned _) s = (record s { peer = none; pending = [] }, reply 200 ok)

  -- A method of the peer, where there is one.
  on_peer : Option ℕ → Outcome Text → (Text → Body C) → Reply C
  on_peer none calls answered = not_started
  on_peer (some p) (returned t) answered = reply 200 (answered t)
  on_peer (some p) (threw e) answered = failed e

  stats_of : Option ℕ → Option Text → Body C
  stats_of (some p) (some t) = stats t
  stats_of _ _ = no_stats

  -- The `switch`, after the body is parsed.
  on_post : Route → Request → Server C → Server C × Reply C
  unfolding on_start on_close on_peer close_peer
  on_post start r s = on_start (close_peer s.peer r.closes) r s
  on_post create_offer r s = (s, on_peer s.peer r.calls offer)
  on_post accept_offer r s = (s, on_peer s.peer r.calls answer)
  on_post accept_answer r s = (s, on_peer s.peer r.calls (λ _. ok))
  on_post ice_candidate r s = (s, on_peer s.peer r.calls (λ _. ok))
  on_post start_stats r s = (s, on_peer s.peer r.calls (λ _. ok))
  on_post close r s = on_close (close_peer s.peer r.closes) s
  on_post _ r s = (s, reply 404 (failure (str "not found")))

  parsed : Route → Outcome (Unit {0}) → Request → Server C → Server C × Reply C
  unfolding on_post
  parsed route (threw e) r s = (s, failed e)
  parsed route (returned _) r s = on_post route r s

  on_route : Route → Request → Server C → Server C × Reply C
  unfolding parsed stats_of has_peer
  on_route ice_candidates r s = (record s { pending = [] }, reply 200 (candidates s.pending))
  on_route get_stats r s = (s, reply 200 (stats_of s.peer r.last_stats))
  on_route get_health r s = (s, reply 200 (health (has_peer s.peer)))
  on_route not_allowed r s = (s, reply 405 (failure (str "method not allowed")))
  on_route posted r s = parsed posted r.parses r s

  unfoldable pub handle : Request → Server C → Server C × Reply C
  unfolding on_route route
  handle r s = on_route (route r.method r.url) r s

  pub step : Event C → Server C → Server C × List (Reply C)
  unfolding handle
  step (request r) s = let (s', reply) = handle r s in (s', reply ∷ [])
  step (candidate c) s = (record s { pending = s.pending ++ c ∷ [] }, [])

  unfoldable pub run : List (Event C) → Server C → Server C × List (Reply C)
  unfolding step
  run [] s = (s, [])
  run (e ∷ es) s = let (s', now) = step e s in let (s'', later) = run es s' in (s'', now ++ later)
