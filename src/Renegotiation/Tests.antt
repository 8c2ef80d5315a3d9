-- ===== src/Renegotiation/Tests.antt =====
-- Two offers for the room, of which the second is refused, and a frame for another room.
use ad4m_link_language_tests.Prelude.{
  Text, str, ◌+◌, ◌≡◌, refl, true, some, List, [], ◌∷◌, length, ◌===◌, if◌then◌else◌,
}
use ad4m_link_language_tests.Prelude.Outcome.{returned, threw, ◌>>=◌}
use ad4m_link_language_tests.Renegotiation.{
  EventFrame, Config, Backend, Event, arrives, works, detaches, fresh, run, detach,
}
use ad4m_link_language_tests.Renegotiation.Serial.{offers, answers, heard, detach-offers}

abbrev config : Config
config = record { neighbourhood_url = str "n"; room_name = str "r" }

abbrev backend : Backend
backend = record {
  parse = λ s. if s === str "bad" then threw (str "not JSON") else returned s;
  create_answer = λ s. returned (b'A' ∷ s);
  post = λ s. returned tt;
  on_renegotiated = returned tt;
}

abbrev frame : Text → Text → EventFrame
frame room sdp = record { neighbourhood_url = str "n"; room_name = room; sdp_offer = some sdp }

abbrev events : List Event
events =
    arrives (frame (str "r") (str "1"))
    ∷ arrives (frame (str "other") (str "2"))
    ∷ works
    ∷ arrives (frame (str "r") (str "bad"))
    ∷ detaches
    ∷ arrives (frame (str "r") (str "3"))
    ∷ []

detach-posted : (detach config backend (run config backend events fresh)).posted ≡ str "A1" ∷ []
unfolding detach run ◌===◌ ◌>>=◌
detach-posted = refl

detach-offers_example :
    let w = detach config backend (run config backend events fresh) in
    let sdps = offers config (heard true events) in
    (w.applied + w.failed ≡ length sdps)
    × (w.posted ≡ answers backend sdps)
    × (w.applied ≡ length (answers backend sdps))
detach-offers_example = detach-offers config backend refl events
