-- ===== src/Departure/Tests.antt =====
-- src/scenarios/t13-peer-departure-media.ts: the third of the four peers cannot join.
use ad4m_link_language_tests.Departure
use ad4m_link_language_tests.Prelude.Outcome.{returned, threw}
use ad4m_link_language_tests.Prelude.{
  str, ℕ, Bool, ◌==◌, some, none, [], ◌∷◌, ◌≡◌, refl, if◌then◌else◌,
}

-- Every answer is good, but that of the peer `k` when it joins.
abbrev world : ℕ → Departure.World
world k = record {
  starts_room = returned tt;
  provisions = returned tt;
  registers = returned tt;
  attaches = λ i. returned tt;
  wires = λ i. returned tt;
  offers = λ i. returned tt;
  joins = λ i. if i == k then threw (str "full") else returned none;
  accepts = λ i. returned tt;
  fills = returned tt;
  bytes_before = λ i. some 5;
  bytes_after = λ i. some 9;
  detected = λ i. 400 ∷ 800 ∷ [];
  rooms = returned ((str "t13-peer-departure", 3) ∷ []);
}

passes : (Departure.run (world 9)).1 ≡ returned Bool.true
unfolding Departure.run
passes = refl

-- The second peer has joined, and is neither detached nor closed.
second_left_open :
    (Departure.run (world 2)).0
    ≡ Departure.start_room
      ∷ Departure.provision
      ∷ Departure.register
      ∷ Departure.create 0
      ∷ Departure.attach 0
      ∷ Departure.wire 0
      ∷ Departure.join 0
      ∷ Departure.create 1
      ∷ Departure.attach 1
      ∷ Departure.wire 1
      ∷ Departure.join 1
      ∷ Departure.create 2
      ∷ Departure.attach 2
      ∷ Departure.wire 2
      ∷ Departure.join 2
      ∷ Departure.detach 0
      ∷ Departure.detach 2
      ∷ Departure.leave 0
      ∷ Departure.close 0
      ∷ Departure.leave 2
      ∷ Departure.close 2
      ∷ Departure.stop_stats 0
      ∷ Departure.stop_stats 1
      ∷ Departure.stop_stats 2
      ∷ Departure.stop_room
      ∷ Departure.disconnect
      ∷ []
unfolding Departure.run
second_left_open = refl

-- A peer whose stream cannot be attached is made, and never closed.
first_left_open :
    (Departure.run (record (world 9) { attaches = λ i. threw (str "busy") })).0
    ≡ Departure.start_room
      ∷ Departure.provision
      ∷ Departure.register
      ∷ Departure.create 0
      ∷ Departure.stop_room
      ∷ Departure.disconnect
      ∷ []
unfolding Departure.run
first_left_open = refl
