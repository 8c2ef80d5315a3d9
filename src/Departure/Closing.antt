-- ===== src/Departure/Closing.antt =====
-- src/scenarios/t13-peer-departure-media.ts: what is closed when the scenario ends.
use ad4m_link_language_tests.Departure
use ad4m_link_language_tests.Prelude.Outcome.{Outcome, returned, threw}
use ad4m_link_language_tests.Prelude.{
  Bool, true, false, List, [], ◌∷◌, ◌++◌, ◌≡◌, refl, ◌⊎◌, inl, inr, arith,
}

abbrev pub Occurs : Departure.Effect → List Departure.Effect → Type 0
Occurs e [] = true ≡ false
Occurs e (x ∷ xs) = (e ≡ x) ⊎ Occurs e xs

left : (e : Departure.Effect) (xs ys : List Departure.Effect) → Occurs e xs → Occurs e (xs ++ ys)
left e [] ys h = absurd (ground (arith, h))
left e (x ∷ xs) ys (inl here) = inl here
left e (x ∷ xs) ys (inr there) = inr (left e xs ys there)

right : (e : Departure.Effect) (xs ys : List Departure.Effect) → Occurs e ys → Occurs e (xs ++ ys)
right e [] ys h = h
right e (x ∷ xs) ys h = inr (right e xs ys h)

-- A run that ends in a verdict has gone through the departure.
tried-departed :
    (w : Departure.World) (j : Departure.Joined) (o : Outcome (Unit {0})) (b : Bool)
    → (Departure.tried w j o).1 ≡ returned b
    → Occurs (Departure.close Departure.departing_peer) (Departure.tried w j o).0
unfolding Departure.tried Departure.departure
tried-departed w j (threw x) b h = absurd (ground (arith, h))
tried-departed w j (returned _) b h =
    let closed = Departure.close Departure.departing_peer in
    left closed (j.effects ++ Departure.departure) (Departure.finally j.peers j.wires)
      (right closed j.effects Departure.departure (inr (inr (inr (inr (inr (inr (inl refl))))))))

module _ (w : Departure.World) where
  -- The room was started, and the sessions provisioned and registered.
  unfoldable pub IsReady : Type 0
  IsReady =
      (w.starts_room ≡ returned tt) × (w.provisions ≡ returned tt) × (w.registers ≡ returned tt)
