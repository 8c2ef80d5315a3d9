-- ===== src/Events/Heap.antt =====
-- src/events.ts: the heap of listener sets.
use ad4m_link_language_tests.Prelude.{
  ℕ, zero, suc, ◌<◌, ◌≡◌, ◌≢◌, refl, ap, false, ◌==◌, List, [], ◌∷◌, ◌++◌, any, length, All, arith,
}
use ad4m_link_language_tests.Events.{add_listener, delete_listener, set_at, update_at}

pub set_at-update :
    (a : ℕ) (f : List ℕ → List ℕ) (sets : List (List ℕ))
    → a < length sets
    → set_at a (update_at a f sets) ≡ f (set_at a sets)
unfolding set_at update_at
set_at-update a f [] h = absurd (omega (arith, h))
set_at-update zero f (set ∷ sets) h = refl
set_at-update (suc a) f (set ∷ sets) h = set_at-update a f sets (omega (arith, h))

pub set_at-update_other :
    (a b : ℕ) (f : List ℕ → List ℕ) (sets : List (List ℕ))
    → a ≢ b
    → set_at b (update_at a f sets) ≡ set_at b sets
unfolding set_at update_at
set_at-update_other a b f [] h = refl
set_at-update_other zero zero f (set ∷ sets) h = absurd (h refl)
set_at-update_other zero (suc b) f (set ∷ sets) h = refl
set_at-update_other (suc a) zero f (set ∷ sets) h = refl
set_at-update_other (suc a) (suc b) f (set ∷ sets) h =
    set_at-update_other a b f sets (λ e. h (ap suc e))

pub set_at-new : (a : ℕ) (sets : List (List ℕ)) → set_at a (sets ++ [] ∷ []) ≡ set_at a sets
unfolding set_at
set_at-new zero [] = refl
set_at-new (suc a) [] = refl
set_at-new zero (set ∷ sets) = refl
set_at-new (suc a) (set ∷ sets) = set_at-new a sets

pub set_at-beyond : (a : ℕ) (sets : List (List ℕ)) → a ≡ length sets → set_at a sets ≡ []
unfolding set_at
set_at-beyond a [] h = refl
set_at-beyond zero (set ∷ sets) h = absurd (omega (arith, h))
set_at-beyond (suc a) (set ∷ sets) h = set_at-beyond a sets (omega (arith, h))

pub length-update_at :
    (a : ℕ) (f : List ℕ → List ℕ) (sets : List (List ℕ)) → length (update_at a f sets) ≡ length sets
unfolding update_at
length-update_at a f [] = refl
length-update_at zero f (set ∷ sets) = refl
length-update_at (suc a) f (set ∷ sets) = ap suc (length-update_at a f sets)

any_away : (h : ℕ) (set : List ℕ) → All (λ k. k ≢ h) set → any (λ k. k == h) set ≡ false
any_away h [] a = refl
any_away h (k ∷ set) (p, a) = ground (arith, p, any_away h set a)

-- A listener that is not in the set stands at its end.
pub add_listener-new :
    (h : ℕ) (set : List ℕ) → All (λ k. k ≢ h) set → add_listener h set ≡ set ++ h ∷ []
unfolding add_listener
add_listener-new h set away = rw (any_away h set away) refl

pub delete_listener-away :
    (h : ℕ) (set : List ℕ) → All (λ k. k ≢ h) set → delete_listener h set ≡ set
unfolding delete_listener
delete_listener-away h [] a = refl
delete_listener-away h (k ∷ set) (p, a) = ground (arith, p, delete_listener-away h set a)
