-- ===== src/Events.antt =====
-- src/events.ts: `EventsClient`. A listener is known by a number, its identity. The sets of listeners
-- are shared by the table of types and by the functions that `on` returns, so they stand in a heap
-- and are known by their index; `on` returns an `Off`. The socket is left out, and
-- listeners do not subscribe while they are called.
mod Heap
mod Spec
pub mod Refines
mod Tests
use ad4m_link_language_tests.Prelude.{
  Text, Dict, str, decimal, ℕ, zero, suc, Bool, true, false, not, ◌==◌, Option, none, some, List,
  [], ◌∷◌, ◌++◌, any, filter, length, get_elem?, lookup, insert, remove, if◌then◌else◌,
}

pub record Client : Type 0 where
  pub sets : List (List ℕ)
  pub listeners_by_type : Dict ℕ

pub record Off : Type 0 where
  pub event_type : Text
  pub set : ℕ
  pub handler : ℕ

-- `wsUrl`, where `encode_uri` is `encodeURIComponent`.
unfoldable pub ws_url : (Text → Text) → Option Text → ℕ → Text → Text
unfolding decimal
ws_url encode_uri host port token =
    str "ws://"
    ++ elim host [ none ↦ str "127.0.0.1" | some h ↦ h ]
    ++ (b':' ∷ decimal port)
    ++ str "/api/v1/ws/events?token="
    ++ encode_uri token

unfoldable pub fresh : Client
fresh = record { sets = []; listeners_by_type = [] }

-- `set.add(h)`
unfoldable pub add_listener : ℕ → List ℕ → List ℕ
add_listener h set = if any (λ k. k == h) set then set else set ++ h ∷ []

-- `set.delete(h)`
unfoldable pub delete_listener : ℕ → List ℕ → List ℕ
delete_listener h set = filter (λ k. not (k == h)) set

unfoldable pub set_at : ℕ → List (List ℕ) → List ℕ
set_at a [] = []
set_at zero (set ∷ sets) = set
set_at (suc a) (set ∷ sets) = set_at a sets

unfoldable pub update_at : ℕ → (List ℕ → List ℕ) → List (List ℕ) → List (List ℕ)
update_at a f [] = []
update_at zero f (set ∷ sets) = f set ∷ sets
update_at (suc a) f (set ∷ sets) = set ∷ update_at a f sets

-- The set of a type, which is made if there is none.
ensure_set : Text → Option ℕ → Client → ℕ × Client
unfolding insert
ensure_set t (some a) c = (a, c)
ensure_set t none c = (
  length c.sets,
  record {
    sets = c.sets ++ [] ∷ [];
    listeners_by_type = insert t (length c.sets) c.listeners_by_type;
  },
)

subscribe : Text → ℕ → ℕ × Client → Client × Off
unfolding add_listener update_at
subscribe t h (a, c) = (
  record c { sets = update_at a (add_listener h) c.sets },
  record { event_type = t; set = a; handler = h },
)

unfoldable pub on : Text → ℕ → Client → Client × Off
unfolding ensure_set subscribe lookup
on t h c = subscribe t h (ensure_set t (lookup t c.listeners_by_type) c)

-- The type is forgotten once the set of the subscription is empty.
drop_type : Text → List ℕ → Dict ℕ → Dict ℕ
unfolding remove
drop_type t [] m = remove t m
drop_type t (h ∷ set) m = m

-- The function that `on` returned is called.
unfoldable pub off : Off → Client → Client
unfolding drop_type delete_listener update_at set_at
off o c =
    let sets = update_at o.set (delete_listener o.handler) c.sets in
    record {
      sets = sets;
      listeners_by_type = drop_type o.event_type (set_at o.set sets) c.listeners_by_type;
    }

unfoldable pub disconnect : Client → Client
disconnect c = record c { listeners_by_type = [] }

listeners_at : Option ℕ → List (List ℕ) → List ℕ
unfolding set_at
listeners_at none sets = []
listeners_at (some a) sets = set_at a sets

-- The listeners that a frame of the type is handed to, in their order, whatever they throw.
unfoldable pub listeners : Text → Client → List ℕ
unfolding listeners_at lookup
listeners t c = listeners_at (lookup t c.listeners_by_type) c.sets

-- What `JSON.parse` makes of a frame: an exception, a value without a string type, or a typed frame.
pub data Frame : Type 0 where
  invalid untyped : Frame
  typed : Text → Frame

unfoldable pub on_message : Frame → Client → List ℕ
unfolding listeners
on_message invalid c = []
on_message untyped c = []
on_message (typed t) c = listeners t c

pub data Operation : Type 0 where
  sub : Text → ℕ → Operation
  unsub : ℕ → Operation
  close : Operation

-- A client and the functions that it has returned, in their order.
pub record Session : Type 0 where
  pub client : Client
  pub offs : List Off

call_off : Option Off → Client → Client
unfolding off
call_off none c = c
call_off (some o) c = off o c

unfoldable pub step : Operation → Session → Session
unfolding on call_off disconnect
step (sub t h) s = let (c, o) = on t h s.client in record { client = c; offs = s.offs ++ o ∷ [] }
step (unsub i) s = record s { client = call_off (get_elem? s.offs i) s.client }
step close s = record s { client = disconnect s.client }

unfoldable pub run : List Operation → Session → Session
unfolding step
run [] s = s
run (o ∷ os) s = run os (step o s)

unfoldable pub start : Session
unfolding fresh
start = record { client = fresh; offs = [] }
