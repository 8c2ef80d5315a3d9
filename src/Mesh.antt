-- ===== src/Mesh.antt =====
-- src/mesh.ts: `MeshHost` and `connectAll`. Whether the synthetic stream of a peer attaches and
-- whether two peers pair is up to the WebRTC library: two parameters. `none` is a rejection.
pub mod Ids
pub mod Full
pub mod Totals
mod Tests
use ad4m_link_language_tests.Prelude.{
  Text, Dict, ℕ, zero, suc, ◌+◌, Bool, true, false, Option, none, some, List, [], ◌∷◌, ◌++◌, max,
  length, lookup, insert, if◌then◌else◌,
}
use ad4m_link_language_tests.Peer.Stats.{PeerStats}

pub record MeshPeer : Type 0 where
  pub name : Text
  pub last_stats : Option PeerStats
  pub sampling : Bool

pub record MeshHost : Type 0 where
  pub id : Text
  pub peers : Dict MeshPeer

-- `peers.size`
abbrev pub peer_count : MeshHost → ℕ
peer_count h = length h.peers

-- `${this.id}→${remoteId}`
abbrev pub peer_name : Text → Text → Text
peer_name id remote = id ++ (0x2192 ∷ remote)

infixl 5 ◌>>=◌ ◌>>◌
abbrev pub ◌>>=◌ {ℓ κ} : {A : Type ℓ} {B : Type κ} → Option A → (A → Option B) → Option B
none >>= f = none
some a >>= f = f a

abbrev pub ◌>>◌ {ℓ} : {B : Type ℓ} → Option (Unit {0}) → Option B → Option B
m >> k = m >>= λ _. k

abbrev guard : Bool → Option (Unit {0})
guard true = some tt
guard false = none

module _ (attach : Text → Bool) where
  create_peer : Text → MeshHost → Option (MeshHost × MeshPeer)
  create_peer remote h =
      let p : MeshPeer = record {
        name = peer_name h.id remote;
        last_stats = none;
        sampling = false;
      } in
      if attach p.name then some (record h { peers = insert remote p h.peers }, p) else none

  get_or_create : Option MeshPeer → Text → MeshHost → Option (MeshHost × MeshPeer)
  unfolding create_peer
  get_or_create (some p) remote h = some (h, p)
  get_or_create none remote h = create_peer remote h

  unfoldable pub get_peer : Text → MeshHost → Option (MeshHost × MeshPeer)
  unfolding get_or_create
  get_peer remote h = get_or_create (lookup remote h.peers) remote h

pub record Link : Type 0 where
  pub offerer : Text
  pub answerer : Text

module _ (attach : Text → Bool) (pair : Text → Text → Bool) where
  -- The inner loop of `connectAll`: one host against those behind it.
  pub connect_one : MeshHost → List MeshHost → Option (MeshHost × List MeshHost × List Link)
  connect_one h [] = some (h, [], [])
  connect_one h (o ∷ os) = do
    (h1, a) ← get_peer attach o.id h
    (o1, b) ← get_peer attach h.id o
    guard (pair a.name b.name)
    (h2, os', links) ← connect_one h1 os
    some (h2, o1 ∷ os', record { offerer = a.name; answerer = b.name } ∷ links)

  -- The outer loop, with the rounds left.
  pub connect_from : ℕ → List MeshHost → Option (List MeshHost × List Link)
  connect_from zero hosts = some (hosts, [])
  connect_from (suc n) [] = some ([], [])
  connect_from (suc n) (h ∷ os) = do
    (h', os', links) ← connect_one h os
    (rest, more) ← connect_from n os'
    some (h' ∷ rest, links ++ more)

  unfoldable pub connect_all : List MeshHost → Option (List MeshHost × List Link)
  unfolding connect_from connect_one
  connect_all hosts = connect_from (length hosts) hosts

-- `p.getLastStats()?.field ?? 0`, summed over the peers.
total_of : (PeerStats → ℕ) → Dict MeshPeer → ℕ
total_of field [] = 0
total_of field ((_, p) ∷ ps) = elim p.last_stats [ none ↦ 0 | some s ↦ field s ] + total_of field ps

unfoldable pub total_bytes_sent : MeshHost → ℕ
unfolding total_of
total_bytes_sent h = total_of (λ s. s.bytes_sent) h.peers

unfoldable pub total_bytes_received : MeshHost → ℕ
unfolding total_of
total_bytes_received h = total_of (λ s. s.bytes_received) h.peers

unfoldable pub total_packets_lost : MeshHost → ℕ
unfolding total_of
total_packets_lost h = total_of (λ s. s.packets_lost) h.peers

worse : Option ℕ → Option ℕ → Option ℕ
worse none w = w
worse (some r) none = some r
worse (some r) (some w) = some (max w r)

pub rtt_of : MeshPeer → Option ℕ
rtt_of p = elim p.last_stats [ none ↦ none | some s ↦ s.current_round_trip_time_ms ]

worst_from : Option ℕ → Dict MeshPeer → Option ℕ
unfolding worse
worst_from w [] = w
worst_from w ((_, p) ∷ ps) = worst_from (worse (rtt_of p) w) ps

unfoldable pub worst_rtt_ms : MeshHost → Option ℕ
unfolding worst_from
worst_rtt_ms h = worst_from none h.peers

set_sampling : Bool → Dict MeshPeer → Dict MeshPeer
set_sampling b [] = []
set_sampling b ((k, p) ∷ ps) = (k, record p { sampling = b }) ∷ set_sampling b ps

unfoldable pub start_stats : MeshHost → MeshHost
unfolding set_sampling
start_stats h = record h { peers = set_sampling true h.peers }

unfoldable pub stop_stats : MeshHost → MeshHost
unfolding set_sampling
stop_stats h = record h { peers = set_sampling false h.peers }

unfoldable pub close : MeshHost → MeshHost
close h = record h { peers = [] }
