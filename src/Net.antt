-- ===== src/Net.antt =====
-- src/net.ts: network shaping with `tc` and `iptables`. Each command is run by a machine that answers
-- whether it succeeded and goes to its next state.
mod Partition
mod Tests
use ad4m_link_language_tests.Prelude.{
  Text, str, decimal, ℕ, zero, suc, Bool, true, false, Option, none, some, List, [], ◌∷◌, ◌++◌,
  ◌&&◌, if◌then◌else◌,
}

-- `tc -n` and `iptables -n` as `sudo` runs them, `root …` being what is put behind `root`.
pub data Command : Type 0 where
  tc_show : Command
  tc_delete : Text → Command
  tc_replace tc_add : Text → Text → Command
  list_rules : Command
  unhook flush delete_chain create_chain : Command
  drop_port : ℕ → Command
  hook : Command

-- A command that fails throws.
pub record Machine (S : Type 0) : Type 0 where
  pub is_linux : Bool
  pub exec : Command → S → S × Bool

pub record NetemOptions : Type 0 where
  pub loss_pct : Option Text
  pub delay_ms : Option Text
  pub jitter_ms : Option Text

percent : Text → Text
percent n = str "loss " ++ (n ++ str "%")

jittered : Text → Option Text → Text
jittered n none = str "delay " ++ (n ++ str "ms")
jittered n (some j) = str "delay " ++ (n ++ (str "ms " ++ (j ++ str "ms")))

loss_part : Option Text → List Text
unfolding percent
loss_part none = []
loss_part (some n) = percent n ∷ []

delay_part : Option Text → Option Text → List Text
unfolding jittered
delay_part none j = []
delay_part (some n) j = jittered n j ∷ []

-- What is put behind `netem`; a jitter without a delay is left out.
unfoldable pub parts : NetemOptions → List Text
unfolding loss_part delay_part
parts o = loss_part o.loss_pct ++ delay_part o.delay_ms o.jitter_ms

spaced : List Text → Text
spaced [] = []
spaced (p ∷ ps) = b' ' ∷ (p ++ spaced ps)

module _ {S : Type 0} (m : Machine S) where
  -- `try { … } catch {}`
  unfoldable pub try_exec : Command → S → S
  try_exec c s = (m.exec c s).0

  available : Bool → Command → S → S × Bool
  available true c s = m.exec c s
  available false c s = (s, false)

  -- `tcAvailable`, `netAvailable`
  unfoldable pub tc_available : S → S × Bool
  unfolding available
  tc_available s = available m.is_linux tc_show s

  -- `iptablesAvailable`, `iptablesPartitionAvailable`
  unfoldable pub iptables_available : S → S × Bool
  unfolding available
  iptables_available s = available m.is_linux list_rules s

  cleared : Text → S × Bool → S
  unfolding try_exec
  cleared iface (s, true) = try_exec (tc_delete iface) s
  cleared iface (s, false) = s

  -- `clearNet`
  unfoldable pub clear_net : Text → S → S
  unfolding cleared tc_available
  clear_net iface s = cleared iface (tc_available s)

  or_add : Text → Text → S × Bool → S × Bool
  or_add iface netem (s, true) = (s, true)
  or_add iface netem (s, false) = m.exec (tc_add iface netem) s

  shape : Text → List Text → S × Bool → S × Bool
  unfolding or_add spaced
  shape iface ps (s, false) = (s, false)
  shape iface [] (s, true) = (s, false)
  shape iface (p ∷ ps) (s, true) =
      let netem = str "netem" ++ spaced (p ∷ ps) in
      or_add iface netem (m.exec (tc_replace iface netem) s)

  -- `setNetem`
  unfoldable pub set_netem : NetemOptions → Text → S → S × Bool
  unfolding shape tc_available parts
  set_netem o iface s = shape iface (parts o) (tc_available s)

  unfoldable pub wipe : S → S
  unfolding try_exec
  wipe s = try_exec delete_chain (try_exec flush (try_exec unhook s))

  -- The commands of a `try` up to the first that throws.
  unfoldable pub run_each : List Command → S × Bool → S × Bool
  run_each cs (s, false) = (s, false)
  run_each [] (s, true) = (s, true)
  run_each (c ∷ cs) (s, true) = run_each cs (m.exec c s)

  drops : List ℕ → List Command
  drops [] = hook ∷ []
  drops (p ∷ ps) = drop_port p ∷ drops ps

  install : List ℕ → S → S × Bool
  unfolding run_each drops
  install [] s = (s, true)
  install (p ∷ ps) s = run_each (create_chain ∷ drops (p ∷ ps)) (s, true)

  dropped : List ℕ → S × Bool → S × Bool
  unfolding install wipe
  dropped ports (s, false) = (s, false)
  dropped ports (s, true) = install ports (wipe s)

  -- `dropTcpPorts`
  unfoldable pub drop_tcp_ports : List ℕ → S → S × Bool
  unfolding dropped iptables_available
  drop_tcp_ports ports s = dropped ports (iptables_available s)

  wiped : S × Bool → S
  unfolding wipe
  wiped (s, false) = s
  wiped (s, true) = wipe s

  -- `clearPartition`
  unfoldable pub clear_partition : S → S
  unfolding wiped iptables_available
  clear_partition s = wiped (iptables_available s)
