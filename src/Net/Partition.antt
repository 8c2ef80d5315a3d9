-- ===== src/Net/Partition.antt =====
-- src/net.ts: the chain that drops TCP ports, over the documented behaviour of `iptables`.
use ad4m_link_language_tests.Net
use ad4m_link_language_tests.Prelude.{
  ℕ, zero, suc, Bool, true, false, Option, none, some, List, [], ◌∷◌, ◌++◌, ◌≡◌, refl, sym, ap, ◌∙◌,
  append-nil, append_assoc, ◌≤◌, leb, All, arith, if◌then◌else◌,
}

-- The rules of the chain, if it exists, and how often INPUT jumps to it.
pub record Table : Type 0 where
  pub chain : Option (List ℕ)
  pub hooks : ℕ

delete_of : Option (List ℕ) → ℕ → Table × Bool
delete_of (some []) zero = (record { chain = none; hooks = zero }, true)
delete_of c n = (record { chain = c; hooks = n }, false)

-- What the manual page of `iptables` says of the commands: a port above 65535 is refused, a jump is taken out if there is one, a
-- chain is flushed if it exists, deleted if it is empty and nothing jumps to it, made if there is none of its name.
unfoldable pub iptables : Net.Command → Option (List ℕ) → ℕ → Table × Bool
unfolding delete_of
iptables Net.unhook c zero = (record { chain = c; hooks = zero }, false)
iptables Net.unhook c (suc n) = (record { chain = c; hooks = n }, true)
iptables Net.flush none n = (record { chain = none; hooks = n }, false)
iptables Net.flush (some rules) n = (record { chain = some []; hooks = n }, true)
iptables Net.delete_chain c n = delete_of c n
iptables Net.create_chain none n = (record { chain = some []; hooks = n }, true)
iptables Net.create_chain (some rules) n = (record { chain = some rules; hooks = n }, false)
iptables (Net.drop_port p) none n = (record { chain = none; hooks = n }, false)
iptables (Net.drop_port p) (some rules) n =
    if leb p 65535
    then (record { chain = some (rules ++ p ∷ []); hooks = n }, true)
    else (record { chain = some rules; hooks = n }, false)
iptables Net.hook none n = (record { chain = none; hooks = n }, false)
iptables Net.hook (some rules) n = (record { chain = some rules; hooks = suc n }, true)
iptables _ c n = (record { chain = c; hooks = n }, true)

-- Nothing is dropped, or the chain stands, hooked once at most.
pub data IsTidy : Option (List ℕ) → ℕ → Type 0 where
  absent : IsTidy none 0
  loose : {rules : List ℕ} → IsTidy (some rules) 0
  hooked : {rules : List ℕ} → IsTidy (some rules) 1

abbrev pub no_partition : Table
no_partition = record { chain = none; hooks = 0 }

-- The partition of these ports; of none, no chain.
unfoldable pub partition_of : List ℕ → Table
partition_of [] = no_partition
partition_of (p ∷ ps) = record { chain = some (p ∷ ps); hooks = 1 }

-- The commands that are given to `iptables`.
abbrev pub is_iptables : Net.Command → Bool
is_iptables Net.tc_show = false
is_iptables (Net.tc_delete iface) = false
is_iptables (Net.tc_replace iface netem) = false
is_iptables (Net.tc_add iface netem) = false
is_iptables _ = true

-- A machine whose firewall behaves as documented; what `tc` does is left open.
unfoldable pub Obeys : {S : Type 0} (m : Net.Machine S) (table : S → Table) → Type 0
Obeys m table =
    (c : Net.Command) (s : _)
    → is_iptables c ≡ true
    → (table (m.exec c s).0, (m.exec c s).1) ≡ iptables c (table s).chain (table s).hooks

module _ {S : Type 0} (m : Net.Machine S) (table : S → Table) (obeys : Obeys m table) where
  ran :
      (c : Net.Command) (s : S) (t : Table)
      → is_iptables c ≡ true
      → table s ≡ t
      → (table (m.exec c s).0, (m.exec c s).1) ≡ iptables c t.chain t.hooks
  unfolding Obeys
  ran c s t is h = obeys c s is ∙ ap (λ t. iptables c t.chain t.hooks) h

  tried :
      (c : Net.Command) (s : S) (t : Table)
      → is_iptables c ≡ true
      → table s ≡ t
      → table (Net.try_exec m c s) ≡ (iptables c t.chain t.hooks).0
  unfolding Net.try_exec
  tried c s t is h = ap (λ r. r.0) (ran c s t is h)

  -- The state after the three commands of `wipe`, by their documented behaviour.
  wiped_table : Table → Table
  unfolding iptables
  wiped_table t =
      let t1 = (iptables Net.unhook t.chain t.hooks).0 in
      let t2 = (iptables Net.flush t1.chain t1.hooks).0 in
      (iptables Net.delete_chain t2.chain t2.hooks).0

  wipe-table : (s : S) (t : Table) → table s ≡ t → table (Net.wipe m s) ≡ wiped_table t
  unfolding Net.wipe wiped_table
  wipe-table s t h =
      let t1 = (iptables Net.unhook t.chain t.hooks).0 in
      let t2 = (iptables Net.flush t1.chain t1.hooks).0 in
      let s1 = Net.try_exec m Net.unhook s in
      let s2 = Net.try_exec m Net.flush s1 in
      tried Net.delete_chain s2 t2 refl (tried Net.flush s1 t1 refl (tried Net.unhook s t refl h))

  wiped-IsTidy :
      (c : Option (List ℕ)) (n : ℕ)
      → IsTidy c n
      → wiped_table (record { chain = c; hooks = n }) ≡ no_partition
  unfolding wiped_table iptables delete_of
  wiped-IsTidy c n absent = refl
  wiped-IsTidy c n loose = refl
  wiped-IsTidy c n hooked = refl

  wipe-IsTidy :
      (s : S) → IsTidy (table s).chain (table s).hooks → table (Net.wipe m s) ≡ no_partition
  wipe-IsTidy s tidy =
      wipe-table s (table s) refl ∙ wiped-IsTidy (table s).chain (table s).hooks tidy

  -- A command that succeeds is followed by the next one.
  run_each-step :
      (c : Net.Command) (cs : List Net.Command) (s : S) (t t' : Table)
      → is_iptables c ≡ true
      → table s ≡ t
      → iptables c t.chain t.hooks ≡ (t', true)
      → (s' : S) × (table s' ≡ t')
        × (Net.run_each m (c ∷ cs) (s, true) ≡ Net.run_each m cs (s', true))
  unfolding Net.run_each
  run_each-step c cs s t t' is h ok =
      let both = ran c s t is h ∙ ok in
      (
        (m.exec c s).0,
        ap (λ r. r.0) both,
        ap (λ b. Net.run_each m cs ((m.exec c s).0, b)) (ap (λ r. r.1) both),
      )

  run_each-drops :
      (ports rules : List ℕ) (s : S)
      → All (λ p. p ≤ 65535) ports
      → table s ≡ record { chain = some rules; hooks = 0 }
      → (s' : S) × (table s' ≡ record { chain = some (rules ++ ports); hooks = 1 })
        × (Net.run_each m (Net.drops m ports) (s, true) ≡ (s', true))
  unfolding Net.drops Net.run_each iptables
  run_each-drops [] rules s fit h =
      let (s', at, runs) =
        run_each-step Net.hook [] s (record { chain = some rules; hooks = 0 })
          (record { chain = some rules; hooks = 1 }) refl h refl in
      (s', at ∙ ap (λ r. record { chain = some r; hooks = 1 }) (sym (append-nil rules)), runs)
  run_each-drops (p ∷ ps) rules s (fits, rest) h =
      let fit : leb p 65535 ≡ true = ground (arith, fits) in
      let (s1, at1, runs1) =
        run_each-step (Net.drop_port p) (Net.drops m ps) s
          (record { chain = some rules; hooks = 0 })
          (record { chain = some (rules ++ p ∷ []); hooks = 0 }) refl h (rw fit refl) in
      let (s', at, runs) = run_each-drops ps (rules ++ p ∷ []) s1 rest at1 in
      (
        s',
        at ∙ ap (λ r. record { chain = some r; hooks = 1 }) (append_assoc rules (p ∷ []) ps),
        runs1 ∙ runs,
      )

  install-partition :
      (ports : List ℕ) (s : S)
      → All (λ p. p ≤ 65535) ports
      → table s ≡ no_partition
      → (s' : S) × (table s' ≡ partition_of ports) × (Net.install m ports s ≡ (s', true))
  unfolding Net.install partition_of iptables
  install-partition [] s fit h = (s, h, refl)
  install-partition (p ∷ ps) s fit h =
      let (s1, at1, runs1) =
        run_each-step Net.create_chain (Net.drops m (p ∷ ps)) s no_partition
          (record { chain = some []; hooks = 0 }) refl h refl in
      let (s', at, runs) = run_each-drops (p ∷ ps) [] s1 fit at1 in (s', at, runs1 ∙ runs)

  -- On Linux, the firewall can be listed, which changes nothing.
  listed :
      (s : S)
      → m.is_linux ≡ true
      → (s' : S) × (table s' ≡ table s) × (Net.iptables_available m s ≡ (s', true))
  unfolding Net.iptables_available Net.available iptables
  listed s linux =
      let both = ran Net.list_rules s (table s) refl refl in
      rw linux (
        (m.exec Net.list_rules s).0,
        ap (λ r. r.0) both,
        ap (λ b. ((m.exec Net.list_rules s).0, b)) (ap (λ r. r.1) both),
      )

  drop-listed :
      (ports : List ℕ) (s : S)
      → All (λ p. p ≤ 65535) ports
      → m.is_linux ≡ true
      → IsTidy (table s).chain (table s).hooks
      → (s' : S) × (table s' ≡ partition_of ports) × (Net.drop_tcp_ports m ports s ≡ (s', true))
  unfolding Net.drop_tcp_ports Net.dropped
  drop-listed ports s fit linux tidy =
      let (s1, at1, lists) = listed s linux in
      let tidy1 : IsTidy (table s1).chain (table s1).hooks = rw at1 tidy in
      let (s', at, runs) = install-partition ports (Net.wipe m s1) fit (wipe-IsTidy s1 tidy1) in
      (s', at, rw lists runs)

  partition-IsTidy : (ports : List ℕ) → IsTidy (partition_of ports).chain (partition_of ports).hooks
  unfolding partition_of
  partition-IsTidy [] = absent
  partition-IsTidy (p ∷ ps) = hooked

  clear-listed :
      (s : S)
      → m.is_linux ≡ true
      → IsTidy (table s).chain (table s).hooks
      → table (Net.clear_partition m s) ≡ no_partition
  unfolding Net.clear_partition Net.wiped
  clear-listed s linux tidy =
      let (s1, at1, lists) = listed s linux in
      let tidy1 : IsTidy (table s1).chain (table s1).hooks = rw at1 tidy in
      rw lists (wipe-IsTidy s1 tidy1)

  -- On Linux with `iptables` as its manual page describes it, from any state in which INPUT jumps
  -- to the chain at most once, and for ports of at most 65535, `dropTcpPorts` answers true and leaves a
  -- chain that drops exactly these ports, in order, with one jump to it (no chain, for no ports), whatever was partitioned
  -- before; `clearPartition` then leaves neither chain nor jump.
  pub drop_tcp_ports-clear_partition :
      (ports : List ℕ) (s : S)
      → All (λ p. p ≤ 65535) ports
      → m.is_linux ≡ true
      → IsTidy (table s).chain (table s).hooks
      → ((Net.drop_tcp_ports m ports s).1 ≡ true)
        × (table (Net.drop_tcp_ports m ports s).0 ≡ partition_of ports)
        × (table (Net.clear_partition m (Net.drop_tcp_ports m ports s).0) ≡ no_partition)
  drop_tcp_ports-clear_partition ports s fit linux tidy =
      let (s', at, runs) = drop-listed ports s fit linux tidy in
      let after : IsTidy (table s').chain (table s').hooks = rw at (partition-IsTidy ports) in
      rw runs (refl, at, clear-listed s' linux after)
