-- ===== src/Net/Tests.antt =====
-- src/net.ts: two ports are dropped where another one was, and the commands of a delay with loss.
use ad4m_link_language_tests.Net
use ad4m_link_language_tests.Net.Partition.{
  Table, iptables, Obeys, hooked, no_partition, partition_of, drop_tcp_ports-clear_partition,
}
use ad4m_link_language_tests.Prelude.{str, true, some, [], ◌∷◌, ◌≡◌, refl, arith}

abbrev machine : Net.Machine Table
machine = record { is_linux = true; exec = λ c s. iptables c s.chain s.hooks }

abbrev partitioned : Table
partitioned = record { chain = some (9 ∷ []); hooks = 1 }

machine-Obeys : Obeys machine (λ t. t)
unfolding Obeys
machine-Obeys = λ c s _. refl

delay_and_loss :
    Net.parts
      (record { loss_pct = some (str "5"); delay_ms = some (str "20"); jitter_ms = some (str "3") })
    ≡ str "loss 5%" ∷ str "delay 20ms 3ms" ∷ []
unfolding Net.parts
delay_and_loss = refl

drop_tcp_ports-clear_partition_example :
    ((Net.drop_tcp_ports machine (7 ∷ 8 ∷ []) partitioned).1 ≡ true)
    × ((Net.drop_tcp_ports machine (7 ∷ 8 ∷ []) partitioned).0 ≡ partition_of (7 ∷ 8 ∷ []))
    × (Net.clear_partition machine (Net.drop_tcp_ports machine (7 ∷ 8 ∷ []) partitioned).0
        ≡ no_partition)
drop_tcp_ports-clear_partition_example =
    drop_tcp_ports-clear_partition machine (λ t. t) machine-Obeys (7 ∷ 8 ∷ []) partitioned
      (omega arith, (omega arith, tt)) refl hooked
