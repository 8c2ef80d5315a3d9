-- ===== src/Mesh/Tests.antt =====
-- Three bare hosts are meshed.
use ad4m_link_language_tests.Prelude.{
  Text, str, ◌+◌, ◌*◌, ◌≡◌, refl, true, some, List, [], ◌∷◌, length, map, All, arith,
}
use ad4m_link_language_tests.Mesh.{MeshHost, Link, connect_all, peer_count}
use ad4m_link_language_tests.Mesh.Ids.{keys, ids, others}
use ad4m_link_language_tests.Mesh.Full.{connect_all_full}

abbrev bare : Text → MeshHost
bare id = record { id = id; peers = [] }

abbrev three : List MeshHost
three = bare (str "a") ∷ bare (str "b") ∷ bare (str "c") ∷ []

connect_all_full_example :
    (meshed : List MeshHost) × (links : List Link) × (connect_all (λ n. true) (λ a b. true) three
      ≡ some (meshed, links))
    × (ids meshed ≡ str "a" ∷ str "b" ∷ str "c" ∷ [])
    × (map keys meshed ≡ others [] (ids three))
    × All (λ h. peer_count h + 1 ≡ 3) meshed
    × (2 * length links + 3 ≡ 3 * 3)
unfolding keys
connect_all_full_example =
    connect_all_full (λ n. true) (λ a b. true) three (λ n. refl) (λ a b. refl)
      (refl, (refl, (refl, tt)))
      (
        (λ p. ground (arith, p), (λ p. ground (arith, p), tt)),
        ((λ p. ground (arith, p), tt), (tt, tt)),
      )
