-- ===== src/Convergence/Registry.antt =====
-- src/convergence/languages.ts: the registry of link languages.
pub mod Bundle
pub mod Hosted
pub mod Gateways
pub mod Templates
pub mod Entries
use ad4m_link_language_tests.Prelude.{Text, Option, List, [], ◌∷◌, ◌===◌, find?}
use ad4m_link_language_tests.Convergence.{ConvergenceLanguage, Environment}
use ad4m_link_language_tests.Convergence.Registry.Hosted.{nostr, ipfs, solid, matrix, atproto}
use ad4m_link_language_tests.Convergence.Registry.Gateways.{
  nextgraph, peer2panda, hypercore, ap, git, anytype, freenet,
}

-- `CONVERGENCE_LANGUAGES`
abbrev pub convergence_languages : Environment → List ConvergenceLanguage
convergence_languages env =
    nostr env
    ∷ ipfs env
    ∷ solid env
    ∷ nextgraph env
    ∷ peer2panda env
    ∷ hypercore env
    ∷ matrix env
    ∷ atproto env
    ∷ ap env
    ∷ git env
    ∷ anytype env
    ∷ freenet env
    ∷ []

unfoldable pub get_convergence_language : Environment → Text → Option ConvergenceLanguage
get_convergence_language env id = find? (λ l. l.id === id) (convergence_languages env)
