-- ===== src/Convergence/Registry/Templates.antt =====
-- src/convergence/languages.ts and scenarios/c1-convergence.ts: the template variables of a language.
use ad4m_link_language_tests.Prelude.{
  Text, Dict, Bool, true, any, all, all-All, find?-All, none, some, List, [], ◌∷◌, ◌===◌, All,
  insert, ◌≡◌, refl, Bool-cases, inl, inr,
}
use ad4m_link_language_tests.Prelude.Outcome.{Outcome, returned, threw, ◌>>=◌, Yields}
use ad4m_link_language_tests.Convergence.{ConvergenceLanguage, Environment}
use ad4m_link_language_tests.Convergence.Provision.Variables.{
  names, names-provision_matrix, names-provision_atproto,
}
use ad4m_link_language_tests.Convergence.Registry.Hosted.{nostr, ipfs, solid, matrix, atproto}
use ad4m_link_language_tests.Convergence.Registry.Gateways.{
  nextgraph, peer2panda, hypercore, ap, git, anytype, freenet,
}
use ad4m_link_language_tests.Convergence.Registry.{convergence_languages, get_convergence_language}

-- `{ ...base, ...extra }`
abbrev spread : Dict Text → Dict Text → Dict Text
spread base [] = base
spread base ((k, v) ∷ extra) = spread (insert k v base) extra

-- What c1 publishes a language with.
unfoldable pub template_of : ConvergenceLanguage → Text → Outcome (Dict Text)
template_of l id = elim l.provision [
  | none ↦ returned (l.make_template_data id)
  | some p ↦ p id >>= λ extra. returned (spread (l.make_template_data id) extra)
]

-- The variable stands among the language's `possibleTemplateParams`.
abbrev is_declared : ConvergenceLanguage → Text → Bool
is_declared l k = any (λ p. p === k) l.possible_template_params

pub AreDeclared : ConvergenceLanguage → Dict Text → Type 0
AreDeclared l = All (λ e. is_declared l e.0 ≡ true)

insert-AreDeclared :
    (l : ConvergenceLanguage) (k v : Text) (m : Dict Text)
    → is_declared l k ≡ true
    → AreDeclared l m
    → AreDeclared l (insert k v m)
unfolding AreDeclared insert
insert-AreDeclared l k v [] d g = (d, tt)
insert-AreDeclared l k v ((j, w) ∷ m) d (p, g) = elim (Bool-cases (j === k)) [
  | inl here ↦ rw here (d, g)
  | inr away ↦ rw away (p, insert-AreDeclared l k v m d g)
]

spread-AreDeclared :
    (l : ConvergenceLanguage) (base extra : Dict Text)
    → AreDeclared l base
    → AreDeclared l extra
    → AreDeclared l (spread base extra)
unfolding AreDeclared
spread-AreDeclared l base [] h k = h
spread-AreDeclared l base ((k, v) ∷ extra) h (d, e) =
    spread-AreDeclared l (insert k v base) extra (insert-AreDeclared l k v base d h) e

-- Variables with these names are declared.
AreNamed : ConvergenceLanguage → List Text → Type 0
AreNamed l = All (λ k. is_declared l k ≡ true)

AreNamed-AreDeclared :
    (l : ConvergenceLanguage) (ks : List Text) (d : Dict Text)
    → names d ≡ ks
    → AreNamed l ks
    → AreDeclared l d
unfolding AreNamed AreDeclared
AreNamed-AreDeclared l ks d e h = go d (rw e h)
  where
    go : (m : Dict Text) → All (λ k. is_declared l k ≡ true) (names m) → AreDeclared l m
    go [] g = tt
    go (x ∷ m) (p, g) = (p, go m g)

-- Every template of the language has declared variables only.
pub DeclaresTemplates : ConvergenceLanguage → Type 0
DeclaresTemplates l = (id : Text) → Yields (AreDeclared l) (template_of l id)

provisioned-DeclaresTemplates :
    (l : ConvergenceLanguage) (p : Text → Outcome (Dict Text)) (ks : List Text)
    → l.provision ≡ some p
    → ((id : Text) → Yields (λ d. names d ≡ ks) (p id))
    → AreNamed l ks
    → ((id : Text) → AreDeclared l (l.make_template_data id))
    → DeclaresTemplates l
unfolding DeclaresTemplates template_of ◌>>=◌ Yields AreDeclared
provisioned-DeclaresTemplates l p ks e yields named base id = rw e (go (p id) (yields id))
  where
    go :
        (o : Outcome (Dict Text))
        → Yields (λ d. names d ≡ ks) o
        → Yields (AreDeclared l) (o >>= λ extra. returned (spread (l.make_template_data id) extra))
    go (returned d) n = spread-AreDeclared l _ d (base id) (AreNamed-AreDeclared l ks d n named)
    go (threw _) n = tt

static-DeclaresTemplates :
    (l : ConvergenceLanguage)
    → l.provision ≡ none
    → ((id : Text) → all (λ e. is_declared l e.0) (l.make_template_data id) ≡ true)
    → DeclaresTemplates l
unfolding DeclaresTemplates template_of AreDeclared Yields
static-DeclaresTemplates l none_given checks id = rw none_given (all-All _ _ (checks id))

module _ (env : Environment) where
  All-DeclaresTemplates : All DeclaresTemplates (convergence_languages env)
  unfolding ◌===◌ AreDeclared AreNamed
  All-DeclaresTemplates = (
    static-DeclaresTemplates (nostr env) refl (λ id. refl),
    (
      static-DeclaresTemplates (ipfs env) refl (λ id. refl),
      (
        static-DeclaresTemplates (solid env) refl (λ id. refl),
        (
          static-DeclaresTemplates (nextgraph env) refl (λ id. refl),
          (
            static-DeclaresTemplates (peer2panda env) refl (λ id. refl),
            (
              static-DeclaresTemplates (hypercore env) refl (λ id. refl),
              (
                provisioned-DeclaresTemplates (matrix env) _ _ refl (names-provision_matrix env)
                    (refl, (refl, (refl, (refl, (refl, tt))))) (λ id. (refl, tt)),
                (
                  provisioned-DeclaresTemplates (atproto env) _ _ refl (names-provision_atproto env)
                      (refl, (refl, (refl, (refl, tt)))) (λ id. (refl, tt)),
                  (
                    static-DeclaresTemplates (ap env) refl (λ id. refl),
                    (
                      static-DeclaresTemplates (git env) refl (λ id. refl),
                      (
                        static-DeclaresTemplates (anytype env) refl (λ id. refl),
                        (static-DeclaresTemplates (freenet env) refl (λ id. refl), tt),
                      ),
                    ),
                  ),
                ),
              ),
            ),
          ),
        ),
      ),
    ),
  )

-- Every variable that c1 publishes a registered language with, those that provisioning supplies
-- included, is one of the `possibleTemplateParams` that the registry lists for the language.
pub get_convergence_language-DeclaresTemplates :
    (env : Environment) (name : Text) (l : ConvergenceLanguage)
    → get_convergence_language env name ≡ some l
    → DeclaresTemplates l
unfolding get_convergence_language
get_convergence_language-DeclaresTemplates env name l e =
    find?-All DeclaresTemplates (λ k. k.id === name) (convergence_languages env) l
      (All-DeclaresTemplates env) e
