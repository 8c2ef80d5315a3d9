-- ===== src/Convergence/Registry/Entries.antt =====
-- src/convergence/languages.ts: the registry's entries, told apart by id and by neighbourhood.
use ad4m_link_language_tests.Prelude.{
  Text, Dict, str, ℕ, zero, suc, none, some, [], ◌∷◌, ◌===◌, All, arith, ◌≡◌, ◌≢◌, refl, ap as cong,
  get_elem?, get_elem?-All, find?-All, append_cancel_left, append_cancel_right,
}
use ad4m_link_language_tests.Convergence.{ConvergenceLanguage, Environment}
use ad4m_link_language_tests.Convergence.Registry.{convergence_languages, get_convergence_language}

-- A language whose template tells these two neighbourhoods apart.
Separates : Text → Text → ConvergenceLanguage → Type 0
Separates m n l = l.provision ≡ none → l.make_template_data m ≡ l.make_template_data n → m ≡ n

-- The value of the variable at this place.
at : ℕ → Dict Text → Text
at i [] = []
at zero ((k, v) ∷ d) = v
at (suc i) (e ∷ d) = at i d

module _ (env : Environment) (m n : Text) (apart_in_hex32 : env.hex32 m ≡ env.hex32 n → m ≡ n) where
  All-Separates : All (Separates m n) (convergence_languages env)
  unfolding Separates at
  All-Separates = (
    λ _ e. cong (at 1) e,
    (
      λ _ e. append_cancel_left (str "neighbourhood://") m n (cong (at 3) e),
      (
        λ _ e. append_cancel_right m n b'/' (append_cancel_left (str "ad4m/") _ _ (cong (at 1) e)),
        (
          λ _ e. cong (at 1) e,
          (
            λ _ e. cong (at 1) e,
            (
              λ _ e. apart_in_hex32 (cong (at 1) e),
              (
                λ provisioned _. absurd (ground (arith, provisioned)),
                (
                  λ provisioned _. absurd (ground (arith, provisioned)),
                  (
                    λ _ e.
                        append_cancel_left (str "http://127.0.0.1:7791/ap/v1/groups/") m n
                          (cong (at 0) e),
                    (
                      λ _ e.
                          append_cancel_left (str "http://127.0.0.1:7792/c1/") m n (cong (at 0) e),
                      (λ _ e. cong (at 1) e, (λ _ e. cong (at 1) e, tt)),
                    ),
                  ),
                ),
              ),
            ),
          ),
        ),
      ),
    ),
  )

  -- For two different neighbourhoods that have different digests: a registered language that is not
  -- provisioned is templated differently for the one and the other.
  pub get_convergence_language-Separates :
      (name : Text) (l : ConvergenceLanguage)
      → get_convergence_language env name ≡ some l
      → l.provision ≡ none
      → m ≢ n
      → l.make_template_data m ≢ l.make_template_data n
  unfolding get_convergence_language Separates
  get_convergence_language-Separates name l e static apart same = apart (
      find?-All (Separates m n) (λ k. k.id === name) (convergence_languages env) l All-Separates e
        static same)

-- The registered languages are found by their ids: no two have the same one.
pub get_convergence_language-id :
    (env : Environment) (i : ℕ) (l : ConvergenceLanguage)
    → get_elem? (convergence_languages env) i ≡ some l
    → get_convergence_language env l.id ≡ some l
unfolding get_convergence_language ◌===◌
get_convergence_language-id env i l e =
    get_elem?-All (λ k. get_convergence_language env k.id ≡ some k) (convergence_languages env) i l
      (
        refl,
        (refl, (refl, (refl, (refl, (refl, (refl, (refl, (refl, (refl, (refl, (refl, tt))))))))))),
      )
      e
