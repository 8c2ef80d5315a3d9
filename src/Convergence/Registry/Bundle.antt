-- ===== src/Convergence/Registry/Bundle.antt =====
-- src/convergence/languages.ts: what the entries share.
use ad4m_link_language_tests.Prelude.{Text, str, ℕ, ◌++◌, Option, some}
use ad4m_link_language_tests.Convergence.{BackendHealth}

-- `resolve(WORKSPACE_ROOT, "<name>-link-language/build/bundle.js")`
abbrev pub bundle : Text → Text → Text
bundle root name = root ++ str "/" ++ name ++ str "-link-language/build/bundle.js"

-- `{ compose, healthTcp: { host: "127.0.0.1", port } }`
abbrev pub at_home : Text → ℕ → Option BackendHealth
at_home compose port = some (record { compose = compose; host = str "127.0.0.1"; port = port })
