-- ===== src/Cascade/Pod.antt =====
-- src/agent-pod.ts: the arguments of `docker` for the container of an executor.
use ad4m_link_language_tests.Prelude.{
  Text, str, decimal, ℕ, zero, suc, Bool, true, false, Option, none, some, List, [], ◌∷◌, ◌++◌,
}

pub record ContainerOpts : Type 0 where
  pub name : Text
  pub image : Option Text
  pub network : Option Text
  pub host_mcp_port : ℕ
  pub host_ws_port : Option ℕ
  pub admin_credential : Text
  pub agent_passphrase : Option Text
  pub run_holochain : Option Bool

-- What an optional text adds: nothing if it is left out or empty.
when_text : Option Text → (Text → List Text) → List Text
when_text none f = []
when_text (some []) f = []
when_text (some (c ∷ cs)) f = f (c ∷ cs)

when_port : Option ℕ → (ℕ → List Text) → List Text
when_port none f = []
when_port (some zero) f = []
when_port (some (suc n)) f = f (suc n)

with_default : Option Text → Text → Text
with_default none d = d
with_default (some t) d = t

runs_holochain : Option Bool → Text
runs_holochain (some true) = str "true"
runs_holochain (some false) = str "false"
runs_holochain none = str "false"

unfoldable pub container_args : ContainerOpts → List Text
unfolding when_text when_port with_default runs_holochain decimal
container_args o =
    (str "run" ∷ str "-d" ∷ str "--name" ∷ o.name ∷ [])
    ++ when_text o.network (λ n. str "--network" ∷ n ∷ [])
    ++ (str "-e"
        ∷ (str "ADMIN_CREDENTIAL=" ++ o.admin_credential)
        ∷ str "-e"
        ∷ str "ENABLE_MULTI_USER=true"
        ∷ str "-e"
        ∷ str "ENABLE_MCP=true"
        ∷ str "-e"
        ∷ str "MCP_PORT=3001"
        ∷ str "-e"
        ∷ (str "RUN_HOLOCHAIN=" ++ runs_holochain o.run_holochain)
        ∷ [])
    ++ when_text o.agent_passphrase (λ p. str "-e" ∷ (str "AGENT_PASSPHRASE=" ++ p) ∷ [])
    ++ (str "-p" ∷ (str "127.0.0.1:" ++ decimal o.host_mcp_port ++ str ":3001") ∷ [])
    ++ when_port o.host_ws_port
        (λ p. str "-p" ∷ (str "127.0.0.1:" ++ decimal p ++ str ":12000") ∷ [])
    ++ (str "--cap-drop"
        ∷ str "ALL"
        ∷ str "--cap-add"
        ∷ str "CHOWN"
        ∷ str "--cap-add"
        ∷ str "SETUID"
        ∷ str "--cap-add"
        ∷ str "SETGID"
        ∷ str "--cap-add"
        ∷ str "DAC_OVERRIDE"
        ∷ str "--cap-add"
        ∷ str "FOWNER"
        ∷ str "--security-opt"
        ∷ str "no-new-privileges:true"
        ∷ str "--memory"
        ∷ str "2g"
        ∷ str "--cpus"
        ∷ str "1.5"
        ∷ str "--pids-limit"
        ∷ str "512"
        ∷ with_default o.image (str "ad4m-test:latest")
        ∷ [])
