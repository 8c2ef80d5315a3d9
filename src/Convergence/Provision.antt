-- ===== src/Convergence/Provision.antt =====
-- src/convergence/provision.ts: the accounts that Matrix and AT Proto need. A field of a reply that
-- is an empty string counts as missing, as in the source.
-- The JSON that the source appends to an error message is left out.
pub mod Handle
pub mod Variables
use ad4m_link_language_tests.Prelude.{
  Text, Dict, str, ℕ, zero, suc, ◌+◌, Bool, true, false, ◌&&◌, ◌||◌, not, Option, none, some, List,
  [], ◌∷◌, ◌++◌, ◌===◌, leb, ◌==◌, any, if◌then◌else◌, filter, map,
}
use ad4m_link_language_tests.Prelude.Outcome.{Outcome, returned, threw, ◌>>=◌}
use ad4m_link_language_tests.Convergence.{Registration, registered, refused, Environment}

-- `[a-z0-9]` with the flag `i`.
is_alnum : ℕ → Bool
is_alnum c = leb b'a' c && leb c b'z' || leb b'A' c && leb c b'Z' || leb b'0' c && leb c b'9'

to_lower : ℕ → ℕ
to_lower c = if leb b'A' c && leb c b'Z' then c + 32 else c

-- `s.slice(0, n)`
take : ℕ → Text → Text
take zero s = []
take (suc n) [] = []
take (suc n) (c ∷ s) = c ∷ take n s

unfoldable pub safe_localpart : Text → Text
unfolding take is_alnum to_lower
safe_localpart id = take 24 (map to_lower (filter is_alnum id))

-- The value, where there is one that is not empty.
abbrev given : Option Text → Option Text
given none = none
given (some []) = none
given (some (c ∷ s)) = some (c ∷ s)

-- Step 2, for a first reply.
complete : Environment → Text → Text → Registration → Outcome (Option Text × Option Text)
complete env username password (registered token user) = returned (token, user)
complete env username password (refused status session flows e) = elim (given session) [
  | none ↦ threw e
  | some s ↦ (if status == 401 then dummy_stage s else threw e)
]
  where
    done : Registration → Outcome (Option Text × Option Text)
    done (registered token user) = returned (token, user)
    done (refused _ _ _ e') = threw e'

    dummy_stage : Text → Outcome (Option Text × Option Text)
    dummy_stage s =
        if any (any (λ f. f === str "m.login.dummy")) flows
        then done (env.servers.register username password (some s))
        else threw (str "matrix registration requires a non-dummy auth flow")

require : Text → Option Text → Outcome Text
require message none = threw message
require message (some v) = returned v

unfoldable pub provision_matrix : Environment → Text → Outcome (Dict Text)
unfolding complete require safe_localpart
provision_matrix env id =
    let username = str "ad4m_" ++ safe_localpart id in
    let password = str "pw-" ++ id in
    let missing = str "matrix registration returned no access_token/user_id" in
    complete env username password (env.servers.register username password none) >>= λ reg.
    require missing (given reg.0) >>= λ access_token. require missing (given reg.1) >>= λ user_id.
    env.servers.create_room (str "ad4m-c1-" ++ id) access_token >>= λ room.
    require (str "matrix createRoom returned no room_id") (given room) >>= λ room_id. returned (
      (str "MATRIX_HOMESERVER_URL", env.matrix_base)
      ∷ (str "MATRIX_USER_ID", user_id)
      ∷ (str "MATRIX_ACCESS_TOKEN", access_token)
      ∷ (str "MATRIX_ROOM_ID", room_id)
      ∷ (str "MATRIX_ROOM_ALIAS", [])
      ∷ [])

unfoldable pub handle_front : Text → Text
unfolding safe_localpart take
handle_front id = str "ad4m" ++ take 14 (safe_localpart id)

unfoldable pub provision_atproto : Environment → Text → Outcome (Dict Text)
unfolding handle_front require
provision_atproto env id =
    let handle = handle_front id ++ str ".test" in
    let email = handle_front id ++ str "@test.local" in
    let password = str "pw-" ++ id in
    env.servers.create_account handle email password >>= λ acct.
    require (str "atproto createAccount returned no did") (given acct.0) >>= λ did.
    let own_handle : Text = elim (given acct.1) [ none ↦ handle | some h ↦ h ] in
    returned (
      (str "AT_PDS_URL", env.atproto_pds_base)
      ∷ (str "AT_DID", did)
      ∷ (str "AT_HANDLE", own_handle)
      ∷ (str "AT_APP_PASSWORD", password)
      ∷ [])
