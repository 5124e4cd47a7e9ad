-- ===== src/Browser/Session.antt =====
-- quotaui/frontend/src/session.tsx: the session that the pages share. An answer to `api.session` and
-- `api.login` that is not an error is a session, as the types of the source say.
pub mod SignIn
pub mod Reload
use regional_rate_limiter.Prelude.{String, Bool, true, false, Option, none, some, List, or_else}
use regional_rate_limiter.Js.{Runtime}
use regional_rate_limiter.Rbac.{Grant}
use regional_rate_limiter.Rbac.Mirror.{Capability, can_do}
use regional_rate_limiter.Routes.{Payload, session_body}
use regional_rate_limiter.Browser.{Server, Client, Tab, Answer, answered, refused, unreachable}
use regional_rate_limiter.Browser.Api.{sign_in, sign_out, get_session_info}

pub record SessionInfo : Type 0 where
  pub id : String
  pub email : String
  pub grants : List Grant
  pub editable_services : List String
  pub csrf_token : String

-- The state of the provider.
pub record Provider : Type 0 where
  pub session : Option SessionInfo
  pub loading : Bool

abbrev pub initial : Provider
initial = record { session = none; loading = true }

abbrev pub info_of : Payload → Option SessionInfo
info_of (session_body user services token) = some (record {
  id = user.id;
  email = user.email;
  grants = user.grants;
  editable_services = services;
  csrf_token = token;
})
info_of _ = none

-- `s?.csrf_token ?? ""`
abbrev pub token_of : Option SessionInfo → String
token_of none = ""
token_of (some s) = s.csrf_token

-- `apply`, with `setCsrf`
unfoldable pub apply : {W : Type 0} → Option SessionInfo → Provider → Tab W → Provider × Tab W
apply s p t =
    (record p { session = s }, record t { client = record t.client { csrf_token = token_of s } })

-- `can`: the creation policy of the server is not passed.
unfoldable pub can : Provider → Capability → Option String → Bool
can p cap service = elim p.session [ none ↦ false | some s ↦ can_do s.grants cap service none ]

module _ {W : Type 0} (rt : Runtime) (server : Server W) where
  abbrev pub loaded : Answer → Provider → Tab W → Provider × Tab W
  loaded (answered body) p t = apply (info_of body) p t
  loaded _ p t = apply none p t

  -- the effect on mount
  unfoldable pub load : Provider → Tab W → Provider × Tab W
  load p t =
      let (a, t') = get_session_info rt server t in
      let (p', t'') = loaded a p t' in (record p' { loading = false }, t'')

  abbrev pub entered : Answer → Provider → Tab W → Provider × Tab W
  entered (answered body) p t = apply (info_of body) p t
  entered _ p t = (p, t)

  -- `login`: an error is thrown, and nothing is applied.
  unfoldable pub login : String → Provider → Tab W → Provider × Tab W
  login user p t = let (a, t') = sign_in rt server user t in entered a p t'

  abbrev pub left : Answer → Provider → Tab W → Provider × Tab W
  left (answered body) p t = apply none p t
  left _ p t = (p, t)

  -- `logout`
  unfoldable pub logout : Provider → Tab W → Provider × Tab W
  logout p t = let (a, t') = sign_out rt server t in left a p t'
