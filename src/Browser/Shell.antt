-- ===== src/Browser/Shell.antt =====
-- quotaui/frontend/src/App.tsx: the gate of the pages and their tabs.
use regional_rate_limiter.Prelude.{String, Bool, true, false, none, some, List, [], ◌∷◌, keep}
use regional_rate_limiter.Rbac.Mirror.{review_approve}
use regional_rate_limiter.Browser.Session.{Provider, can}

pub data TabName : Type 0 where
  limits services usage audit reviews : TabName

-- `TABS`
abbrev pub tabs : List TabName
tabs = limits ∷ services ∷ usage ∷ audit ∷ reviews ∷ []

pub record Shell : Type 0 where
  pub tab : TabName
  pub dev_user : String

abbrev pub first_shell : Shell
first_shell = record { tab = limits; dev_user = "alice" }

abbrev offered : Provider → TabName → Bool
offered session reviews = can session review_approve none
offered session _ = true

-- What the shell shows: that it loads, the form to sign in, or the tabs that are offered and the page
-- of the one that is open.
pub data Screen : Type 0 where
  loading : Screen
  sign_in_form : (dev_user : String) → Screen
  pages : (email : String) → List TabName → (open_tab : TabName) → Screen

unfoldable pub screen : Provider → Shell → Screen
screen session s = elim session.loading [
  | true ↦ loading
  | false ↦ elim session.session [
    | none ↦ sign_in_form s.dev_user
    | some info ↦ pages info.email (keep (offered session) tabs) s.tab
  ]
]
