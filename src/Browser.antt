-- ===== src/Browser.antt =====
-- quotaui/frontend/src/api.ts: the browser's client of the server.
--
-- `fetch` reaches a server with a state of its own: a function from a request to a response, or to an
-- error if the network fails. A request names the route that Express matches its path with, and the
-- JSON of a response is one of the server's `Payload`s. The cookie of the session is in the
-- browser's jar, which no code of the page reads.
pub mod Api
pub mod Session
pub mod Components
pub mod Limits
pub mod Usage
pub mod Services
pub mod Audit
pub mod Reviews
pub mod Shell
pub mod Affordances
pub mod Windows
use regional_rate_limiter.Prelude.{
  ℕ, String, Bool, true, false, not, ◌&&◌, Option, none, some, List, [], ◌∷◌, ◌==◌, leb, or_else,
  if◌then◌else◌,
}
use regional_rate_limiter.Prelude.Int.{pos}
use regional_rate_limiter.Js.{
  Runtime, Number, nan, infinity, neg_infinity, int, Value, undefined, null, boolean, number, text,
  array, object, Items, nil, cons, Fields, end, field, to_text, template,
}
use regional_rate_limiter.Session.{HttpMethod, get}
use regional_rate_limiter.Routes.{
  Payload, Response, CookieChange, keep_cookie, clear_cookie, set_cookie, error_body, errors_body,
  forbidden_body, rpc_error_body, pending_review_body,
}
use regional_rate_limiter.App.{Route, Request}
use regional_rate_limiter.Reviews.{Review}

-- What `fetch` resolves to, or the message of its error.
pub data Fetched : Type 0 where
  arrived : Response → Fetched
  lost : String → Fetched

abbrev pub Server : Type 0 → Type 0
Server W = Request → W → Fetched × W

-- The module variable `csrfToken`, and the cookie that the browser keeps.
pub record Client : Type 0 where
  pub csrf_token : String
  pub cookie : Option String

-- A page's view of the world: its own client, and the server's state behind the network.
pub record Tab (W : Type 0) : Type 0 where
  pub client : Client
  pub remote : W

pub record ApiError : Type 0 where
  pub status : ℕ
  pub message : String
  pub body : Payload

-- What `req` resolves to, or throws: an `ApiError`, or the error of `fetch`.
pub data Answer : Type 0 where
  answered : Payload → Answer
  refused : ApiError → Answer
  unreachable : String → Answer

-- How the browser's jar follows a response.
abbrev pub follow : CookieChange → Option String → Option String
follow keep_cookie old = old
follow clear_cookie old = none
follow (set_cookie id) old = some id

abbrev pub is_get : HttpMethod → Bool
is_get get = true
is_get _ = false

-- `res.ok`
abbrev pub is_ok : ℕ → Bool
is_ok status = leb 200 status && leb status 299

-- `errors.join("; ")`
abbrev pub join_errors : List String → String
join_errors [] = ""
join_errors (e ∷ []) = e
join_errors (e ∷ es) = template (e ∷ "; " ∷ join_errors es ∷ [])

abbrev http_text : Runtime → ℕ → String
http_text rt status = template ("HTTP " ∷ rt.number_text (int (pos status)) ∷ [])

-- `parsed?.error ?? (parsed?.errors ? … : …)`
unfoldable pub error_message : Runtime → ℕ → Payload → String
error_message rt status (error_body e) = e
error_message rt status (rpc_error_body e code) = e
error_message rt status (forbidden_body reason) = "forbidden"
error_message rt status (errors_body es) = join_errors es
error_message rt status _ = http_text rt status

unfoldable mutual
  -- What a value is after `JSON.stringify` and `JSON.parse`: numbers that are not finite are null,
  -- as is undefined in an array.
  pub json_value : Value → Value
  json_value undefined = null
  json_value (number nan) = null
  json_value (number infinity) = null
  json_value (number neg_infinity) = null
  json_value (array vs) = array (json_items vs)
  json_value (object fs) = object (json_fields fs)
  json_value v = v

  pub json_items : Items → Items
  json_items nil = nil
  json_items (cons v vs) = cons (json_value v) (json_items vs)

  -- A field that is undefined is left out.
  pub json_fields : Fields → Fields
  json_fields end = end
  json_fields (field k undefined fs) = json_fields fs
  json_fields (field k v fs) = field k (json_value v) (json_fields fs)

abbrev sent_body : Option Fields → Fields
sent_body none = end
sent_body (some b) = json_fields b

abbrev pub is_empty_param : Value → Bool
is_empty_param undefined = true
is_empty_param null = true
is_empty_param (text s) = s == ""
is_empty_param _ = false

-- `qs`: the query that Express parses from the text of the parameters.
unfoldable pub qs : Runtime → Fields → Fields
qs rt end = end
qs rt (field k v ps) =
    let rest = qs rt ps in if is_empty_param v then rest else field k (text (to_text rt v)) rest

-- `isPending`
abbrev pub pending_of : Payload → Option Review
pending_of (pending_review_body r) = some r
pending_of _ = none

-- The request of `fetch`.
abbrev pub request : HttpMethod → Route → Fields → Option Fields → Client → Request
request method route query body c = record {
  route = route;
  cookie = c.cookie;
  csrf = if is_get method then none else some c.csrf_token;
  query = query;
  body = sent_body body;
}

module _ {W : Type 0} (rt : Runtime) (server : Server W) where
  abbrev pub to_answer : Fetched → Answer
  to_answer (lost m) = unreachable m
  to_answer (arrived res) =
      if is_ok res.status
      then answered res.body
      else refused (record {
        status = res.status;
        message = error_message rt res.status res.body;
        body = res.body;
      })

  abbrev pub kept : Fetched → Client → Client
  kept (lost m) c = c
  kept (arrived res) c = record c { cookie = follow res.cookie c.cookie }

  -- `req`
  unfoldable pub req : HttpMethod → Route → Fields → Option Fields → Tab W → Answer × Tab W
  req method route query body t =
      let (res, w) = server (request method route query body t.client) t.remote in
      (to_answer res, record { client = kept res t.client; remote = w })

-- An error that a page shows: a text of its own, or what a call threw.
pub data PageError : Type 0 where
  said : String → PageError
  api_error : ApiError → PageError
  fetch_error : String → PageError

-- How a `try` block goes on after a call: with the answer, or in its `catch`.
abbrev pub on_answer {ℓ} : {A : Type ℓ} → Answer → (Payload → A) → (PageError → A) → A
on_answer (answered body) f g = f body
on_answer (refused e) f g = g (api_error e)
on_answer (unreachable m) f g = g (fetch_error m)
