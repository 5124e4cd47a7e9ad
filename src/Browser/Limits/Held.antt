-- ===== src/Browser/Limits/Held.antt =====
-- Saving a change that needs a second person, with the server of quotaui/bff behind the network.
use regional_rate_limiter.Prelude.{ℕ, ◌+◌, String, none, some, [], ◌∷◌, ◌≡◌, ◌≢◌, refl, sym, ◌∙◌}
use regional_rate_limiter.Prelude.Int.{pos}
use regional_rate_limiter.Prelude.Dict
use regional_rate_limiter.Prelude.Dict.{get-put}
use regional_rate_limiter.Js.{Runtime, Number, int, Fields, end, property, template}
use regional_rate_limiter.Rbac.{User, limit_write}
use regional_rate_limiter.Validation.{ValidatedLimit, validate_limit, valid}
use regional_rate_limiter.Validation.Limit.{IsTimeUnit, as_is, validate_limit_iff}
use regional_rate_limiter.Rpc.{LimitView}
use regional_rate_limiter.Session.{put}
use regional_rate_limiter.Reviews.{PendingOp, Review, pending, create}
use regional_rate_limiter.Reviews.Policy.{review_reason}
use regional_rate_limiter.World.{World, done, pure, ◌>>=◌}
use regional_rate_limiter.Routes.{
  AppDeps, guard, with_valid, with_review, file_review, respond, pending_review_body,
}
use regional_rate_limiter.Routes.Allowed.{May}
use regional_rate_limiter.Routes.Limits.{update_limit_route}
use regional_rate_limiter.App.{api, update_limit, settle, serve}
use regional_rate_limiter.App.Gate.{IsFrom}
use regional_rate_limiter.App.Access.{api_injective, handle-serve}
use regional_rate_limiter.Browser.{
  Server, Tab, request, req, on_answer, pending_of, json_fields, json_value,
}
use regional_rate_limiter.Browser.Api.{put_limit, limit_fields}
use regional_rate_limiter.Browser.Limits.Editor.{Editor, stays, save, noticed, fresh, failed_edit}
use regional_rate_limiter.Browser.Session.SignIn.{bff}

-- A form that the server's validation accepts.
pub record IsFilledIn (l : LimitView) (n : ℕ) : Type 0 where
  pub service : l.key.service_name ≢ ""
  pub customer : l.key.customer_id ≢ ""
  pub limit_id : l.key.rate_limit_id ≢ ""
  pub value : l.limit_value ≡ int (pos n)
  pub unit : IsTimeUnit l.time_unit
  pub stored : (id : ℕ) × (l.config_id ≡ some (int (pos id)))

abbrev pub validated : LimitView → ValidatedLimit
validated l = record { key = l.key; limit_value = l.limit_value; time_unit = l.time_unit }

form_valid :
    (rt : Runtime) (l : LimitView) (n : ℕ)
    → IsFilledIn l n
    → validate_limit rt (json_fields (limit_fields l)) ≡ valid (validated l)
unfolding json_fields json_value property
form_valid rt l n h =
    rw (h.value, h.stored.1)
      ((validate_limit_iff rt _ _).1 (record {
        keyed = record {
          service = (refl, h.service);
          customer = (refl, h.customer);
          limit_id = (refl, h.limit_id);
        };
        value = as_is refl;
        count = n;
        non_negative = refl;
        unit = refl;
        known_unit = h.unit;
      }))

save_stored :
    {W : Type 0} (rt : Runtime) (server : Server W) (e : Editor) (t : Tab W) (id : Number)
    → e.initial.config_id ≡ some id
    → save rt server e t ≡ (
        let (a, t') = put_limit rt server e.form t in
        (
          on_answer a
              (λ body. noticed "Change" (fresh e) (pending_of body))
              (failed_edit (fresh e)),
          t',
        ))
unfolding save
save_stored rt server e t id h = rw h refl

module _ {S : Type 0} (rt : Runtime) (deps : AppDeps S) (user : User) where
  abbrev op_of : LimitView → PendingOp
  op_of l = PendingOp.limit_update l.key l.limit_value l.time_unit

  abbrev pub filed : LimitView → String → World S → Review
  filed l reason w = record {
    id = rt.random_hex w.draws;
    op = op_of l;
    reason = reason;
    initiator = user.email;
    status = pending;
    created_at = rt.now_iso w.readings;
    decided_by = none;
    decided_at = none;
  }

  -- The server's state with the review, under its id.
  abbrev pub with_filed : LimitView → String → World S → World S
  with_filed l reason w = record w {
    reviews = Dict.put (rt.random_hex w.draws) (filed l reason w) w.reviews;
    draws = w.draws + 1;
    readings = w.readings + 1;
  }

  update_held :
      (body : Fields) (l : LimitView) (reason : String) (w : World S)
      → validate_limit rt body ≡ valid (validated l)
      → May user deps.policy limit_write (some l.key.service_name)
      → review_reason rt (op_of l) deps.review_policy ≡ some reason
      → update_limit_route rt deps user body w
        ≡ (done (respond 202 (pending_review_body (filed l reason w))), with_filed l reason w)
  unfolding update_limit_route with_valid guard with_review file_review ◌>>=◌ pure create
  update_held body l reason w fine may held = rw fine (rw may (rw (held, with_review) refl))

  -- Saving a change of a limit that needs a second person, from the page to the server and back,
  -- by a user who may write limits of its service, with a form that is filled in: the editor
  -- stays open and tells the reason; the server has one review more, or a new one in place of one
  -- with the same id: it is pending, holds the change, with the reason, and has the user as its
  -- initiator; and all else on the server is as before but the counts of random texts and of clock
  -- readings, which go up by one: the backends are not called, and nothing is logged.
  pub save_held :
      (e : Editor) (t : Tab (World S)) (n : ℕ) (reason : String)
      → IsFilledIn e.form n
      → e.initial.config_id ≡ e.form.config_id
      → IsFrom
          (request put (api update_limit) end (some (limit_fields e.form)) t.client)
          t.remote
          user
      → May user deps.policy limit_write (some e.form.key.service_name)
      → review_reason rt (op_of e.form) deps.review_policy ≡ some reason
      → ((save rt (bff rt deps) e t).0
          ≡ stays (record e {
            error = none;
            notice = some (template ("Change" ∷ " requires two-person review: " ∷ reason ∷ []));
          }))
        × ((save rt (bff rt deps) e t).1.remote ≡ with_filed e.form reason t.remote)
  unfolding put_limit req serve settle
  save_held e t n reason filled same from may held =
      rw (save_stored rt (bff rt deps) e t _ (same ∙ filled.stored.1)) (
        rw (handle-serve rt deps _ _ user from) (
          rw (sym (api_injective from.routed)) (
            rw (update_held _ e.form reason t.remote (form_valid rt e.form n filled) may held)
              (refl, refl))))
