-- ===== src/Browser/Reviews.antt =====
-- quotaui/frontend/src/pages/Reviews.tsx: the queue of reviews.
pub mod Approving
use regional_rate_limiter.Prelude.{String, Bool, Option, none, some, List, [], if◌then◌else◌}
use regional_rate_limiter.Js.{Runtime}
use regional_rate_limiter.Reviews.{Review}
use regional_rate_limiter.Routes.{Payload, reviews_body}
use regional_rate_limiter.Browser.{Server, Tab, on_answer, PageError}
use regional_rate_limiter.Browser.Api.{get_reviews, post_approval, post_rejection}

pub record ReviewsPage : Type 0 where
  pub reviews : List Review
  pub error : Option PageError

-- `(…).reviews`
abbrev pub reviews_of : Payload → List Review
reviews_of (reviews_body rs) = rs
reviews_of _ = []

module _ {W : Type 0} (rt : Runtime) (server : Server W) where
  -- `load`
  unfoldable pub load : ReviewsPage → Tab W → ReviewsPage × Tab W
  load p t =
      let (a, t') = get_reviews rt server t in
      (
        on_answer a (λ body. record p { reviews = reviews_of body; error = none })
            (λ e. record p { error = some e }),
        t',
      )

  -- `decide`
  unfoldable pub decide : String → Bool → ReviewsPage → Tab W → ReviewsPage × Tab W
  decide id approve p t =
      let (a, t') =
        if approve then post_approval rt server id t else post_rejection rt server id t in
      on_answer a (λ body. load (record p { error = none }) t')
        (λ e. (record p { error = some e }, t'))
