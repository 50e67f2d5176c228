-- ===== src/System.antt =====
-- The API as one system: the requests to the routes of the actions, of the workflows and of Stripe,
-- and to the callback of GitHub, served one after another on one database.
pub mod Keeps
pub mod Listings
pub mod Workflows
pub mod Payments
pub mod Numbering
use shob_app.Prelude.{ℕ, Option}
use shob_app.Store.Effects.{Prisma, World}
use shob_app.Action.Zod.{Js}
use shob_app.Action.Endpoints.{ActionRequest}
use shob_app.Action.Endpoints as action_routes
use shob_app.Flow.Endpoints.{FlowRequest}
use shob_app.Flow.Endpoints as flow_routes
use shob_app.StripeService.{Stripe, Config}
use shob_app.StripeService.Endpoints.{StripeRequest}
use shob_app.StripeService.Endpoints as stripe_routes
use shob_app.Linking.{Redis, Callback, callback}
use shob_app.Pages.{Order}

-- What the API is run with.
pub record Server : Type 1 where
  pub prisma : Prisma
  pub js : Js
  pub order : Order
  pub stripe : Stripe
  pub config : Config
  pub redis : Redis
  pub max_limit : Option ℕ

-- A request, with the user of its session.
pub data ApiRequest : Type 0 where
  action : ActionRequest → ℕ → ApiRequest
  flow : FlowRequest → ℕ → ApiRequest
  stripe : StripeRequest → ℕ → ApiRequest
  link : Callback → ℕ → ApiRequest

module _ (s : Server) where
  unfoldable pub handle : ApiRequest → World → World
  handle (ApiRequest.action r user_id) w = (action_routes.serve s.prisma s.js r user_id w).1
  handle (ApiRequest.flow r user_id) w =
      (flow_routes.serve s.prisma s.order s.max_limit r user_id w).1
  handle (ApiRequest.stripe r user_id) w =
      (stripe_routes.serve s.prisma s.order s.stripe s.config s.max_limit r user_id w).1
  handle (ApiRequest.link q user_id) w = (callback s.prisma s.redis q user_id w).1

  -- The states that requests lead to.
  pub data Reachable (start : World) : World → Type 0 where
    here : Reachable start start
    next : {w : World} → Reachable start w → (r : ApiRequest) → Reachable start (handle r w)
