-- ===== src/StripeService/Endpoints.antt =====
-- The routes of stripe.controller.ts; the bodies have passed their schemas.
use shob_app.Prelude.{ℕ, String, Option, List}
use shob_app.Platform.{SubscriptionsPlan}
use shob_app.Store.Rows.{Subscription, Payment}
use shob_app.Store.Effects.{M, Prisma, pure, ◌>>=◌, ◌>>◌}
use shob_app.Store.Effects.Http.{as_http}
use shob_app.Pages.{Order, Pagination, Parsed, paged}
use shob_app.StripeService.{
  Stripe, Config, create_checkout_session, update_subscription, get_current_subscription,
  get_invoices, cancel_subscription, webhook, create_billing_portal_session,
}

pub data StripeRequest : Type 0 where
  create_checkout update_plan : SubscriptionsPlan → StripeRequest
  current cancel portal : StripeRequest
  invoices : Parsed → Parsed → StripeRequest
  notify : String → String → StripeRequest

pub data StripeReply : Type 0 where
  checkout : ℕ × Option String → StripeReply
  subscription : Subscription → StripeReply
  payments : List Payment × Pagination → StripeReply
  session : ℕ × String → StripeReply
  done : StripeReply

module _ (prisma : Prisma) (order : Order) (stripe : Stripe) (config : Config) where
  -- What a route calls.
  unfoldable pub handler : Option ℕ → StripeRequest → ℕ → M StripeReply
  handler max_limit (StripeRequest.create_checkout plan) user_id = do
    answer ← create_checkout_session prisma stripe config user_id plan
    pure (StripeReply.checkout answer)
  handler max_limit (StripeRequest.update_plan plan) user_id = do
    update_subscription prisma stripe config user_id plan
    pure StripeReply.done
  handler max_limit StripeRequest.current user_id = do
    row ← get_current_subscription prisma user_id
    pure (StripeReply.subscription row)
  handler max_limit (StripeRequest.invoices number limit) user_id = do
    answer ← paged max_limit number limit (get_invoices prisma order user_id)
    pure (StripeReply.payments answer)
  handler max_limit StripeRequest.cancel user_id = do
    cancel_subscription prisma stripe config user_id
    pure StripeReply.done
  handler max_limit (StripeRequest.notify text sig) user_id = do
    webhook prisma stripe config text sig
    pure StripeReply.done
  handler max_limit StripeRequest.portal user_id = do
    answer ← create_billing_portal_session prisma stripe config user_id
    pure (StripeReply.session answer)

  -- One request of a user with a session; the webhook of Stripe has none, and reads no user.
  unfoldable pub serve : Option ℕ → StripeRequest → ℕ → M StripeReply
  unfolding handler
  serve max_limit r user_id = as_http (handler max_limit r user_id)
