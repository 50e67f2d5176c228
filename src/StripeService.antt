-- ===== src/StripeService.antt =====
-- stripe.service.ts: checkout, change and cancellation of a subscription. Stripe, the configuration and
-- the queue are parameters. Names, addresses of pages and metadata are left out of the calls.
pub mod Laws
pub mod Endpoints
pub mod Customers
use shob_app.Prelude.{
  ℕ, suc, String, Bool, true, false, ◌&&◌, Option, some, none, List, [], ◌∷◌, ◌++◌, not, any,
  if◌then◌else◌, ◌==◌,
}
use shob_app.Platform.{SubscriptionsPlan, SubscriptionsStatus}
use shob_app.Store.Rows.{Json, Db, User, Subscription, Payment}
use shob_app.Store.Table.{count, select, update_many}
use shob_app.Store.Effects.{
  M, Prisma, World, Body, Exception, Result, ok, throw, Request, StripeCall, bad_request, pure,
  raise, query, call, throw_if, or_throw, ◌>>=◌, ◌>>◌,
}
use shob_app.Store.Effects.Queue.{enqueue}
use shob_app.Pages.{Order, Pagination, list_page}

-- The variables that `getOrThrow` reads.
pub record Config : Type 0 where
  pub basic_price : Option ℕ
  pub pro_price : Option ℕ
  pub success_url : Option String
  pub cancel_url : Option String
  pub webhook_secret : Option String

pub record StripeItem : Type 0 where
  pub id : ℕ
  pub price : ℕ

pub record StripeSubscription : Type 0 where
  pub id : ℕ
  pub items : List StripeItem

-- How a cancellation ends: done, refused with a message that starts with `No such subscription:`, or
-- refused in another way.
pub data Cancellation : Type 0 where
  cancelled no_such_subscription refused : Cancellation

-- The answers at a moment; `none` where the call rejects.
pub record Stripe : Type 0 where
  pub list_customers : ℕ → Option String → Option (List ℕ)
  pub create_customer : ℕ → Option String → Option ℕ
  pub create_checkout : ℕ → ℕ → ℕ → Option (ℕ × Option String)
  pub retrieve_subscription : ℕ → ℕ → Option StripeSubscription
  pub update_subscription : ℕ → ℕ → ℕ → ℕ → Option (Unit {0})
  pub cancel_subscription : ℕ → ℕ → Cancellation
  pub create_portal : ℕ → ℕ → Option (ℕ × String)
  -- `webhooks.constructEvent` with the data, the signature and the secret
  pub construct_event : String → String → String → Option Json
  -- `JSON.parse` of the data
  pub json_parse : String → Option Json
  -- whether `sendToQueue` succeeds at a moment
  pub queue : ℕ → Bool

-- One call: it is logged, and it may reject.
abbrev pub ask : {A : Type 0} → StripeCall → (ℕ → Option A) → M A
ask c answer w =
    let w' = record w { calls = suc w.calls; requests = w.requests ++ Request.stripe c ∷ [] } in
    elim (answer w.calls) [ none ↦ (throw Exception.other, w') | some a ↦ (ok a, w') ]

abbrev pub load_price_id : Config → SubscriptionsPlan → Option ℕ
load_price_id config SubscriptionsPlan.basic = config.basic_price
load_price_id config SubscriptionsPlan.pro = config.pro_price

abbrev pub is_active : SubscriptionsStatus → Bool
is_active SubscriptionsStatus.active = true
is_active _ = false

-- where: { userId, status: "active" }
abbrev pub active_of : ℕ → Subscription → Bool
active_of user_id s = elim s.user_id [ none ↦ false | some u ↦ u == user_id ] && is_active s.status

abbrev pub has_id : ℕ → User → Bool
has_id user_id u = u.id == user_id

-- where: { invoice: { userId } }
abbrev pub payment_of_user : ℕ → Db → Payment → Bool
payment_of_user user_id d p =
    any
      (λ s.
        s.id == p.local_subscription_id && elim s.user_id [ none ↦ false | some u ↦ u == user_id ])
      d.subscriptions

abbrev pub email_of : Option User → Option String
email_of none = none
email_of (some u) = some u.email

abbrev pub customer_of : Option User → Option ℕ
customer_of none = none
customer_of (some u) = u.stripe_customer_id

module _ (prisma : Prisma) where
  -- `user.update`, which throws P2025 where there is no such user.
  abbrev pub store_customer : ℕ → ℕ → M (Unit {0})
  store_customer user_id customer = call prisma (λ d.
      if count (has_id user_id) d.users == 0 then (throw (Exception.known_request 2025), d) else (
        ok tt,
        record d {
          users =
              update_many (has_id user_id) (λ u. record u { stripe_customer_id = some customer })
                d.users;
        },
      ))

  abbrev pub active_subscription : ℕ → M (Option Subscription)
  active_subscription user_id =
      query prisma (λ d. prisma.find_first Subscription (active_of user_id) d.subscriptions)

  unfoldable pub get_current_subscription : ℕ → M Subscription
  get_current_subscription user_id = do
    found ← active_subscription user_id
    or_throw found bad_request

  unfoldable pub get_invoices : Order → ℕ → ℕ → ℕ → M (List Payment × Pagination)
  get_invoices order user_id limit page =
      list_page prisma order (λ d. select (payment_of_user user_id d) d.payments) (λ p. true) limit
        page

  module _ (stripe : Stripe) (config : Config) where
    -- The customer in the list, or a new one.
    unfoldable pub find_customer : Option String → List ℕ → M ℕ
    find_customer email [] =
        ask (StripeCall.create_customer email) (λ n. stripe.create_customer n email)
    find_customer email (customer ∷ _) = pure customer

    unfoldable pub get_stripe_customer_id : ℕ → M ℕ
    unfolding find_customer
    get_stripe_customer_id user_id = do
      user ← query prisma (λ d. prisma.find_first User (has_id user_id) d.users)
      elim (customer_of user) [
        | some customer ↦ pure customer
        | none ↦ do
          listed ←
              ask (StripeCall.list_customers (email_of user))
                (λ n. stripe.list_customers n (email_of user))
          customer ← find_customer (email_of user) listed
          store_customer user_id customer
          pure customer
      ]

    unfoldable pub create_checkout_session : ℕ → SubscriptionsPlan → M (ℕ × Option String)
    unfolding get_stripe_customer_id
    create_checkout_session user_id plan = do
      price ← or_throw (load_price_id config plan) Exception.other
      or_throw config.success_url Exception.other
      or_throw config.cancel_url Exception.other
      customer ← get_stripe_customer_id user_id
      ask (StripeCall.create_checkout customer price) (λ n. stripe.create_checkout n customer price)

    -- The first item of the subscription gets the price, unless it has it.
    unfoldable pub change_item : ℕ → ℕ → List StripeItem → M (Unit {0})
    change_item price id [] = raise bad_request
    change_item price id (item ∷ _) = do
      throw_if (item.price == price) bad_request
      ask (StripeCall.update_subscription id item.id price)
          (λ n. stripe.update_subscription n id item.id price)

    unfoldable pub update_subscription : ℕ → SubscriptionsPlan → M (Unit {0})
    unfolding change_item
    update_subscription user_id plan = do
      price ← or_throw (load_price_id config plan) Exception.other
      found ← active_subscription user_id
      local ← or_throw found bad_request
      subscription ←
          ask (StripeCall.retrieve_subscription local.stripe_subscription_id)
            (λ n. stripe.retrieve_subscription n local.stripe_subscription_id)
      change_item price subscription.id subscription.items

    unfoldable pub settle_cancellation : Cancellation → M (Unit {0})
    settle_cancellation Cancellation.cancelled = pure tt
    settle_cancellation Cancellation.no_such_subscription = raise bad_request
    settle_cancellation Cancellation.refused = raise Exception.other

    unfoldable pub cancel_subscription : ℕ → M (Unit {0})
    unfolding settle_cancellation
    cancel_subscription user_id = do
      found ← active_subscription user_id
      local ← or_throw found bad_request
      ended ←
          ask (StripeCall.cancel_subscription local.stripe_subscription_id)
            (λ n. some (stripe.cancel_subscription n local.stripe_subscription_id))
      settle_cancellation ended

    unfoldable pub create_billing_portal_session : ℕ → M (ℕ × String)
    create_billing_portal_session user_id = do
      found ← active_subscription user_id
      local ← or_throw found bad_request
      customer ← or_throw local.stripe_customer_id bad_request
      or_throw config.success_url Exception.other
      ask (StripeCall.create_portal customer) (λ n. stripe.create_portal n customer)

    -- The check of the signature, which also fails without a secret, and the queue.
    unfoldable pub webhook : String → String → M (Unit {0})
    webhook data_in sig = do
      secret ← or_throw config.webhook_secret bad_request
      event ← or_throw (stripe.construct_event data_in sig secret) bad_request
      parsed_data ← or_throw (stripe.json_parse data_in) Exception.other
      enqueue "sendStripeWebhookData" (Body.object (("data", parsed_data) ∷ ("event", event) ∷ []))
          stripe.queue
