-- ===== src/System/Payments.antt =====
-- The routes of Stripe, against the order of the actions.
use shob_app.Prelude.{ℕ, String, ◌≡◌, refl, ap, List, [], ◌∷◌, arith, Option, true}
use shob_app.Platform.{SubscriptionsPlan}
use shob_app.Store.Rows.{Db}
use shob_app.Store.Table.{select}
use shob_app.Store.Effects.{
  M, Prisma, World, StripeCall, Result, Exception, ok, throw, pure, or_throw, ◌>>=◌, ◌>>◌,
}
use shob_app.Pages.{Order, paged}
use shob_app.StripeService.{
  Stripe, Config, StripeItem, ask, load_price_id, payment_of_user, get_stripe_customer_id,
  create_checkout_session, update_subscription, get_current_subscription, get_invoices,
  cancel_subscription, webhook, create_billing_portal_session, find_customer, change_item,
  settle_cancellation,
}
use shob_app.StripeService.Laws.{
  Changed, update_subscription-Changed, Cancelled, cancel_subscription-Cancelled,
}
use shob_app.StripeService.Endpoints.{StripeRequest, StripeReply, handler}
use shob_app.System.Keeps.{
  Untouched, Keeps, Untouched-Keeps, bind-Keeps, pure-Keeps, or_throw-Keeps,
}
use shob_app.System.Listings.{list_page-Untouched, paged-Keeps}

module _ (prisma : Prisma) (stripe : Stripe) (config : Config) where
  get_stripe_customer_id-Untouched :
      (user_id : ℕ) → Untouched (get_stripe_customer_id prisma stripe config user_id)
  unfolding get_stripe_customer_id find_customer
  get_stripe_customer_id-Untouched user_id w = ground arith

  create_billing_portal_session-Untouched :
      (user_id : ℕ) → Untouched (create_billing_portal_session prisma stripe config user_id)
  unfolding create_billing_portal_session
  create_billing_portal_session-Untouched user_id w = ground arith

ask-Untouched : {A : Type 0} (c : StripeCall) (answer : ℕ → Option A) → Untouched (ask c answer)
ask-Untouched c answer w = ground arith

module _ (prisma : Prisma) (stripe : Stripe) (config : Config) where
  change_item-Untouched :
      (price id : ℕ) (items : List StripeItem)
      → Untouched (change_item prisma stripe config price id items)
  unfolding change_item
  change_item-Untouched price id [] w = refl
  change_item-Untouched price id (item ∷ items) w = ground arith

  update_subscription-Untouched :
      (user_id : ℕ) (plan : SubscriptionsPlan)
      → Untouched (update_subscription prisma stripe config user_id plan)
  update_subscription-Untouched user_id plan w =
      go (update_subscription prisma stripe config user_id plan w)
        (update_subscription-Changed prisma stripe config user_id plan w)
    where
      go :
          (x : Result (Unit {0}) × World)
          → Changed prisma stripe config user_id plan w x
          → x.1.db.actions ≡ w.db.actions
      go (ok u, v) (s, price, r, item, rest, active, there, answered, first, other, asked, same) =
          ap (λ d. d.actions) same
      go (throw e, v) same = ap (λ (d : Db). d.actions) same

  cancel_subscription-Untouched :
      (user_id : ℕ) → Untouched (cancel_subscription prisma stripe config user_id)
  unfolding cancel_subscription settle_cancellation
  cancel_subscription-Untouched user_id w =
      go (cancel_subscription prisma stripe config user_id w)
        (cancel_subscription-Cancelled prisma stripe config user_id w)
    where
      go :
          (x : Result (Unit {0}) × World)
          → Cancelled prisma stripe config user_id w x
          → x.1.db.actions ≡ w.db.actions
      go (ok u, v) (s, active, done, asked, same) = ap (λ d. d.actions) same
      go (throw e, v) (same, asked) = ap (λ d. d.actions) same

  webhook-Untouched : (text sig : String) → Untouched (webhook prisma stripe config text sig)
  unfolding webhook
  webhook-Untouched text sig w = ground arith

  create_checkout_session-Keeps :
      (user_id : ℕ) (plan : SubscriptionsPlan)
      → Keeps (create_checkout_session prisma stripe config user_id plan)
  unfolding create_checkout_session
  create_checkout_session-Keeps user_id plan =
      let session : ℕ → ℕ → M (ℕ × Option String) = λ price customer.
        ask (StripeCall.create_checkout customer price)
          (λ n. stripe.create_checkout n customer price) in
      let paid : ℕ → M (ℕ × Option String) =
        λ price. get_stripe_customer_id prisma stripe config user_id >>= session price in
      let cancelled : ℕ → M (ℕ × Option String) =
        λ price. or_throw config.cancel_url Exception.other >> paid price in
      let succeeded : ℕ → M (ℕ × Option String) =
        λ price. or_throw config.success_url Exception.other >> cancelled price in
      bind-Keeps (or_throw (load_price_id config plan) Exception.other) succeeded
        (or_throw-Keeps (load_price_id config plan) Exception.other)
        (λ price.
          bind-Keeps (or_throw config.success_url Exception.other) (λ u. cancelled price)
            (or_throw-Keeps config.success_url Exception.other)
            (λ u.
              bind-Keeps (or_throw config.cancel_url Exception.other) (λ v. paid price)
                (or_throw-Keeps config.cancel_url Exception.other)
                (λ v.
                  bind-Keeps (get_stripe_customer_id prisma stripe config user_id) (session price)
                    (Untouched-Keeps (get_stripe_customer_id prisma stripe config user_id)
                      (get_stripe_customer_id-Untouched prisma stripe config user_id))
                    (λ customer. Untouched-Keeps (session price customer) (
                      ask-Untouched (StripeCall.create_checkout customer price)
                        (λ n. stripe.create_checkout n customer price))))))

  get_current_subscription-Untouched :
      (user_id : ℕ) → Untouched (get_current_subscription prisma user_id)
  unfolding get_current_subscription
  get_current_subscription-Untouched user_id w = ground arith

  pub handler-Keeps :
      (order : Order) (max_limit : Option ℕ) (r : StripeRequest) (user_id : ℕ)
      → Keeps (handler prisma order stripe config max_limit r user_id)
  unfolding handler get_invoices
  handler-Keeps order max_limit (StripeRequest.create_checkout plan) user_id =
      bind-Keeps (create_checkout_session prisma stripe config user_id plan)
        (λ a. pure (StripeReply.checkout a)) (create_checkout_session-Keeps user_id plan)
        (λ a. pure-Keeps (StripeReply.checkout a))
  handler-Keeps order max_limit (StripeRequest.update_plan plan) user_id =
      bind-Keeps (update_subscription prisma stripe config user_id plan)
        (λ a. pure StripeReply.done)
        (Untouched-Keeps (update_subscription prisma stripe config user_id plan)
          (update_subscription-Untouched user_id plan))
        (λ a. pure-Keeps StripeReply.done)
  handler-Keeps order max_limit StripeRequest.current user_id =
      bind-Keeps (get_current_subscription prisma user_id) (λ a. pure (StripeReply.subscription a))
        (Untouched-Keeps (get_current_subscription prisma user_id)
          (get_current_subscription-Untouched user_id))
        (λ a. pure-Keeps (StripeReply.subscription a))
  handler-Keeps order max_limit (StripeRequest.invoices number limit) user_id =
      bind-Keeps (paged max_limit number limit (get_invoices prisma order user_id))
        (λ a. pure (StripeReply.payments a))
        (paged-Keeps prisma max_limit number limit (get_invoices prisma order user_id) (λ l p.
          Untouched-Keeps (get_invoices prisma order user_id l p) (
            list_page-Untouched prisma order (λ d. select (payment_of_user user_id d) d.payments)
              (λ x. true) l p)))
        (λ a. pure-Keeps (StripeReply.payments a))
  handler-Keeps order max_limit StripeRequest.cancel user_id =
      bind-Keeps (cancel_subscription prisma stripe config user_id) (λ a. pure StripeReply.done)
        (Untouched-Keeps (cancel_subscription prisma stripe config user_id)
          (cancel_subscription-Untouched user_id))
        (λ a. pure-Keeps StripeReply.done)
  handler-Keeps order max_limit (StripeRequest.notify text sig) user_id =
      bind-Keeps (webhook prisma stripe config text sig) (λ a. pure StripeReply.done)
        (Untouched-Keeps (webhook prisma stripe config text sig) (webhook-Untouched text sig))
        (λ a. pure-Keeps StripeReply.done)
  handler-Keeps order max_limit StripeRequest.portal user_id =
      bind-Keeps (create_billing_portal_session prisma stripe config user_id)
        (λ a. pure (StripeReply.session a))
        (Untouched-Keeps (create_billing_portal_session prisma stripe config user_id)
          (create_billing_portal_session-Untouched prisma stripe config user_id))
        (λ a. pure-Keeps (StripeReply.session a))
