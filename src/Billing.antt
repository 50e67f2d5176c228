-- ===== src/Billing.antt =====
-- worker/stripe: the consumer of the Stripe events, and what they do to subscriptions and payments.
-- Identifiers and times given by Stripe are numbers.
pub mod Laws
pub mod Redelivery
use shob_app.Prelude.{
  ℕ, String, Bool, true, false, Option, some, none, List, [], ◌∷◌, map, if◌then◌else◌, ◌==◌, any,
  switch,
}
use shob_app.Platform.{SubscriptionsPlan, SubscriptionsStatus, PaymentsStatus}
use shob_app.Store.Rows.{Db, Subscription, Payment}
use shob_app.Store.Table.{insert, update_many}
use shob_app.Store.Effects.{
  M, Prisma, Exception, Result, ok, throw, pure, raise, call, modify, try_catch, or_throw, ◌>>=◌,
  ◌>>◌,
}
use shob_app.Worker.Types.{MessageResult}
use shob_app.Worker.Main.{Settlement}

-- `payload.data.data.object` of each event, as far as it is stored.
pub record Checkout : Type 0 where
  pub user_id : Option ℕ
  pub customer : Option ℕ
  pub subscription : ℕ
  pub price : Option ℕ
  pub plan : Option SubscriptionsPlan

pub record Renewal : Type 0 where
  pub subscription : ℕ
  pub price : Option ℕ
  -- `metadata.plan`; an undefined one leaves the column as it is
  pub plan : Option SubscriptionsPlan
  pub period_start : Option ℕ
  pub period_end : Option ℕ

pub record Invoice : Type 0 where
  pub id : ℕ
  pub subscription : ℕ
  pub period_start : ℕ
  pub period_end : ℕ
  pub amount_paid : ℕ
  pub currency : String
  pub created : ℕ

-- A message: the event's type (`none` where reading it throws), and its object as each handler reads
-- it (`none` where reading it throws, or the client refuses the values).
pub record Notice : Type 0 where
  pub kind : Option String
  pub checkout : Option Checkout
  pub renewal : Option Renewal
  pub cancelled : Option ℕ
  pub invoice : Option Invoice

-- The content of a message: no JSON, a falsy JSON value, or a notice.
pub data Letter : Type 0 where
  invalid falsy : Letter
  notice : Notice → Letter

-- where: { stripeSubscriptionId }
abbrev pub names_subscription : ℕ → Subscription → Bool
names_subscription k s = s.stripe_subscription_id == k

-- where: { stripeInvoiceId }
abbrev pub names_invoice : ℕ → Payment → Bool
names_invoice k p = p.stripe_invoice_id == k

-- A row with nothing but its unique column and a status.
abbrev pub bare_subscription : ℕ → ℕ → SubscriptionsStatus → Subscription
bare_subscription id k status = record {
  id = id;
  user_id = none;
  stripe_customer_id = none;
  stripe_subscription_id = k;
  stripe_price_id = none;
  plan = none;
  status = status;
  period_start = none;
  period_end = none;
  cancelled = false;
}

-- An undefined value leaves the column as it is.
abbrev pub given {ℓ} : {A : Type ℓ} → Option A → Option A → Option A
given none old = old
given (some a) old = some a

abbrev pub with_checkout : Checkout → Subscription → Subscription
with_checkout c s = record s {
  user_id = given c.user_id s.user_id;
  stripe_customer_id = c.customer;
  stripe_price_id = given c.price s.stripe_price_id;
  plan = given c.plan s.plan;
}

abbrev pub with_renewal : Renewal → Subscription → Subscription
with_renewal r s = record s {
  stripe_price_id = given r.price s.stripe_price_id;
  plan = given r.plan s.plan;
  period_start = given r.period_start s.period_start;
  period_end = given r.period_end s.period_end;
}

abbrev pub with_cancellation : Subscription → Subscription
with_cancellation s = record s { status = SubscriptionsStatus.canceled; cancelled = true }

abbrev pub with_invoice : Invoice → SubscriptionsStatus → Subscription → Subscription
with_invoice i status s = record s {
  status = status;
  period_start = some i.period_start;
  period_end = some i.period_end;
}

-- The `try` block of a handler, on the object that it reads, and its `catch` block.
abbrev pub attempt :
    {A : Type 0} → Option A → (A → M MessageResult) → (Exception → MessageResult) → M MessageResult
attempt o store failed = try_catch (or_throw o Exception.other >>= store) (λ e. pure (failed e))

-- The answer after an exception: a unique column that is taken is fine.
abbrev pub checkout_failure : Exception → MessageResult
checkout_failure (Exception.known_request code) =
    if code == 2002 then MessageResult.success else MessageResult.failure false false
checkout_failure _ = MessageResult.failure false false

abbrev pub settled : MessageResult → M (Option Settlement)
settled MessageResult.success = pure (some Settlement.ack)
settled (MessageResult.failure all_up_to requeue) = pure (some (Settlement.nack all_up_to requeue))

module _ (prisma : Prisma) where
  abbrev pub payment_of : ℕ → Invoice → PaymentsStatus → List Payment → Payment
  payment_of local i status rows = record {
    id = prisma.cuid (map (λ p. p.id) rows);
    local_subscription_id = local;
    stripe_invoice_id = i.id;
    stripe_subscription_id = i.subscription;
    amount = i.amount_paid;
    currency = i.currency;
    status = status;
    paid_at = i.created;
  }

  -- `payments.upsert` with no update
  abbrev pub add_payment : Invoice → ℕ → Db → Db
  add_payment i local d = if any (names_invoice i.id) d.payments then d else record d {
    payments = insert (payment_of local i PaymentsStatus.succeeded d.payments) d.payments;
  }

  -- `payments.create`: an invoice that has a payment is refused with P2002.
  abbrev pub create_payment : Invoice → ℕ → Db → Result (Unit {0}) × Db
  create_payment i local d =
      if any (names_invoice i.id) d.payments then (throw (Exception.known_request 2002), d) else (
        ok tt,
        record d {
          payments =
              insert (payment_of local i PaymentsStatus.payment_failed d.payments) d.payments;
        },
      )

  -- `subscriptions.upsert`, by the unique column; a new row has the status given.
  unfoldable pub upsert_subscription : ℕ → SubscriptionsStatus → (Subscription → Subscription) → M ℕ
  upsert_subscription k status change = call prisma (λ d.
      let id = prisma.cuid (map (λ s. s.id) d.subscriptions) in
      elim (prisma.find_first Subscription (names_subscription k) d.subscriptions) [
        | none ↦ (
          ok id,
          record d {
            subscriptions = insert (change (bare_subscription id k status)) d.subscriptions;
          },
        )
        | some s ↦ (
          ok s.id,
          record d { subscriptions = update_many (names_subscription k) change d.subscriptions },
        )
      ])

  -- `subscriptions.update`: no row is refused with P2025.
  unfoldable pub update_subscription : ℕ → (Subscription → Subscription) → M (Unit {0})
  update_subscription k change = call prisma (λ d.
      if any (names_subscription k) d.subscriptions
      then (
        ok tt,
        record d { subscriptions = update_many (names_subscription k) change d.subscriptions },
      )
      else (throw (Exception.known_request 2025), d))

  abbrev pub store_checkout : Checkout → M MessageResult
  store_checkout c = do
    upsert_subscription c.subscription SubscriptionsStatus.incomplete (with_checkout c)
    pure MessageResult.success

  unfoldable pub checkout_session_completed : Notice → M MessageResult
  checkout_session_completed n = attempt n.checkout store_checkout checkout_failure

  abbrev pub store_renewal : Renewal → M MessageResult
  store_renewal r = do
    update_subscription r.subscription (with_renewal r)
    pure MessageResult.success

  unfoldable pub customer_subscription_updated : Notice → M MessageResult
  customer_subscription_updated n =
      attempt n.renewal store_renewal (λ e. MessageResult.failure false false)

  abbrev pub store_cancellation : ℕ → M MessageResult
  store_cancellation k = do update_subscription k with_cancellation; pure MessageResult.success

  unfoldable pub customer_subscription_deleted : Notice → M MessageResult
  customer_subscription_deleted n =
      attempt n.cancelled store_cancellation (λ e. MessageResult.failure false true)

  abbrev pub store_paid : Invoice → M MessageResult
  store_paid i = do
    local ←
        upsert_subscription i.subscription SubscriptionsStatus.active
          (with_invoice i SubscriptionsStatus.active)
    modify prisma (add_payment i local)
    pure MessageResult.success

  unfoldable pub invoice_paid : Notice → M MessageResult
  invoice_paid n = attempt n.invoice store_paid (λ e. MessageResult.failure false true)

  abbrev pub store_unpaid : Invoice → M MessageResult
  store_unpaid i = do
    local ←
        upsert_subscription i.subscription SubscriptionsStatus.unpaid
          (with_invoice i SubscriptionsStatus.unpaid)
    call prisma (create_payment i local)
    pure MessageResult.success

  unfoldable pub invoice_payment_failed : Notice → M MessageResult
  invoice_payment_failed n = attempt n.invoice store_unpaid (λ e. MessageResult.failure false true)

  unfoldable pub handlers : Notice → List (String × M MessageResult)
  handlers n =
      ("checkout.session.completed", checkout_session_completed n)
      ∷ ("customer.subscription.updated", customer_subscription_updated n)
      ∷ ("customer.subscription.deleted", customer_subscription_deleted n)
      ∷ ("invoice.paid", invoice_paid n)
      ∷ ("invoice.payment_failed", invoice_payment_failed n)
      ∷ []

  -- The type is read outside the `try` block.
  unfoldable pub main : Notice → M MessageResult
  unfolding handlers
  main n = do
    kind ← or_throw n.kind Exception.other
    try_catch (switch kind (handlers n) (pure MessageResult.success))
        (λ e. pure (MessageResult.failure false true))

  -- `stripeWebhookConsumer`'s callback; `none` is a cancelled consumer
  unfoldable pub consume : Option Letter → M (Option Settlement)
  unfolding main
  consume none = pure none
  consume (some Letter.invalid) = pure (some (Settlement.nack false false))
  consume (some Letter.falsy) = pure (some (Settlement.nack false false))
  consume (some (Letter.notice n)) =
      try_catch (main n >>= settled) (λ e. pure (some (Settlement.nack false false)))
