-- ===== src/Tests/Billing.antt =====
-- Messages of Stripe, run.
use shob_app.Prelude.{◌≡◌, refl, some, none, [], ◌∷◌, ◌++◌, true, false}
use shob_app.Platform.{SubscriptionsPlan, SubscriptionsStatus, PaymentsStatus}
use shob_app.Store.Effects.{World, ok}
use shob_app.Worker.Types.{MessageResult}
use shob_app.Worker.Base.Journal.{IsFaultless}
use shob_app.Billing.{Notice, Letter, Invoice, invoice_paid, invoice_payment_failed, consume}
use shob_app.Billing.Laws.{Spared, consume-Spared}
use shob_app.Billing.Redelivery.{Paid, invoice_paid_twice, invoice_payment_failed_again}
use shob_app.Tests.Client.{client}
use shob_app.Tests.Data.{world}

abbrev bill : Invoice
bill = record {
  id = 90;
  subscription = 50;
  period_start = 1;
  period_end = 2;
  amount_paid = 0;
  currency = "usd";
  created = 3;
}

abbrev letter : Notice
letter = record {
  kind = some "invoice.paid";
  checkout = none;
  renewal = none;
  cancelled = none;
  invoice = some bill;
}

-- The invoice has a payment that has failed.
abbrev overdue : World
overdue = record world {
  db = record world.db {
    subscriptions =
        record {
          id = 1;
          user_id = some 7;
          stripe_customer_id = none;
          stripe_subscription_id = 50;
          stripe_price_id = none;
          plan = some SubscriptionsPlan.basic;
          status = SubscriptionsStatus.unpaid;
          period_start = none;
          period_end = none;
          cancelled = false;
        }
        ∷ [];
    payments =
        record {
          id = 1;
          local_subscription_id = 1;
          stripe_invoice_id = 90;
          stripe_subscription_id = 50;
          amount = 0;
          currency = "usd";
          status = PaymentsStatus.payment_failed;
          paid_at = 3;
        }
        ∷ [];
  };
}

client-never_throws : IsFaultless client
client-never_throws n = refl

-- Another subscription stands behind the first.
abbrev two_subscriptions : World
two_subscriptions = record overdue {
  db = record overdue.db {
    subscriptions =
        overdue.db.subscriptions
        ++ record {
          id = 2;
          user_id = some 8;
          stripe_customer_id = none;
          stripe_subscription_id = 51;
          stripe_price_id = none;
          plan = some SubscriptionsPlan.pro;
          status = SubscriptionsStatus.active;
          period_start = none;
          period_end = none;
          cancelled = false;
        }
          ∷ [];
  };
}

consume-Spared_example :
    Spared 51 two_subscriptions.db
      (consume client (some (Letter.notice letter)) two_subscriptions).1.db
consume-Spared_example = consume-Spared client 51 letter two_subscriptions refl

invoice_paid_twice_example :
    Paid client client-never_throws bill overdue.db (invoice_paid client letter overdue)
    × Paid client client-never_throws bill
        (invoice_paid client letter overdue).1.db
        (invoice_paid client letter (invoice_paid client letter overdue).1)
    × ((invoice_paid client letter (invoice_paid client letter overdue).1).1.db.payments
        ≡ (invoice_paid client letter overdue).1.db.payments)
invoice_paid_twice_example = invoice_paid_twice client client-never_throws letter bill overdue refl

invoice_payment_failed_again_example :
    ((invoice_payment_failed client letter overdue).0 ≡ ok (MessageResult.failure false true))
    × ((invoice_payment_failed client letter overdue).1.db.payments ≡ overdue.db.payments)
invoice_payment_failed_again_example =
    invoice_payment_failed_again client client-never_throws letter bill overdue refl refl
