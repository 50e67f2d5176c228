-- ===== src/Tests/Stripe.antt =====
-- Requests to the Stripe service, run.
use shob_app.Prelude.{◌≡◌, refl, some, none, [], ◌∷◌, true, false}
use shob_app.Platform.{SubscriptionsPlan, SubscriptionsStatus}
use shob_app.Store.Rows.{Json}
use shob_app.Store.Effects.{World, ok, Request, StripeCall}
use shob_app.Worker.Base.Journal.{IsFaultless}
use shob_app.StripeService.{
  Stripe, Config, Cancellation, update_subscription, cancel_subscription, webhook,
  get_stripe_customer_id,
}
use shob_app.StripeService.Laws.{
  Changed, update_subscription-Changed, Cancelled, cancel_subscription-Cancelled, Queued,
  webhook-Queued,
}
use shob_app.StripeService.Customers.{get_stripe_customer_id_again}
use shob_app.Tests.Client.{client}
use shob_app.Tests.Data.{world}

-- Stripe knows no customer, makes the customer 500, and has one subscription with one item.
abbrev pub server : Stripe
server = record {
  list_customers = λ n e. some [];
  create_customer = λ n e. some 500;
  create_checkout = λ n c p. some (1, none);
  retrieve_subscription =
      λ n s. some (record { id = s; items = record { id = 3; price = 20 } ∷ [] });
  update_subscription = λ n s i p. some tt;
  cancel_subscription = λ n s. Cancellation.cancelled;
  create_portal = λ n c. some (1, "https://example.org");
  construct_event = λ d s k. some (Json.obj []);
  json_parse = λ d. some (Json.obj []);
  queue = λ n. true;
}

abbrev pub config : Config
config = record {
  basic_price = some 20;
  pro_price = some 30;
  success_url = some "https://example.org/yes";
  cancel_url = some "https://example.org/no";
  webhook_secret = some "secret";
}

abbrev payer : World
payer = record world {
  db = record world.db {
    users =
        record {
          id = 7;
          email = "me@example.org";
          email_verified = true;
          stripe_customer_id = none;
        }
        ∷ [];
    subscriptions =
        record {
          id = 1;
          user_id = some 7;
          stripe_customer_id = some 500;
          stripe_subscription_id = 50;
          stripe_price_id = some 20;
          plan = some SubscriptionsPlan.basic;
          status = SubscriptionsStatus.active;
          period_start = none;
          period_end = none;
          cancelled = false;
        }
        ∷ [];
  };
}

update_subscription-Changed_example :
    Changed client server config 7 SubscriptionsPlan.pro payer
      (update_subscription client server config 7 SubscriptionsPlan.pro payer)
update_subscription-Changed_example =
    update_subscription-Changed client server config 7 SubscriptionsPlan.pro payer

cancel_subscription-Cancelled_example :
    Cancelled client server config 7 payer (cancel_subscription client server config 7 payer)
cancel_subscription-Cancelled_example = cancel_subscription-Cancelled client server config 7 payer

webhook-Queued_example :
    Queued client server config "{}" "sig" payer (webhook client server config "{}" "sig" payer)
webhook-Queued_example = webhook-Queued client server config "{}" "sig" payer

client-faultless : IsFaultless client
client-faultless n = refl

-- The user with the customer that Stripe has made.
abbrev known : World
known = record payer {
  calls = 4;
  db = record payer.db {
    users =
        record {
          id = 7;
          email = "me@example.org";
          email_verified = true;
          stripe_customer_id = some 500;
        }
        ∷ [];
  };
  requests =
      Request.stripe (StripeCall.list_customers (some "me@example.org"))
      ∷ Request.stripe (StripeCall.create_customer (some "me@example.org"))
      ∷ [];
}

first_time : get_stripe_customer_id client server config 7 payer ≡ (ok 500, known)
unfolding get_stripe_customer_id
first_time = refl

get_stripe_customer_id_again_example :
    get_stripe_customer_id client server config 7 known ≡ (ok 500, record known { calls = 5 })
get_stripe_customer_id_again_example =
    get_stripe_customer_id_again client 7 server config 500 payer known client-faultless first_time
