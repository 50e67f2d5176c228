-- ===== src/Tests/System.antt =====
-- A workflow that loses an action, is deleted, and an installation that changes hands.
use shob_app.Prelude.{none}
use shob_app.Store.Effects.{World}
use shob_app.Action.Numbering.{IsOrdered}
use shob_app.Action.Endpoints.{ActionRequest}
use shob_app.Flow.Endpoints.{FlowRequest}
use shob_app.System.{Server, ApiRequest, Reachable, handle}
use shob_app.System.Numbering.{Reachable-IsOrdered}
use shob_app.Tests.Client.{client}
use shob_app.Tests.Data.{js, world}
use shob_app.Tests.Actions.{db-IsOrdered}
use shob_app.Tests.Listing.{as_stored}
use shob_app.Tests.Stripe.{server, config}
use shob_app.Tests.Linking.{redis, query_8}

abbrev api : Server
api = record {
  prisma = client;
  js = js;
  order = as_stored;
  stripe = server;
  config = config;
  redis = redis;
  max_limit = none;
}

abbrev one_left : World
one_left = handle api (ApiRequest.action (ActionRequest.delete 1) 7) world

abbrev none_left : World
none_left = handle api (ApiRequest.flow (FlowRequest.delete_one 10) 7) one_left

abbrev handed_over : World
handed_over = handle api (ApiRequest.link query_8 8) none_left

handed_over-Reachable : Reachable api world handed_over
handed_over-Reachable =
    Reachable.next
      (Reachable.next (Reachable.next Reachable.here (ApiRequest.action (ActionRequest.delete 1) 7))
        (ApiRequest.flow (FlowRequest.delete_one 10) 7))
      (ApiRequest.link query_8 8)

Reachable-IsOrdered_example : IsOrdered handed_over.db.actions
Reachable-IsOrdered_example =
    Reachable-IsOrdered api world handed_over db-IsOrdered handed_over-Reachable
