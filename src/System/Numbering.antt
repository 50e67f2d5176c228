-- ===== src/System/Numbering.antt =====
-- The numbering of the actions under all requests of the API.
use shob_app.Prelude.{ℕ, arith}
use shob_app.Store.Effects.{Prisma, World}
use shob_app.Action.Numbering.{IsOrdered}
use shob_app.Action.Endpoints.Steps.{serve-IsOrdered}
use shob_app.Linking.{Redis, Callback, callback}
use shob_app.StripeService.Endpoints.{StripeRequest, StripeReply, handler}
use shob_app.StripeService.Endpoints as stripe_routes
use shob_app.System.{Server, ApiRequest, Reachable, handle}
use shob_app.System.Keeps.{Untouched, Untouched-Keeps, as_http-Keeps}
use shob_app.System.Workflows.{flow-Keeps}
use shob_app.System.Payments.{handler-Keeps}

callback-Untouched :
    (prisma : Prisma) (redis : Redis) (q : Callback) (user_id : ℕ)
    → Untouched (callback prisma redis q user_id)
unfolding callback
callback-Untouched prisma redis q user_id w = ground arith

handle-IsOrdered :
    (s : Server) (r : ApiRequest) (w : World)
    → IsOrdered w.db.actions
    → IsOrdered (handle s r w).db.actions
unfolding handle stripe_routes.serve
handle-IsOrdered s (ApiRequest.action r user_id) w h = serve-IsOrdered s.prisma s.js r user_id w h
handle-IsOrdered s (ApiRequest.flow r user_id) w h =
    flow-Keeps s.prisma s.order s.max_limit r user_id w h
handle-IsOrdered s (ApiRequest.stripe r user_id) w h =
    as_http-Keeps (handler s.prisma s.order s.stripe s.config s.max_limit r user_id)
      (handler-Keeps s.prisma s.stripe s.config s.order s.max_limit r user_id) w h
handle-IsOrdered s (ApiRequest.link q user_id) w h =
    Untouched-Keeps (callback s.prisma s.redis q user_id)
      (callback-Untouched s.prisma s.redis q user_id) w h

-- If in every workflow the steps of the actions are 1, …, n, each once, and no two actions share
-- an id, then so it is in every state that requests to the routes of the actions, of the workflows
-- and of Stripe, and to the callback of GitHub, lead to, in any order, whichever calls of the
-- database, of Redis and of Stripe fail.
pub Reachable-IsOrdered :
    (s : Server) (start w : World)
    → IsOrdered start.db.actions
    → Reachable s start w
    → IsOrdered w.db.actions
Reachable-IsOrdered s start w h Reachable.here = h
Reachable-IsOrdered s start w h (Reachable.next before r) =
    handle-IsOrdered s r _ (Reachable-IsOrdered s start _ h before)
