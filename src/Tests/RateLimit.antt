-- ===== src/Tests/RateLimit.antt =====
-- A request for workflows, which is limited to 30 in a minute, after another one.
use shob_app.Prelude.{◌≡◌, refl, some, none, [], ◌∷◌, map, false}
use shob_app.RateLimit.{HttpRequest, Consumption, can_activate, serve_requests}
use shob_app.RateLimit.Uncached.{uncached, verdicts, verdicts-uncached}
use shob_app.RateLimit.Laws.{Counted, can_activate-Counted}

abbrev listing : HttpRequest
listing = record {
  method = "GET";
  route_path = some "/v1/workflow";
  class_name = "WorkflowController";
  handler_name = "getAllWorkflow";
  skip_rate_limit = false;
  rate_limit = some (record { points = 30; duration = 60; block_duration = none });
  user = some 7;
  address = "127.0.0.1";
}

can_activate-Counted_example :
    Counted
      (λ n l k. Consumption.taken)
      1
      listing
      (can_activate
        (λ n l k. Consumption.taken)
        1
        listing
        (serve_requests (λ n l k. Consumption.taken) ((0, listing) ∷ []) [])).0
can_activate-Counted_example =
    can_activate-Counted (λ n l k. Consumption.taken) ((0, listing) ∷ []) 1 listing

verdicts-uncached_example :
    verdicts (λ n l k. Consumption.taken) ((0, listing) ∷ (1, listing) ∷ []) []
    ≡ map (uncached (λ n l k. Consumption.taken)) ((0, listing) ∷ (1, listing) ∷ [])
verdicts-uncached_example =
    verdicts-uncached (λ n l k. Consumption.taken) ((0, listing) ∷ (1, listing) ∷ [])
      (refl, (refl, tt))
