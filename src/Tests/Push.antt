-- ===== src/Tests/Push.antt =====
-- A push whose commits are to be analysed, while its run is open.
use shob_app.Prelude.{some, none, [], ◌∷◌, ◌≡◌, refl}
use shob_app.Platform.{ActionTypes}
use shob_app.Store.Effects.{World, ok}
use shob_app.Action.Schema.{ActionDto}
use shob_app.Worker.Types.{ActionResult}
use shob_app.Worker.Base.{create_workflow_run}
use shob_app.Worker.Base.Start.{new_run}
use shob_app.Worker.Events.Push.{Gemini, PushPayload, event_class, execute_single_action}
use shob_app.Worker.Events.Push.Analytics.{execute_single_action-failure}
use shob_app.Tests.Client.{client}
use shob_app.Tests.Data.{js, net, world, starred}

abbrev gemini : Gemini
gemini = record { generate = λ n messages others. some (some "fine"); messages_of = λ d. none }

abbrev pushed : PushPayload
pushed = record {
  payload = starred.payload;
  pusher_email = some (some "me@example.org");
  commits = some ("a commit" ∷ []);
}

abbrev analyse : ActionDto
analyse = record { kind = ActionTypes.analytics_data_by_ai; step = 1; config = none }

-- The world with the run of the push.
abbrev running : World
running = record world {
  calls = 1;
  db = record world.db {
    workflow_runs =
        new_run client js (event_class client js net gemini none pushed) pushed.payload world.db 10
        ∷ [];
  };
}

begun :
    create_workflow_run client js
      (event_class client js net gemini none pushed)
      pushed.payload
      10
      world
    ≡ (ok 1, running)
unfolding create_workflow_run
begun = refl

execute_single_action-failure_example :
    execute_single_action client js net gemini (some 10) pushed analyse running
    ≡ (ok (ActionResult.failure none), record running { calls = 2 })
execute_single_action-failure_example =
    execute_single_action-failure client js net gemini pushed analyse ("a commit" ∷ []) 10 1 world
      running refl refl tt begun
