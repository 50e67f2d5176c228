-- ===== src/Tests/Listing.antt =====
-- Pages of workflows and of the run history, run.
use shob_app.Prelude.{◌≡◌, refl, some, none, [], ◌∷◌, true, arith}
use shob_app.Platform.{EventType, RunStatus}
use shob_app.Store.Table.{count, select}
use shob_app.Store.Rows.{Json, Value}
use shob_app.Store.Effects.{World, ok, throw, bad_request}
use shob_app.Worker.Base.Journal.{IsFaultless}
use shob_app.Pages.{Order, Parsed, total_pages_of}
use shob_app.Pages.Walk.{walk}
use shob_app.Flow.Endpoints.{is_of, get_all_workflow, get_all_workflow_route}
use shob_app.Flow.Listing.{Served, walk-get_all_workflow, get_all_workflow_route-Served}
use shob_app.History.{
  QueryValue, RunsQuery, get_all_workflow_runs, get_all_action_runs, get_all_workflow_runs_route,
}
use shob_app.History.Laws.{
  ShownRuns, ShownActions, get_all_workflow_runs-ShownRuns, get_all_action_runs-ShownActions,
  limit_refused,
}
use shob_app.Tests.Client.{client}
use shob_app.Tests.Data.{world}

-- The rows as they stand.
abbrev pub as_stored : Order
as_stored = record { falling = λ A rows. rows; falling_count = λ A p rows. refl }

abbrev more : World
more = record world {
  db = record world.db {
    workflows =
        record {
          id = 11;
          user_id = 7;
          name = "forks";
          enabled = true;
          repo = 3;
          event_type = EventType.fork;
          action = none;
          config = none;
        }
        ∷ world.db.workflows;
    workflow_runs =
        record {
          id = 60;
          workflow_id = 10;
          event_type = EventType.star;
          payload = some (Json.plain (Value.str "{}"));
          status = RunStatus.succeeded;
          finished = true;
        }
        ∷ [];
    action_runs =
        record {
          id = 70;
          workflow_run_id = 60;
          action_id = 1;
          status = RunStatus.succeeded;
          output = none;
          finished = true;
        }
        ∷ [];
  };
}

client-never_faults : IsFaultless client
client-never_faults n = refl

walk-get_all_workflow_example :
    (walk
      (get_all_workflow client as_stored 7 1)
      (total_pages_of (count (is_of 7) more.db.workflows) 1)
      more).0
    ≡ ok (select (is_of 7) more.db.workflows)
walk-get_all_workflow_example =
    walk-get_all_workflow client as_stored 7 1 more client-never_faults (omega arith)

get_all_workflow_route-Served_example :
    Served as_stored 7 none
      (Parsed.natural 2)
      Parsed.nan
      more.db
      (get_all_workflow_route client as_stored none (Parsed.natural 2) Parsed.nan 7 more)
get_all_workflow_route-Served_example =
    get_all_workflow_route-Served client as_stored none (Parsed.natural 2) Parsed.nan 7 more

get_all_workflow_runs-ShownRuns_example :
    ShownRuns as_stored 7 10 10 1 none more.db
      (get_all_workflow_runs client as_stored 7 10 10 1 none more)
get_all_workflow_runs-ShownRuns_example =
    get_all_workflow_runs-ShownRuns client as_stored 7 10 10 1 none more (omega arith)

get_all_action_runs-ShownActions_example :
    ShownActions as_stored 7 10 10 1 more.db (get_all_action_runs client as_stored 7 10 10 1 more)
get_all_action_runs-ShownActions_example =
    get_all_action_runs-ShownActions client as_stored 7 10 10 1 more (omega arith)

abbrev twenty : RunsQuery
twenty = record { page = none; limit = some (QueryValue.text "20"); status = none }

limit_refused_example :
    get_all_workflow_runs_route client as_stored none twenty 10 7 more ≡ (throw bad_request, more)
limit_refused_example =
    limit_refused client as_stored none twenty (QueryValue.text "20") 10 7 more refl
