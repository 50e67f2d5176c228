-- ===== src/Tests/Flow.antt =====
-- Requests for workflows, run.
use shob_app.Prelude.{ℕ, some, none, List, [], ◌∷◌, false}
use shob_app.Platform.{EventType}
use shob_app.Flow.{
  WorkflowDto, WorkflowPatch, create_workflow, update_workflow, delete_one_workflow_by_id,
  delete_many_workflow,
}
use shob_app.Flow.Laws.{
  DeletedAll, delete_many_workflow-DeletedAll, DeletedOne, delete_one_workflow-DeletedOne,
  CreatedFlow, create_workflow-CreatedFlow, UpdatedFlow, update_workflow-UpdatedFlow,
}
use shob_app.Tests.Client.{client}
use shob_app.Tests.Data.{world}

-- The workflow of the test data.
abbrev ids : List ℕ
ids = 10 ∷ []

delete_many_workflow-DeletedAll_example :
    DeletedAll client 7 ids world.db (delete_many_workflow client 7 ids world)
delete_many_workflow-DeletedAll_example = delete_many_workflow-DeletedAll client 7 ids world

delete_one_workflow-DeletedOne_example :
    DeletedOne client 10 7 world.db (delete_one_workflow_by_id client 10 7 world)
delete_one_workflow-DeletedOne_example = delete_one_workflow-DeletedOne client 10 7 world

abbrev watching : WorkflowDto
watching = record {
  name = "watching";
  repo = 3;
  event_type = EventType.watch;
  action = "started";
  config = none;
}

create_workflow-CreatedFlow_example :
    CreatedFlow client 7 watching world (create_workflow client 7 watching world)
create_workflow-CreatedFlow_example = create_workflow-CreatedFlow client 7 watching world

abbrev pause : WorkflowPatch
pause = record { name = none; enabled = some false; repo = none; event_type = none; config = none }

update_workflow-UpdatedFlow_example :
    UpdatedFlow client 10 7 pause world.db (update_workflow client 10 7 pause world)
update_workflow-UpdatedFlow_example = update_workflow-UpdatedFlow client 10 7 pause world
