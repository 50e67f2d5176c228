-- ===== src/Worker/Events/Push/Analytics.antt =====
-- The AI analytics of commits, which read the payloads of the runs.
use shob_app.Prelude.{
  ℕ, suc, true, ◌≡◌, refl, sym, subst, List, [], ◌∷◌, some, none, arith, String, take, All,
  Option-cases, inl, inr,
}
use shob_app.Platform.{ActionTypes}
use shob_app.Store.Rows.{Db, WorkflowRun, Json, Value}
use shob_app.Store.Table.{select, insert}
use shob_app.Store.Effects.{Prisma, World, Answer, ok}
use shob_app.Action.Zod.{Js}
use shob_app.Worker.Network.{Network}
use shob_app.Action.Schema.{ActionDto}
use shob_app.Worker.Types.{ActionResult}
use shob_app.Worker.Base.{create_workflow_run}
use shob_app.Worker.Base.Start.{new_run}
use shob_app.Worker.Events.Push.{
  Gemini, PushPayload, push_run_of, messages_of_runs, event_class, ai_analytics_commit_messages,
  analytics, analytics_branch, run, execute_single_action,
}

-- A run whose payload is a JSON text, as the handlers store it.
abbrev pub HasText : WorkflowRun → Type 0
HasText r = (s : String) × (r.payload ≡ some (Json.plain (Value.str s)))

insert-HasText :
    (r : WorkflowRun) (rows : List WorkflowRun)
    → All HasText rows
    → HasText r
    → All HasText (insert r rows)
insert-HasText r [] h t = (t, tt)
insert-HasText r (x ∷ rows) (h, hs) t = (h, insert-HasText r rows hs t)

module _ (prisma : Prisma) (js : Js) (net : Network) (gemini : Gemini) where
  -- The rows that a push selects among texts, one of which is of the push, give no messages.
  no_messages :
      (id : ℕ) (rows : List WorkflowRun) (r : WorkflowRun)
      → All HasText (insert r rows)
      → push_run_of (some id) r ≡ true
      → messages_of_runs prisma js net gemini
          (take 20 (select (push_run_of (some id)) (insert r rows)))
        ≡ none
  no_messages id [] r ((s, text), _) its = ground (arith, its, text)
  no_messages id (x ∷ rows) r ((s, text), hs) its =
      ground (arith, text, no_messages id rows r hs its)

  ai_analytics_commit_messages-failure :
      (id : ℕ) (messages : List String) (w : World) (rows : List WorkflowRun) (r : WorkflowRun)
      → w.db.workflow_runs ≡ insert r rows
      → All HasText (insert r rows)
      → push_run_of (some id) r ≡ true
      → ai_analytics_commit_messages prisma js net gemini (some id) messages w
        ≡ (ok Answer.failure, record w { calls = suc w.calls })
  unfolding ai_analytics_commit_messages
  ai_analytics_commit_messages-failure id messages w rows r e h its =
      let none_read : messages_of_runs prisma js net gemini
            (take 20 (select (push_run_of (some id)) w.db.workflow_runs))
          ≡ none =
        subst
          (λ (l : List WorkflowRun).
            messages_of_runs prisma js net gemini (take 20 (select (push_run_of (some id)) l))
            ≡ none)
          (sym e) (no_messages id rows r h its) in
      ground (arith, none_read)

  -- Where the payloads of the runs that there are are texts, and a push handler has added the run
  -- of a workflow, an action that asks for the analytics of the commits of the push ends as a
  -- failure after one query, and Gemini is not asked.
  pub execute_single_action-failure :
      (p : PushPayload) (a : ActionDto) (messages : List String) (workflow_id run_id : ℕ)
      (w v : World)
      → a.kind ≡ ActionTypes.analytics_data_by_ai
      → p.commits ≡ some messages
      → All HasText w.db.workflow_runs
      → create_workflow_run prisma js
          (event_class prisma js net gemini none p)
          p.payload
          workflow_id
          w
        ≡ (ok run_id, v)
      → execute_single_action prisma js net gemini (some workflow_id) p a v
        ≡ (ok (ActionResult.failure none), record v { calls = suc v.calls })
  unfolding execute_single_action run create_workflow_run analytics_branch analytics
  execute_single_action-failure p a messages workflow_id run_id w v kind commits texts created =
      let row : WorkflowRun =
        new_run prisma js (event_class prisma js net gemini none p) p.payload w.db workflow_id in
      ground (
        arith,
        kind,
        commits,
        ai_analytics_commit_messages-failure workflow_id messages v w.db.workflow_runs row
            (added p workflow_id run_id w v created)
            (insert-HasText row w.db.workflow_runs texts (js.stringify p.payload.raw, refl))
            (its p w.db workflow_id),
      )
    where
      its :
          (p : PushPayload) (d : Db) (id : ℕ)
          → push_run_of
              (some id)
              (new_run prisma js (event_class prisma js net gemini none p) p.payload d id)
            ≡ true
      its p d id = ground arith

      added :
          (p : PushPayload) (id run_id : ℕ) (w v : World)
          → create_workflow_run prisma js (event_class prisma js net gemini none p) p.payload id w
            ≡ (ok run_id, v)
          → v.db.workflow_runs
            ≡ insert
                (new_run prisma js (event_class prisma js net gemini none p) p.payload w.db id)
                w.db.workflow_runs
      added p id run_id w v created = elim (Option-cases (prisma.fault w.calls)) [
        | inl up ↦ ground (arith, up, created)
        | inr (e, down) ↦ absurd (ground (arith, down, created))
      ]
