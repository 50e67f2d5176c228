-- ===== src/Worker/Events/Push.antt =====
-- worker/github/core/event/Push/push-event.ts and core/actions/ai_analytics_commit_message.ts. The
-- model Gemini is a parameter. The id that the class keeps as `workflowId` is that of the workflow
-- whose actions are run.
pub mod Analytics
use Prim.Native.String.{◌++◌ as text_append}
use shob_app.Prelude.{
  ℕ, suc, String, Bool, true, false, ◌&&◌, Option, some, none, List, [], ◌∷◌, ◌++◌, if◌then◌else◌,
  ◌==◌, str_eq, take,
}
use shob_app.Platform.{EventType, ActionTypes, event_eq}
use shob_app.Store.Rows.{Dict, Json, Value, Action, WorkflowRun}
use shob_app.Store.Table.{select}
use shob_app.Store.Effects.{
  M, Prisma, Exception, Answer, Body, ok, throw, pure, raise, query, try_catch, or_throw, ◌>>=◌,
  ◌>>◌,
}
use shob_app.Action.Zod.{Js, lookup, has_key}
use shob_app.Action.Schema.{ActionDto}
use shob_app.Worker.Types.{MessageResult, ActionResult, Payload}
use shob_app.Worker.Network.{Network}
use shob_app.Worker.Viewer.{collect_viewer_info}
use shob_app.Worker.Base.{ActionFilter, EventClass, Begun, start, complete}
use shob_app.Worker.Base.Blocks.{asks, config_of, text_at, send_queued, post_block}

-- The payload, with `pusher.email`, where there is a pusher, and the messages of `commits`.
pub record PushPayload : Type 0 where
  pub payload : Payload
  pub pusher_email : Option (Option String)
  pub commits : Option (List String)

-- `generateContent` for the messages of a push and those of others, at a moment: `none` where it
-- rejects, and the text if there is one. Arrays in an object are kept whole, so that the reading of
-- `commits.map(msg => msg.message)` in an object is given.
pub record Gemini : Type 0 where
  pub generate : ℕ → List String → List (List String) → Option (Option String)
  pub messages_of : Dict → Option (List String)

-- where: { platform: "GitHub", eventType: "push", workflowId }
abbrev pub push_run_of : Option ℕ → WorkflowRun → Bool
push_run_of none r = event_eq r.event_type EventType.push
push_run_of (some id) r = event_eq r.event_type EventType.push && r.workflow_id == id

-- `sections.filter(Boolean).join("\n\n")`
abbrev pub join_all : List String → String
join_all [] = ""
join_all (s ∷ rest) =
    let tail = join_all rest in
    if str_eq s ""
    then tail
    else if str_eq tail ""
    then s
    else text_append s (text_append "\n\n" tail)

module _ (prisma : Prisma) (js : Js) (net : Network) (gemini : Gemini) where
  -- `data.payload.commits.map(msg => msg.message)`: null has no properties, and the `commits` of
  -- another value that is no object are undefined, so that `map` throws.
  abbrev pub stored_messages : Option Json → Option (List String)
  stored_messages none = none
  stored_messages (some (Json.plain v)) = none
  stored_messages (some (Json.obj d)) = gemini.messages_of d

  abbrev pub messages_of_runs : List WorkflowRun → Option (List (List String))
  messages_of_runs [] = some []
  messages_of_runs (r ∷ rs) =
      let rest = messages_of_runs rs in
      elim (stored_messages r.payload) [
        | none ↦ none
        | some messages ↦ elim rest [ none ↦ none | some others ↦ some (messages ∷ others) ]
      ]

  abbrev pub ask_gemini : List String → List (List String) → M (Answer String)
  ask_gemini messages others w =
      let w' = record w { calls = suc w.calls } in
      elim (gemini.generate w.calls messages others) [
        | none ↦ (throw Exception.other, w')
        | some none ↦ (ok Answer.failure, w')
        | some (some s) ↦ (ok (if str_eq s "" then Answer.failure else Answer.success s), w')
      ]

  unfoldable pub ai_analytics_commit_messages : Option ℕ → List String → M (Answer String)
  ai_analytics_commit_messages workflow_id messages =
      try_catch
        (do
          runs ← query prisma (λ d. take 20 (select (push_run_of workflow_id) d.workflow_runs))
          others ← or_throw (messages_of_runs runs) Exception.other
          ask_gemini messages others)
        (λ e. pure Answer.failure)

  -- The call with `payload.commits.map(data => data.message)`
  unfoldable pub analytics : Option ℕ → PushPayload → M (Answer String)
  unfolding ai_analytics_commit_messages
  analytics workflow_id p = do
    messages ← or_throw p.commits Exception.other
    ai_analytics_commit_messages workflow_id messages

  -- The sections of a mail; `none` where the analytics fail.
  unfoldable pub build_sections : Option ℕ → PushPayload → Bool → ActionDto → M (Option String)
  unfolding analytics
  build_sections workflow_id p info a =
      let body = text_at "body" (config_of a) in
      let sections =
        if info
        then body ∷ text_append "Push info:\n" (js.stringify p.payload.raw) ∷ []
        else body ∷ [] in
      if asks "do_you_want_AI_analytics_of_push_data" a
      then (do
        answer ← analytics workflow_id p
        elim answer [
          | Answer.success s ↦
              pure (some (join_all (sections ++ text_append "AI analytics:\n" s ∷ [])))
          | _ ↦ pure none
        ])
      else pure (some (join_all sections))

  send_email_branch : Option ℕ → PushPayload → ActionDto → M ActionResult
  unfolding build_sections
  send_email_branch workflow_id p a = do
    built ← build_sections workflow_id p (asks "do_you_want_to_send_push_info" a) a
    elim built [
      | none ↦ pure (ActionResult.failure none)
      | some body ↦
          send_queued js net (text_at "email" (config_of a)) (text_at "subject" (config_of a)) body
    ]

  send_email_to_me_branch : Option ℕ → PushPayload → ActionDto → M ActionResult
  unfolding build_sections
  send_email_to_me_branch workflow_id p a = do
    built ← build_sections workflow_id p (asks "do_you_want_push_info" a) a
    elim built [
      | none ↦ pure (ActionResult.failure none)
      | some body ↦
          if has_key "email" (config_of a)
          then send_queued js net (text_at "email" (config_of a)) (text_at "subject" (config_of a))
              body
          else pure (ActionResult.failure none)
    ]

  -- `action.config.do_you_want_AI_analytics_of_push_data ? … : …`
  unfoldable pub pushed_body : Option ℕ → PushPayload → ActionDto → M (Answer String)
  unfolding analytics
  pushed_body workflow_id p a =
      elim (lookup "do_you_want_AI_analytics_of_push_data" (config_of a)) [
        | some (Value.bool true) ↦ analytics workflow_id p
        | _ ↦ pure (Answer.success (text_at "body" (config_of a)))
      ]

  send_email_to_pusher_branch : Option ℕ → PushPayload → ActionDto → M ActionResult
  unfolding pushed_body
  send_email_to_pusher_branch workflow_id p a = do
    pusher ← or_throw p.pusher_email Exception.other
    elim pusher [
      | none ↦ pure (ActionResult.failure none)
      | some email ↦ if str_eq email "" then pure (ActionResult.failure none) else (do
        answer ← pushed_body workflow_id p a
        elim answer [
          | Answer.success body ↦ send_queued js net email (text_at "subject" (config_of a)) body
          | _ ↦ pure (ActionResult.failure none)
        ])
    ]

  analytics_branch : Option ℕ → PushPayload → M ActionResult
  unfolding analytics
  analytics_branch workflow_id p = do
    answer ← analytics workflow_id p
    elim answer [
      | Answer.success s ↦ pure (ActionResult.success none)
      | _ ↦ pure (ActionResult.failure none)
    ]

  -- The branches on `action.type`.
  run : Option ℕ → PushPayload → ActionTypes → ActionDto → M ActionResult
  unfolding send_email_branch send_email_to_me_branch send_email_to_pusher_branch analytics_branch
  run workflow_id p ActionTypes.send_email a = send_email_branch workflow_id p a
  run workflow_id p ActionTypes.send_email_to_me a = send_email_to_me_branch workflow_id p a
  run workflow_id p ActionTypes.send_email_to_who_push_the_commit a =
      send_email_to_pusher_branch workflow_id p a
  run workflow_id p ActionTypes.webhook a = post_block js net a (Body.whole p.payload.raw)
  run workflow_id p ActionTypes.send_telegram a = pure (ActionResult.failure (some false))
  run workflow_id p ActionTypes.analytics_data_by_ai a = analytics_branch workflow_id p
  run workflow_id p _ a = pure (ActionResult.failure (some false))

  unfoldable pub execute_single_action : Option ℕ → PushPayload → ActionDto → M ActionResult
  unfolding run
  execute_single_action workflow_id p a =
      try_catch (run workflow_id p a.kind a) (λ e. pure (ActionResult.failure (some true)))

  unfoldable pub load_viewer : Payload → M (Answer Json)
  load_viewer payload = do
    sender ← or_throw payload.sender Exception.other
    collect_viewer_info net sender.url sender.organizations_url

  abbrev pub event_class : Option ℕ → PushPayload → EventClass
  event_class workflow_id p = record {
    event_type = EventType.push;
    requeue = true;
    execute_single_action = λ a payload get_viewer. execute_single_action workflow_id p a;
    load_viewer = load_viewer;
  }

  abbrev pub workflow_of : List Action → Option ℕ
  workflow_of [] = none
  workflow_of (a ∷ actions) = some a.workflow_id

  unfoldable pub handle_event : PushPayload → M MessageResult
  handle_event p = do
    reached ←
        try_catch
          (start prisma js (event_class none p) p.payload p.payload.installation ActionFilter.null)
          (λ e. pure (Begun.finished (MessageResult.failure false true)))
    elim reached [
      | Begun.finished result ↦ pure result
      | Begun.begun run_id actions ↦
          complete prisma js (event_class (workflow_of actions) p) p.payload run_id actions
    ]
