-- ===== src/Action/Service.antt =====
-- action.service.ts: the steps of a workflow, read and changed by the owner of the workflow.
pub mod Effects
pub mod Readable
use shob_app.Prelude.{
  ℕ, ◌+◌, String, Bool, true, false, not, ◌&&◌, Option, some, none, List, ◌∷◌, map, if◌then◌else◌,
  ◌==◌, ltb, ◌-◌, any,
}
use shob_app.Platform.{ActionTypes}
use shob_app.Store.Rows.{Value, Json, Dict, Db, Action, Workflow, User}
use shob_app.Store.Table.{count, insert, select, update_many}
use shob_app.Store.Cascade.{delete_actions}
use shob_app.Store.Effects.{
  M, Prisma, Exception, ok, throw, bad_request, not_found, pure, raise, call, query, modify,
  transaction, throw_if, or_throw, ◌>>=◌, ◌>>◌,
}
use shob_app.Action.Zod.{Js, has_key, includes_text}
use shob_app.Action.Schema.{
  RawAction, ActionDto, TypeText, known, unknown, create_action_schema, update_action_schema,
}

-- `data.type.includes("send_email_to_me")`
abbrev names_send_email_to_me : TypeText → Bool
names_send_email_to_me (known ActionTypes.send_email_to_me) = true
names_send_email_to_me (known ActionTypes.send_email_to_me_for_push_event) = true
names_send_email_to_me (known ActionTypes.send_email_to_me_for_issues_event) = true
names_send_email_to_me (known _) = false
names_send_email_to_me (unknown s) = includes_text s "send_email_to_me"

-- `if ("email" in data.config) data.config.email = …`, which throws on what is no object
abbrev set_email : String → Json → M Json
set_email address (Json.obj d) =
    pure (if has_key "email" d then Json.obj (("email", Value.str address) ∷ d) else Json.obj d)
set_email address (Json.plain Value.other) = pure (Json.plain Value.other)
set_email address (Json.plain _) = raise Exception.other

-- where: { id, userId }
abbrev pub owns_workflow : ℕ → ℕ → Workflow → Bool
owns_workflow id user_id w = w.id == id && w.user_id == user_id

-- where: { workflow: { userId } }
abbrev pub action_owned : Db → ℕ → Action → Bool
action_owned d user_id a = any (λ w. owns_workflow a.workflow_id user_id w) d.workflows

abbrev pub in_workflow : ℕ → Action → Bool
in_workflow workflow_id a = a.workflow_id == workflow_id

module _ (prisma : Prisma) where
  unfoldable pub find_workflow : ℕ → ℕ → M (Option Workflow)
  find_workflow id user_id =
      query prisma (λ d. prisma.find_first Workflow (owns_workflow id user_id) d.workflows)

  pub get_all_actions_by_workflow_id : ℕ → ℕ → M (List Action)
  unfolding find_workflow
  get_all_actions_by_workflow_id workflow_id user_id = do
    workflow ← find_workflow workflow_id user_id
    or_throw workflow not_found
    query prisma
        (λ d. prisma.order_by Action (λ a. a.step) (select (in_workflow workflow_id) d.actions))

  -- The owner's address is put into a config that has an `email`.
  unfoldable pub fill_email : ℕ → TypeText → Option Json → M (Option Json)
  fill_email user_id kind none = pure none
  fill_email user_id kind (some config) =
      if names_send_email_to_me kind
      then (do
        found ← query prisma (λ d. prisma.find_first User (λ u. u.id == user_id) d.users)
        user ← or_throw found not_found
        filled ← set_email user.email config
        pure (some filled))
      else pure (some config)

  -- The step is the next one, and the row holds the config as a JSON text.
  abbrev pub store_action : Js → ℕ → ActionDto → M Action
  store_action js workflow_id parsed = do
    actions ← query prisma (λ d. count (in_workflow workflow_id) d.actions)
    throw_if (not (parsed.step == actions + 1)) bad_request
    call prisma (λ d.
        let a : Action = record {
          id = prisma.cuid (map (λ b. b.id) d.actions);
          workflow_id = workflow_id;
          kind = parsed.kind;
          config = some (
              Json.plain (
                Value.str (
                  js.stringify
                    (elim parsed.config [ none ↦ Json.plain Value.null | some c ↦ Json.obj c ]))));
          step = parsed.step;
        } in
        (ok a, record d { actions = insert a d.actions }))

  unfoldable pub create_action : Js → ℕ → ℕ → RawAction → M Action
  unfolding find_workflow fill_email
  create_action js workflow_id user_id data_in = do
    found ← find_workflow workflow_id user_id
    workflow ← or_throw found not_found
    kind ← or_throw data_in.kind Exception.other
    config ← fill_email user_id kind data_in.config
    parsed ←
        or_throw (create_action_schema js workflow.event_type (record data_in { config = config }))
          bad_request
    store_action js workflow_id parsed

  pub get_one_action_by_id : ℕ → ℕ → M Action
  get_one_action_by_id id user_id = do
    (found, owned) ← query prisma (λ d.
        let found = prisma.find_first Action (λ a. a.id == id) d.actions in
        (found, elim found [ none ↦ false | some a ↦ action_owned d user_id a ]))
    action ← or_throw found not_found
    throw_if (not owned) not_found
    pure action

  -- The action, if its workflow is the user's, and that workflow.
  pub find_owned_action : ℕ → ℕ → M (Option Action × Option Workflow)
  find_owned_action action_id user_id = query prisma (λ d.
      let found =
        prisma.find_first Action (λ a. a.id == action_id && action_owned d user_id a) d.actions in
      (
        found,
        elim found [
          | none ↦ none
          | some a ↦ prisma.find_first Workflow (λ w. w.id == a.workflow_id) d.workflows
        ],
      ))

  -- `action.update`, which throws P2025 where the row is gone.
  pub write_update : ℕ → Action → ActionTypes → Option Dict → M Action
  write_update action_id action kind config = call prisma (λ d.
      let updated : Action = record action {
        kind = kind;
        config = elim config [ none ↦ action.config | some c ↦ some (Json.obj c) ];
      } in
      if any (λ a. a.id == action_id) d.actions
      then (
        ok updated,
        record d {
          actions =
              update_many (λ a. a.id == action_id)
                (λ a. record a { kind = updated.kind; config = updated.config }) d.actions;
        },
      )
      else (throw (Exception.known_request 2025), d))

  pub update_action_by_id : Js → ℕ → RawAction → ℕ → M Action
  unfolding find_owned_action write_update
  update_action_by_id js user_id data_in action_id = do
    (found, owner) ← find_owned_action action_id user_id
    action ← or_throw found not_found
    workflow ← or_throw owner Exception.other
    (kind, config) ← or_throw (update_action_schema js workflow.event_type data_in) bad_request
    write_update action_id action kind config

  pub delete_all_actions_by_workflow_id : ℕ → ℕ → M (ℕ × ℕ)
  unfolding find_workflow
  delete_all_actions_by_workflow_id workflow_id user_id = transaction (do
    found ← find_workflow workflow_id user_id
    or_throw found not_found
    deleted ← call prisma (λ d. (
      ok (count (in_workflow workflow_id) d.actions),
      delete_actions (in_workflow workflow_id) d,
    ))
    pure (workflow_id, deleted))

  unfoldable pub delete_action_by_id : ℕ → ℕ → M Action
  unfolding get_one_action_by_id
  delete_action_by_id id user_id = transaction (do
    action ← get_one_action_by_id id user_id
    modify prisma (delete_actions (λ a. a.id == id))
    modify prisma (λ d. record d {
      actions =
          update_many (λ a. in_workflow action.workflow_id a && ltb action.step a.step)
            (λ a. record a { step = a.step - 1 }) d.actions;
    })
    pure action)
