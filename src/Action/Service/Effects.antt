-- ===== src/Action/Service/Effects.antt =====
-- What each operation on actions does to the tables, on every branch.
use shob_app.Prelude.{
  ℕ, suc, refl, ◌+◌, ◌-◌, ◌≡◌, Bool, true, ◌&&◌, Option, none, some, List, map, arith, ◌==◌, ltb,
  In, Option-cases, inl, inr,
}
use shob_app.Store.Rows.{Workflow, Db, Action, Json, Dict}
use shob_app.Platform.{ActionTypes}
use shob_app.Store.Table.{count, insert, update_many, delete_many}
use shob_app.Store.Effects.{
  M, Prisma, World, Result, Exception, ok, throw, or_throw, bad_request, not_found, ◌>>=◌,
}
use shob_app.Store.Effects.Cases.{query_then, or_throw_then}
use shob_app.Action.Zod.{Js}
use shob_app.Action.Schema.{RawAction, update_action_schema}
use shob_app.Action.Service.{
  owns_workflow, get_all_actions_by_workflow_id, get_one_action_by_id, in_workflow, action_owned,
  create_action, delete_action_by_id, delete_all_actions_by_workflow_id, update_action_by_id,
  write_update, find_owned_action,
}

-- The steps above one that is removed move down by one.
abbrev pub close_gap : ℕ → ℕ → List Action → List Action
close_gap workflow_id step =
    update_many (λ a. in_workflow workflow_id a && ltb step a.step)
      (λ a. record a { step = a.step - 1 })

-- A change of a row that keeps its id, its workflow and its step.
abbrev pub retype : ℕ → ActionTypes → Option Json → List Action → List Action
retype id kind config =
    update_many (λ a. a.id == id) (λ a. record a { kind = kind; config = config })

module _ (prisma : Prisma) where
  -- Appended with the next step, or nothing is written.
  abbrev pub Created : ℕ → Db → Result Action × World → Type 0
  Created workflow_id d (ok a, w) =
      (w.db ≡ record d { actions = insert a d.actions })
      × (a.workflow_id ≡ workflow_id)
      × (a.step ≡ count (in_workflow workflow_id) d.actions + 1)
      × (a.id ≡ prisma.cuid (map (λ b. b.id) d.actions))
  Created workflow_id d (throw e, w) = w.db ≡ d

  -- A creation that answers has added one row, in the workflow of the request, with the next step
  -- and a new id; one that throws has changed no table.
  pub create_action-Created :
      (js : Js) (workflow_id user_id : ℕ) (data_in : RawAction) (w : World)
      → Created workflow_id w.db (create_action prisma js workflow_id user_id data_in w)
  unfolding create_action
  create_action-Created js workflow_id user_id data_in w = ground arith

  -- Whoever adds an action owns the workflow.
  pub create_action_owner :
      (js : Js) (workflow_id user_id : ℕ) (data_in : RawAction) (w w' : World) (a : Action)
      → create_action prisma js workflow_id user_id data_in w ≡ (ok a, w')
      → (f : Workflow) × In f w.db.workflows × (owns_workflow workflow_id user_id f ≡ true)
  unfolding create_action
  create_action_owner js workflow_id user_id data_in w w' a e =
      elim (Option-cases
        (prisma.find_first Workflow (owns_workflow workflow_id user_id) w.db.workflows)) [
          | inl missing ↦ absurd (ground (arith, missing))
          | inr (f, found) ↦
              let (listed, owned) =
                prisma.find_first_some Workflow (owns_workflow workflow_id user_id) w.db.workflows f
                  found in
              (f, listed, owned)
        ]

  -- A row read before gets a type and a config.
  abbrev Rewritten : ℕ → Action → ActionTypes → Option Dict → Db → Result Action × World → Type 0
  Rewritten id old kind config d (ok a, w) =
      (a ≡ record old {
        kind = kind;
        config = elim config [ none ↦ old.config | some c ↦ some (Json.obj c) ];
      })
      × (w.db ≡ record d { actions = retype id a.kind a.config d.actions })
  Rewritten id old kind config d (throw e, w) = w.db ≡ d

  write_update_lem :
      (id : ℕ) (old : Action) (kind : ActionTypes) (config : Option Dict) (w : World)
      → Rewritten id old kind config w.db (write_update prisma id old kind config w)
  unfolding write_update
  write_update_lem id old kind config w = ground arith

  -- An action of the user takes the type and the config that the schema reads in the request.
  abbrev pub Updated : Js → ℕ → RawAction → ℕ → Db → Result Action × World → Type 0
  Updated js user_id data_in id d (ok a, w) =
      (old : Action) × (f : Workflow) × (kind : ActionTypes) × (config : Option Dict) × In old
        d.actions
      × (((old.id == id) && action_owned d user_id old) ≡ true)
      × In f d.workflows
      × ((f.id == old.workflow_id) ≡ true)
      × (update_action_schema js f.event_type data_in ≡ some (kind, config))
      × (a ≡ record old {
        kind = kind;
        config = elim config [ none ↦ old.config | some c ↦ some (Json.obj c) ];
      })
      × (w.db ≡ record d { actions = retype id a.kind a.config d.actions })
  Updated js user_id data_in id d (throw e, w) = w.db ≡ d

  -- An update that answers is of an action in a workflow of the user, and the schema for the event
  -- of the workflow of the action has read a type and a config in the request; the rows with the
  -- id have got this type and this config, or keep the config where the request has none, and
  -- nothing else has changed. One that throws has changed no table.
  pub update_action_by_id-Updated :
      (js : Js) (user_id : ℕ) (data_in : RawAction) (id : ℕ) (w : World)
      → Updated js user_id data_in id w.db (update_action_by_id prisma js user_id data_in id w)
  unfolding update_action_by_id find_owned_action write_update
  update_action_by_id-Updated js user_id data_in id w =
      let P : Result Action × World → Type 0 = Updated js user_id data_in id w.db in
      let v = record w { calls = suc w.calls } in
      let mine : Action → Bool = λ a. (a.id == id) && action_owned w.db user_id a in
      let its_workflow : Action → Workflow → Bool = λ a f. f.id == a.workflow_id in
      let owner : Option Workflow = elim (prisma.find_first Action mine w.db.actions) [
        | none ↦ none
        | some a ↦ prisma.find_first Workflow (its_workflow a) w.db.workflows
      ] in
      let parse : Action → Workflow → M Action = λ a f.
        or_throw (update_action_schema js f.event_type data_in) bad_request >>= λ p.
        write_update prisma id a p.0 p.1 in
      let rest : Option Action → Option Workflow → M Action =
        λ found its. or_throw found not_found >>= λ a. or_throw its Exception.other >>= parse a in
      query_then P (λ p. rest p.0 p.1) w prisma
        (λ d.
          let found =
            prisma.find_first Action (λ a. a.id == id && action_owned d user_id a) d.actions in
          (
            found,
            elim found [
              | none ↦ none
              | some a ↦ prisma.find_first Workflow (λ w. w.id == a.workflow_id) d.workflows
            ],
          ))
        (λ e. refl)
        (or_throw_then P (λ a. or_throw owner Exception.other >>= parse a) v
          (prisma.find_first Action mine w.db.actions) not_found (λ missing. refl)
          (λ old found.
            or_throw_then P (parse old) v owner Exception.other (λ missing. refl)
              (λ f named.
                or_throw_then P (λ p. write_update prisma id old p.0 p.1) v
                  (update_action_schema js f.event_type data_in) bad_request (λ refused. refl)
                  (λ p accepted.
                    let its : prisma.find_first Workflow (its_workflow old) w.db.workflows
                        ≡ some f =
                      ground (arith, found, named) in
                    stored old f p.0 p.1 (prisma.find_first_some Action mine w.db.actions old found)
                      (prisma.find_first_some Workflow (its_workflow old) w.db.workflows f its)
                      accepted (write_update prisma id old p.0 p.1 v)
                      (write_update_lem id old p.0 p.1 v)))))
    where
      stored :
          (old : Action) (f : Workflow) (kind : ActionTypes) (config : Option Dict)
          → In old w.db.actions × (((old.id == id) && action_owned w.db user_id old) ≡ true)
          → In f w.db.workflows × ((f.id == old.workflow_id) ≡ true)
          → update_action_schema js f.event_type data_in ≡ some (kind, config)
          → (x : Result Action × World) → Rewritten id old kind config w.db x
          → Updated js user_id data_in id w.db x
      stored old f kind config (there, owned) (listed, named) accepted (ok a, y) (same, rows) =
          (old, f, kind, config, there, owned, listed, named, accepted, same, rows)
      stored old f kind config _ _ accepted (throw e, y) h = h

  -- The row goes and the gap is closed, or nothing is written, also when the second write throws.
  abbrev pub Deleted : ℕ → ℕ → Db → Result Action × World → Type 0
  Deleted id user_id d (ok a, w) =
      In a d.actions
      × ((a.id == id) ≡ true)
      × (action_owned d user_id a ≡ true)
      × (w.db.actions ≡ close_gap a.workflow_id a.step (delete_many (λ b. b.id == id) d.actions))
      × (w.db.workflows ≡ d.workflows)
  Deleted id user_id d (throw e, w) = w.db ≡ d

  -- A deletion that answers gives an action of the user with the id, and afterwards the table is
  -- without the rows of this id and the later steps of its workflow are one lower; one that throws
  -- has changed no table, also when it throws after a write.
  pub delete_action_by_id-Deleted :
      (id user_id : ℕ) (w : World)
      → Deleted id user_id w.db (delete_action_by_id prisma id user_id w)
  unfolding delete_action_by_id
  delete_action_by_id-Deleted id user_id w =
      elim (Option-cases (prisma.find_first Action (λ a. a.id == id) w.db.actions)) [
        | inl missing ↦ ground arith
        | inr (a, found) ↦
            ground (arith, prisma.find_first_some Action (λ a. a.id == id) w.db.actions a found)
      ]

  abbrev pub Cleared : ℕ → Db → Result (ℕ × ℕ) × World → Type 0
  Cleared workflow_id d (ok r, w) =
      (w.db.actions ≡ delete_many (in_workflow workflow_id) d.actions)
      × (r ≡ (workflow_id, count (in_workflow workflow_id) d.actions))
  Cleared workflow_id d (throw e, w) = w.db ≡ d

  pub delete_all_actions-Cleared :
      (workflow_id user_id : ℕ) (w : World)
      → Cleared workflow_id w.db (delete_all_actions_by_workflow_id prisma workflow_id user_id w)
  unfolding delete_all_actions_by_workflow_id
  delete_all_actions-Cleared workflow_id user_id w = ground arith

  -- Reading changes no table.
  pub get_all_actions-db :
      (workflow_id user_id : ℕ) (w : World)
      → (get_all_actions_by_workflow_id prisma workflow_id user_id w).1.db ≡ w.db
  unfolding get_all_actions_by_workflow_id
  get_all_actions-db workflow_id user_id w = ground arith

  pub get_one_action-db :
      (id user_id : ℕ) (w : World) → (get_one_action_by_id prisma id user_id w).1.db ≡ w.db
  unfolding get_one_action_by_id
  get_one_action-db id user_id w = ground arith
