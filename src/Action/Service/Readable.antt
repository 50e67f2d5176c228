-- ===== src/Action/Service/Readable.antt =====
-- An action that was created, read by the worker.
use shob_app.Prelude.{ℕ, suc, ◌≡◌, refl, sym, ◌∙◌, Option, some, arith, In, true}
use shob_app.Platform.{EventType}
use shob_app.Store.Rows.{Workflow, Action, Json, Value, Db}
use shob_app.Store.Effects.{
  M, Prisma, World, Exception, Result, ok, throw, or_throw, bad_request, not_found, ◌>>=◌,
}
use shob_app.Store.Effects.Cases.{query_then, or_throw_then, known_then}
use shob_app.Action.Zod.{Js}
use shob_app.Action.Schema.{RawAction, ActionDto, TypeText, create_action_schema}
use shob_app.Action.Schema.Again.{IsTidy}
use shob_app.Action.Schema.Stored.{written, reread, create_action_schema_again}
use shob_app.Action.Service.{create_action, owns_workflow, find_workflow, fill_email, store_action}
use shob_app.Worker.Base.{parse_action_config}

-- The worker reads the JSON text of a config, and with this config its schema gives the type, the
-- step and the config again.
abbrev pub Readable : Prisma → Js → EventType → Action → World → Type 0
Readable prisma js event a v =
    (dto : ActionDto) × (dto.kind ≡ a.kind)
    × (dto.step ≡ a.step)
    × (parse_action_config prisma js a.config v
        ≡ or_throw (js.json_parse (js.stringify (written dto.config))) Exception.other v)
    × (create_action_schema js event (reread dto) ≡ some dto)

abbrev pub ReadableBy : Prisma → Js → ℕ → ℕ → Db → World → Result Action × World → Type 0
ReadableBy prisma js workflow_id user_id d v (ok a, w) =
    (f : Workflow) × In f d.workflows
    × (owns_workflow workflow_id user_id f ≡ true)
    × Readable prisma js f.event_type a v
ReadableBy prisma js workflow_id user_id d v (throw e, w) = w.db ≡ d

fill_email-db :
    (prisma : Prisma) (user_id : ℕ) (kind : TypeText) (config : Option Json) (w : World)
    → (fill_email prisma user_id kind config w).1.db ≡ w.db
unfolding fill_email
fill_email-db prisma user_id kind config w = ground arith

-- The row has what the schema gave.
abbrev Kept : Js → ActionDto → Db → Result Action × World → Type 0
Kept js dto d (ok a, w) =
    (a.kind ≡ dto.kind)
    × (a.step ≡ dto.step)
    × (a.config ≡ some (Json.plain (Value.str (js.stringify (written dto.config)))))
Kept js dto d (throw e, w) = w.db ≡ d

store_action-Kept :
    (prisma : Prisma) (js : Js) (workflow_id : ℕ) (dto : ActionDto) (w : World)
    → Kept js dto w.db (store_action prisma js workflow_id dto w)
store_action-Kept prisma js workflow_id dto w = ground arith

module _ (prisma : Prisma) (js : Js) (tidy : IsTidy js) (workflow_id user_id : ℕ) where
  abbrev Answer : World → World → Result Action × World → Type 0
  Answer w v = ReadableBy prisma js workflow_id user_id w.db v

  stored :
      (f : Workflow) (body : RawAction) (w v u : World)
      → u.db ≡ w.db
      → In f w.db.workflows × (owns_workflow workflow_id user_id f ≡ true)
      → Answer w v (
          (or_throw (create_action_schema js f.event_type body) bad_request
              >>= store_action prisma js workflow_id)
            u)
  unfolding parse_action_config
  stored f body w v u same (there, owned) =
      or_throw_then (Answer w v) (store_action prisma js workflow_id) u
        (create_action_schema js f.event_type body) bad_request (λ refused. same)
        (λ dto accepted.
          read dto accepted (store_action prisma js workflow_id dto u)
            (store_action-Kept prisma js workflow_id dto u))
    where
      read :
          (dto : ActionDto)
          → create_action_schema js f.event_type body ≡ some dto
          → (x : Result Action × World) → Kept js dto u.db x
          → Answer w v x
      read dto accepted (ok a, y) (kind, step, config) =
          let text : parse_action_config prisma js a.config v
              ≡ or_throw (js.json_parse (js.stringify (written dto.config))) Exception.other v =
            ground (arith, config) in
          (
            f,
            there,
            owned,
            (
              dto,
              sym kind,
              sym step,
              text,
              create_action_schema_again js tidy f.event_type body dto accepted,
            ),
          )
      read dto accepted (throw e, y) h = h ∙ same

  -- If trimming twice, lower case twice, and trimming a trimmed text in lower case do no more than
  -- once, a creation of an action that answers has stored, in a workflow of the user, the JSON
  -- text of a config; the worker parses this text, and where it gives that config, the schema of
  -- the worker, for the event of the workflow, accepts it and gives the same type, step and
  -- config. A creation that throws has changed no table.
  pub create_action-ReadableBy :
      (body : RawAction) (w v : World)
      → ReadableBy prisma js workflow_id user_id w.db v
          (create_action prisma js workflow_id user_id body w)
  unfolding create_action find_workflow
  create_action-ReadableBy body w v =
      let P : Result Action × World → Type 0 = Answer w v in
      let w1 = record w { calls = suc w.calls } in
      let parse : Workflow → Option Json → M Action = λ f config.
        or_throw (create_action_schema js f.event_type (record body { config = config }))
          bad_request
        >>= store_action prisma js workflow_id in
      let fill : Workflow → TypeText → M Action =
        λ f kind. fill_email prisma user_id kind body.config >>= parse f in
      let rest : Workflow → M Action = λ f. or_throw body.kind Exception.other >>= fill f in
      query_then P (λ found. or_throw found not_found >>= rest) w prisma
        (λ d. prisma.find_first Workflow (owns_workflow workflow_id user_id) d.workflows)
        (λ e. refl)
        (or_throw_then P rest w1
          (prisma.find_first Workflow (owns_workflow workflow_id user_id) w.db.workflows) not_found
          (λ missing. refl)
          (λ f found.
            or_throw_then P (fill f) w1 body.kind Exception.other (λ missing. refl)
              (λ kind named.
                known_then P (fill_email prisma user_id kind body.config) (parse f) w1
                  (λ x. x.1.db ≡ w.db) (fill_email-db prisma user_id kind body.config w1)
                  (λ e u same. same)
                  (λ config u same.
                    stored f (record body { config = config }) w v u same
                      (prisma.find_first_some Workflow (owns_workflow workflow_id user_id)
                        w.db.workflows f found)))))
