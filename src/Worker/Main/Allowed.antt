-- ===== src/Worker/Main/Allowed.antt =====
-- The rule of workflow/dto/create-workflow.dto.ts for actions, and the messages that look for them.
use shob_app.Prelude.{
  String, ◌≡◌, ap, ◌∙◌, Bool, true, false, some, none, inl, inr, All, All-In, arith, str_eq_iff,
  Option-cases, ℕ, List, subst,
}
use shob_app.Platform.{EventType, event_eq, event_eq_iff}
use shob_app.Store.Rows.{Workflow, GithubRepo}
use shob_app.Store.Effects.{Prisma, World, Result}
use shob_app.Action.Zod.{Js}
use shob_app.Flow.{is_action_allowed}
use shob_app.Worker.Types.{MessageResult}
use shob_app.Worker.Network.{Network}
use shob_app.Worker.Base.{ActionFilter, triggers, action_matches}
use shob_app.Worker.Base.Journal.{IsFaultless}
use shob_app.Worker.Base.Journal.Runs.{Handled}
use shob_app.Worker.Main.{Delivery, Content, consume}
use shob_app.Worker.Main.Runs.{Subject, name, class_of, filter}
use shob_app.Worker.Main.Settling.{consume-Handled}

-- The row has an action that the schema of a new workflow lets through.
abbrev pub has_allowed_action : Workflow → Bool
has_allowed_action f = elim f.action [ none ↦ false | some a ↦ is_action_allowed f.event_type a ]

-- The event and the action of a workflow that is triggered.
triggers-fields :
    (event : EventType) (user_id connection repo : ℕ) (action : String) (repos : List GithubRepo)
    (f : Workflow)
    → triggers event user_id connection repo (ActionFilter.is action) repos f ≡ true
    → (event_eq f.event_type event ≡ true)
      × (action_matches (ActionFilter.is action) f.action ≡ true)
triggers-fields event user_id connection repo action repos f h =
    (ground (arith, h), ground (arith, h))

module _ (prisma : Prisma) (js : Js) (net : Network) where
  -- A handler that looks for an action which is not allowed changes no table.
  Handled-db :
      (s : Subject) (d : Delivery) (action : String) (w : World)
      → filter s d.payload ≡ ActionFilter.is action
      → is_action_allowed (class_of js net s).event_type action ≡ false
      → All (λ f. has_allowed_action f ≡ true) w.db.workflows
      → (x : Result MessageResult × World)
      → Handled prisma js
          (class_of js net s)
          d.payload
          d.payload.installation
          (filter s d.payload)
          w.db
          x
      → x.1.db ≡ w.db
  Handled-db s d action w sought barred allowed x (inl (same, _)) = same
  Handled-db s d action w sought barred allowed x (inr (inl (same, _))) = same
  Handled-db s d action w sought barred allowed x
        (inr (inr (f, i, repo, _, _, (c, user_id, _, _, _, there, fires), _))) =
      let event : EventType = (class_of js net s).event_type in
      let (of_event, of_action) = triggers-fields event user_id c.id repo.id action w.db.repos f (
        subst (λ (a : ActionFilter). triggers event user_id c.id repo.id a w.db.repos f ≡ true)
          sought fires) in
      absurd (
        named f event action ((event_eq_iff f.event_type event).0 of_event) of_action barred
          (All-In (λ g. has_allowed_action g ≡ true) w.db.workflows f allowed there))
    where
      named :
          (f : Workflow) (event : EventType) (action : String)
          → f.event_type ≡ event
          → action_matches (ActionFilter.is action) f.action ≡ true
          → is_action_allowed event action ≡ false
          → has_allowed_action f ≡ true
          → ⊥
      named f event action e matches barred allowed = elim (Option-cases f.action) [
        | inl none_there ↦ ground (arith, none_there, matches)
        | inr (a, there) ↦
            let same : a ≡ action = (str_eq_iff a action).0 (ground (arith, there, matches)) in
            let passed : is_action_allowed f.event_type a ≡ true = ground (arith, there, allowed) in
            let passed' : is_action_allowed event action ≡ true =
              subst (λ (t : EventType). is_action_allowed t action ≡ true) e
                (subst (λ (b : String). is_action_allowed f.event_type b ≡ true) same passed) in
            ground (arith, passed', barred)
      ]

  -- Where no database call throws and every workflow has an action that the schema of a new
  -- workflow lets through for its event, a message of one of ten events whose handler looks for an
  -- action that this schema refuses for the event changes no table: no run is added.
  pub consume_barred :
      (s : Subject) (d : Delivery) (action : String) (w : World)
      → IsFaultless prisma
      → d.event ≡ name s
      → filter s d.payload ≡ ActionFilter.is action
      → is_action_allowed (class_of js net s).event_type action ≡ false
      → All (λ f. has_allowed_action f ≡ true) w.db.workflows
      → (consume prisma js net (some (Content.delivery d)) w).1.db ≡ w.db
  consume_barred s d action w faultless of_event sought barred allowed =
      let (r, v, settled, handled) = consume-Handled prisma js net s d w faultless of_event in
      ap (λ x. x.1.db) settled ∙ Handled-db s d action w sought barred allowed (r, v) handled
