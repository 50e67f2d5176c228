-- ===== src/Action/Endpoints/Steps.antt =====
-- What the routes do to the numbering of the steps.
use shob_app.Prelude.{inl, inr, ◌⊎◌, ℕ, ◌≡◌, arith, map, Option, some, subst, sym, ◌+◌, In}
use shob_app.Store.Rows.{Action, Db}
use shob_app.Store.Table.{count}
use shob_app.Store.Effects.{Prisma, World, Result, ok, throw}
use shob_app.Plan.{LimitKey, can_activate}
use shob_app.Plan.Laws.{can_activate-db}
use shob_app.Action.Zod.{Js}
use shob_app.Action.Schema.{RawAction}
use shob_app.Action.Service.{
  in_workflow, get_all_actions_by_workflow_id, create_action, get_one_action_by_id,
  update_action_by_id, delete_all_actions_by_workflow_id, delete_action_by_id,
}
use shob_app.Action.Service.Effects.{
  Created, Updated, Deleted, Cleared, create_action-Created, update_action_by_id-Updated,
  delete_action_by_id-Deleted, delete_all_actions-Cleared, get_all_actions-db, get_one_action-db,
}
use shob_app.Action.Numbering.{IsOrdered, insert-IsOrdered, retype-IsOrdered}
use shob_app.Action.Numbering.Removal.{remove-IsOrdered}
use shob_app.Action.Numbering.Clearing.{clear-IsOrdered}
use shob_app.Action.Endpoints.{ActionRequest, create_action_route, serve}

module _ (prisma : Prisma) where
  Created-IsOrdered :
      (id : ℕ) (d : Db) (r : Result Action) (w : World)
      → Created prisma id d (r, w)
      → IsOrdered d.actions
      → IsOrdered w.db.actions
  Created-IsOrdered id d (ok a) w (same, owner, step, fresh) h =
      subst (λ (e : Db). IsOrdered e.actions) (sym same)
        (insert-IsOrdered a d.actions h
          (subst (λ v. a.step ≡ count (in_workflow v) d.actions + 1) (sym owner) step)
          (subst (λ v. (In v (map (λ b. b.id) d.actions) → ⊥)) (sym fresh) (prisma.cuid_new _)))
  Created-IsOrdered id d (throw e) w same h = subst (λ (e : Db). IsOrdered e.actions) (sym same) h

  Updated-IsOrdered :
      (js : Js) (user_id : ℕ) (body : RawAction) (id : ℕ) (d : Db) (r : Result Action) (w : World)
      → Updated prisma js user_id body id d (r, w)
      → IsOrdered d.actions
      → IsOrdered w.db.actions
  Updated-IsOrdered js user_id body id d (ok a) w (_, _, _, _, _, _, _, _, _, _, same) h =
      subst (λ (e : Db). IsOrdered e.actions) (sym same)
        (retype-IsOrdered id a.kind a.config d.actions h)
  Updated-IsOrdered js user_id body id d (throw e) w same h =
      subst (λ (e : Db). IsOrdered e.actions) (sym same) h

  Deleted-IsOrdered :
      (id user_id : ℕ) (d : Db) (r : Result Action) (w : World)
      → Deleted prisma id user_id d (r, w)
      → IsOrdered d.actions
      → IsOrdered w.db.actions
  Deleted-IsOrdered id user_id d (ok a) w (listed, named, owned, same, _) h =
      subst IsOrdered (sym same) (remove-IsOrdered a id d.actions h listed named)
  Deleted-IsOrdered id user_id d (throw e) w same h =
      subst (λ (e : Db). IsOrdered e.actions) (sym same) h

  Cleared-IsOrdered :
      (id : ℕ) (d : Db) (r : Result (ℕ × ℕ)) (w : World)
      → Cleared prisma id d (r, w)
      → IsOrdered d.actions
      → IsOrdered w.db.actions
  Cleared-IsOrdered id d (ok n) w (same, _) h =
      subst IsOrdered (sym same) (clear-IsOrdered id d.actions h)
  Cleared-IsOrdered id d (throw e) w same h = subst (λ (e : Db). IsOrdered e.actions) (sym same) h

  -- Equal databases are in order together.
  moved : {d e : Db} → e ≡ d → IsOrdered d.actions → IsOrdered e.actions
  moved same h = subst (λ (x : Db). IsOrdered x.actions) (sym same) h

  create_action_route-db :
      (js : Js) (id : ℕ) (body : RawAction) (user_id : ℕ) (w : World)
      → let (_, w') =
          can_activate prisma (some LimitKey.actions_per_workflow) user_id (some id) w in
        let (_, after) = create_action_route prisma js id body user_id w in
        (after.db ≡ w'.db) ⊎ (after.db ≡ (create_action prisma js id user_id body w').1.db)
  unfolding create_action_route
  create_action_route-db js id body user_id w = ground arith

  create_action_route-IsOrdered :
      (js : Js) (id : ℕ) (body : RawAction) (user_id : ℕ) (w : World)
      → IsOrdered w.db.actions
      → IsOrdered (create_action_route prisma js id body user_id w).1.db.actions
  create_action_route-IsOrdered js id body user_id w h =
      let key : Option LimitKey = some LimitKey.actions_per_workflow in
      let w' = (can_activate prisma key user_id (some id) w).1 in
      let h' = moved (can_activate-db prisma key user_id (some id) w) h in
      elim (create_action_route-db js id body user_id w) [
        | inl refused ↦ moved refused h'
        | inr done ↦
            moved done (
              Created-IsOrdered id w'.db _ _ (create_action-Created prisma js id user_id body w')
                h')
      ]

  -- The database that the service of a route leaves.
  abbrev after : Js → ActionRequest → ℕ → World → Db
  after js (ActionRequest.get_all id) u w = (get_all_actions_by_workflow_id prisma id u w).1.db
  after js (ActionRequest.get_one id) u w = (get_one_action_by_id prisma id u w).1.db
  after js (ActionRequest.create id body) u w = (create_action_route prisma js id body u w).1.db
  after js (ActionRequest.update body id) u w = (update_action_by_id prisma js u body id w).1.db
  after js (ActionRequest.delete_all id) u w =
      (delete_all_actions_by_workflow_id prisma id u w).1.db
  after js (ActionRequest.delete id) u w = (delete_action_by_id prisma id u w).1.db

  serve-db :
      (js : Js) (r : ActionRequest) (u : ℕ) (w : World)
      → (serve prisma js r u w).1.db ≡ after js r u w
  unfolding serve
  serve-db js (ActionRequest.get_all id) u w = ground arith
  serve-db js _ u w = ground arith

  pub serve-IsOrdered :
      (js : Js) (r : ActionRequest) (user_id : ℕ) (w : World)
      → IsOrdered w.db.actions
      → IsOrdered (serve prisma js r user_id w).1.db.actions
  serve-IsOrdered js r u w h = go r (serve-db js r u w)
    where
      go :
          (q : ActionRequest)
          → (serve prisma js q u w).1.db ≡ after js q u w
          → IsOrdered (serve prisma js q u w).1.db.actions
      go (ActionRequest.get_all id) same = moved same (moved (get_all_actions-db prisma id u w) h)
      go (ActionRequest.get_one id) same = moved same (moved (get_one_action-db prisma id u w) h)
      go (ActionRequest.create id body) same =
          moved same (create_action_route-IsOrdered js id body u w h)
      go (ActionRequest.update body id) same = moved same (
          Updated-IsOrdered js u body id w.db _ _
            (update_action_by_id-Updated prisma js u body id w) h)
      go (ActionRequest.delete_all id) same =
          moved same (Cleared-IsOrdered id w.db _ _ (delete_all_actions-Cleared prisma id u w) h)
      go (ActionRequest.delete id) same =
          moved same (Deleted-IsOrdered id u w.db _ _ (delete_action_by_id-Deleted prisma id u w) h)
