-- ===== src/Worker/Main/Settling.antt =====
-- What the consumer of the queue does with a message, and what is left in the tables then.
use shob_app.Prelude.{String, ◌≡◌, refl, subst, sym, some, true, false}
use shob_app.Store.Effects.{Prisma, World, Result, ok, throw, pure, try_catch, ◌>>=◌}
use shob_app.Action.Zod.{Js}
use shob_app.Worker.Types.{MessageResult}
use shob_app.Worker.Network.{Network}
use shob_app.Worker.Base.Journal.{IsFaultless}
use shob_app.Worker.Base.Journal.Runs.{Handled}
use shob_app.Worker.Main.{Delivery, Content, Settlement, dispatch, main, consume}
use shob_app.Worker.Main.Runs.{Subject, name, class_of, filter, dispatch-Handled}

-- How a message is settled, by what its handler has come to.
abbrev pub settlement : Result MessageResult → Settlement
settlement (ok MessageResult.success) = Settlement.ack
settlement (ok (MessageResult.failure all_up_to requeue)) = Settlement.nack all_up_to requeue
settlement (throw e) = Settlement.nack false true

module _ (prisma : Prisma) (js : Js) (net : Network) where
  consume_lem :
      (d : Delivery) (w : World)
      → consume prisma js net (some (Content.delivery d)) w ≡ (
        ok (some (settlement (dispatch prisma js net d.event d w).0)),
        (dispatch prisma js net d.event d w).1,
      )
  unfolding consume main
  consume_lem d w = go (dispatch prisma js net d.event d w)
    where
      go :
          (x : Result MessageResult × World)
          → try_catch
              (try_catch (λ u. x) (λ e. pure (MessageResult.failure false true)) >>= (λ res.
                elim res [
                  | MessageResult.success ↦ pure (some Settlement.ack)
                  | MessageResult.failure all_up_to requeue ↦
                      pure (some (Settlement.nack all_up_to requeue))
                ]))
              (λ e. pure (some (Settlement.nack false true)))
              w
            ≡ (ok (some (settlement x.0)), x.1)
      go (ok MessageResult.success, v) = refl
      go (ok (MessageResult.failure all_up_to requeue), v) = refl
      go (throw e, v) = refl

  -- Where no database call throws, a message of one of ten events (star, issues, fork,
  -- commit_comment, issue_comment, watch, create, delete, workflow_job, workflow_run) is settled
  -- by the result of its handler, and either no table has changed, or one workflow run has been
  -- added for an enabled workflow of the installation's user on this event, action and repository,
  -- and that run is finished, as succeeded exactly if the answer is success; the rows added for
  -- its actions follow the sorted steps: succeeded ones, up to the end or to one that has failed,
  -- or to one left running where the action or the parsing of its config has thrown.
  pub consume-Handled :
      (s : Subject) (d : Delivery) (w : World)
      → IsFaultless prisma
      → d.event ≡ name s
      → (r : Result MessageResult) × (v : World) × (consume prisma js net
            (some (Content.delivery d))
            w
          ≡ (ok (some (settlement r)), v))
        × Handled prisma js
            (class_of js net s)
            d.payload
            d.payload.installation
            (filter s d.payload)
            w.db
            (r, v)
  consume-Handled s d w faultless of_event =
      let x = dispatch prisma js net d.event d w in
      (
        x.0,
        x.1,
        consume_lem d w,
        subst
            (λ (e : String).
              Handled prisma js (class_of js net s) d.payload d.payload.installation
                (filter s d.payload) w.db (dispatch prisma js net e d w))
            (sym of_event) (dispatch-Handled prisma js net s d w faultless),
      )
