-- ===== src/Platform/Events.antt =====
-- The event types of prisma/schema.prisma that the services and the workers branch on, with a
-- number for every constructor, by which two values are compared.
use shob_app.Prelude.{
  ℕ, zero, suc, ◌≡◌, refl, ◌↔◌, Bool, true, Option, some, none, ap, ◌==◌, ==_iff,
}

pub data EventType : Type 0 where
  installation star watch label issues issue_comment push pull_request repository commit_comment
        fork pull_request_review create delete workflow_job workflow_run :
      EventType

abbrev pub event_index : EventType → ℕ
event_index EventType.installation = 0
event_index EventType.star = 1
event_index EventType.watch = 2
event_index EventType.label = 3
event_index EventType.issues = 4
event_index EventType.issue_comment = 5
event_index EventType.push = 6
event_index EventType.pull_request = 7
event_index EventType.repository = 8
event_index EventType.commit_comment = 9
event_index EventType.fork = 10
event_index EventType.pull_request_review = 11
event_index EventType.create = 12
event_index EventType.delete = 13
event_index EventType.workflow_job = 14
event_index EventType.workflow_run = 15

event_at : ℕ → Option EventType
event_at zero = some EventType.installation
event_at (suc zero) = some EventType.star
event_at (suc (suc zero)) = some EventType.watch
event_at (suc (suc (suc zero))) = some EventType.label
event_at (suc (suc (suc (suc zero)))) = some EventType.issues
event_at (suc (suc (suc (suc (suc zero))))) = some EventType.issue_comment
event_at (suc (suc (suc (suc (suc (suc zero)))))) = some EventType.push
event_at (suc (suc (suc (suc (suc (suc (suc zero))))))) = some EventType.pull_request
event_at (suc (suc (suc (suc (suc (suc (suc (suc zero)))))))) = some EventType.repository
event_at (suc (suc (suc (suc (suc (suc (suc (suc (suc zero))))))))) = some EventType.commit_comment
event_at (suc (suc (suc (suc (suc (suc (suc (suc (suc (suc zero)))))))))) = some EventType.fork
event_at (suc (suc (suc (suc (suc (suc (suc (suc (suc (suc (suc zero))))))))))) =
    some EventType.pull_request_review
event_at (suc (suc (suc (suc (suc (suc (suc (suc (suc (suc (suc (suc zero)))))))))))) =
    some EventType.create
event_at (suc (suc (suc (suc (suc (suc (suc (suc (suc (suc (suc (suc (suc zero))))))))))))) =
    some EventType.delete
event_at (suc (suc (suc (suc (suc (suc (suc (suc (suc (suc (suc (suc (suc (suc zero)))))))))))))) =
    some EventType.workflow_job
event_at
      (suc
        (suc (suc (suc (suc (suc (suc (suc (suc (suc (suc (suc (suc (suc (suc zero))))))))))))))) =
    some EventType.workflow_run
event_at _ = none

event_at-event_index : (x : EventType) → event_at (event_index x) ≡ some x
unfolding event_at
event_at-event_index EventType.installation = refl
event_at-event_index EventType.star = refl
event_at-event_index EventType.watch = refl
event_at-event_index EventType.label = refl
event_at-event_index EventType.issues = refl
event_at-event_index EventType.issue_comment = refl
event_at-event_index EventType.push = refl
event_at-event_index EventType.pull_request = refl
event_at-event_index EventType.repository = refl
event_at-event_index EventType.commit_comment = refl
event_at-event_index EventType.fork = refl
event_at-event_index EventType.pull_request_review = refl
event_at-event_index EventType.create = refl
event_at-event_index EventType.delete = refl
event_at-event_index EventType.workflow_job = refl
event_at-event_index EventType.workflow_run = refl

abbrev pub event_eq : EventType → EventType → Bool
event_eq x y = event_index x == event_index y

event_index_injective : (x y : EventType) → event_index x ≡ event_index y → x ≡ y
event_index_injective x y h = cc (event_at-event_index x, event_at-event_index y, ap event_at h)

pub event_eq_iff : (x y : EventType) → (event_eq x y ≡ true) ↔ (x ≡ y)
event_eq_iff x y =
    (λ h. event_index_injective x y ((==_iff _ _).0 h), λ e. (==_iff _ _).1 (ap event_index e))
