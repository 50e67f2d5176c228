-- ===== src/Platform/Actions.antt =====
-- The action types of prisma/schema.prisma that the services and the workers branch on, with a
-- number for every constructor, by which two values are compared.
use shob_app.Prelude.{
  ℕ, zero, suc, ◌≡◌, refl, ◌↔◌, Bool, true, Option, some, none, ap, ◌==◌, ==_iff,
}

pub data ActionTypes : Type 0 where
  collect_viewer_data webhook send_telegram analytics_data_by_ai send_email_to_who_send_the_trigger
        send_email send_email_to_me send_email_to_who_push_the_commit
        send_email_to_me_for_push_event send_email_for_push_event
        analytics_the_issue_and_give_rating send_email_for_issues_event
        send_email_to_me_for_issues_event send_email_for_repository_event
        send_email_for_star_event :
      ActionTypes

abbrev pub action_index : ActionTypes → ℕ
action_index ActionTypes.collect_viewer_data = 0
action_index ActionTypes.webhook = 1
action_index ActionTypes.send_telegram = 2
action_index ActionTypes.analytics_data_by_ai = 3
action_index ActionTypes.send_email_to_who_send_the_trigger = 4
action_index ActionTypes.send_email = 5
action_index ActionTypes.send_email_to_me = 6
action_index ActionTypes.send_email_to_who_push_the_commit = 7
action_index ActionTypes.send_email_to_me_for_push_event = 8
action_index ActionTypes.send_email_for_push_event = 9
action_index ActionTypes.analytics_the_issue_and_give_rating = 10
action_index ActionTypes.send_email_for_issues_event = 11
action_index ActionTypes.send_email_to_me_for_issues_event = 12
action_index ActionTypes.send_email_for_repository_event = 13
action_index ActionTypes.send_email_for_star_event = 14

action_at : ℕ → Option ActionTypes
action_at zero = some ActionTypes.collect_viewer_data
action_at (suc zero) = some ActionTypes.webhook
action_at (suc (suc zero)) = some ActionTypes.send_telegram
action_at (suc (suc (suc zero))) = some ActionTypes.analytics_data_by_ai
action_at (suc (suc (suc (suc zero)))) = some ActionTypes.send_email_to_who_send_the_trigger
action_at (suc (suc (suc (suc (suc zero))))) = some ActionTypes.send_email
action_at (suc (suc (suc (suc (suc (suc zero)))))) = some ActionTypes.send_email_to_me
action_at (suc (suc (suc (suc (suc (suc (suc zero))))))) =
    some ActionTypes.send_email_to_who_push_the_commit
action_at (suc (suc (suc (suc (suc (suc (suc (suc zero)))))))) =
    some ActionTypes.send_email_to_me_for_push_event
action_at (suc (suc (suc (suc (suc (suc (suc (suc (suc zero))))))))) =
    some ActionTypes.send_email_for_push_event
action_at (suc (suc (suc (suc (suc (suc (suc (suc (suc (suc zero)))))))))) =
    some ActionTypes.analytics_the_issue_and_give_rating
action_at (suc (suc (suc (suc (suc (suc (suc (suc (suc (suc (suc zero))))))))))) =
    some ActionTypes.send_email_for_issues_event
action_at (suc (suc (suc (suc (suc (suc (suc (suc (suc (suc (suc (suc zero)))))))))))) =
    some ActionTypes.send_email_to_me_for_issues_event
action_at (suc (suc (suc (suc (suc (suc (suc (suc (suc (suc (suc (suc (suc zero))))))))))))) =
    some ActionTypes.send_email_for_repository_event
action_at (suc (suc (suc (suc (suc (suc (suc (suc (suc (suc (suc (suc (suc (suc zero)))))))))))))) =
    some ActionTypes.send_email_for_star_event
action_at _ = none

action_at-action_index : (x : ActionTypes) → action_at (action_index x) ≡ some x
unfolding action_at
action_at-action_index ActionTypes.collect_viewer_data = refl
action_at-action_index ActionTypes.webhook = refl
action_at-action_index ActionTypes.send_telegram = refl
action_at-action_index ActionTypes.analytics_data_by_ai = refl
action_at-action_index ActionTypes.send_email_to_who_send_the_trigger = refl
action_at-action_index ActionTypes.send_email = refl
action_at-action_index ActionTypes.send_email_to_me = refl
action_at-action_index ActionTypes.send_email_to_who_push_the_commit = refl
action_at-action_index ActionTypes.send_email_to_me_for_push_event = refl
action_at-action_index ActionTypes.send_email_for_push_event = refl
action_at-action_index ActionTypes.analytics_the_issue_and_give_rating = refl
action_at-action_index ActionTypes.send_email_for_issues_event = refl
action_at-action_index ActionTypes.send_email_to_me_for_issues_event = refl
action_at-action_index ActionTypes.send_email_for_repository_event = refl
action_at-action_index ActionTypes.send_email_for_star_event = refl

abbrev pub action_eq : ActionTypes → ActionTypes → Bool
action_eq x y = action_index x == action_index y

action_index_injective : (x y : ActionTypes) → action_index x ≡ action_index y → x ≡ y
action_index_injective x y h =
    cc (action_at-action_index x, action_at-action_index y, ap action_at h)

pub action_eq_iff : (x y : ActionTypes) → (action_eq x y ≡ true) ↔ (x ≡ y)
action_eq_iff x y =
    (λ h. action_index_injective x y ((==_iff _ _).0 h), λ e. (==_iff _ _).1 (ap action_index e))
