-- ===== src/Action/Rules.antt =====
-- github.action.types.rules.ts: the action types that each event supports.
use shob_app.Prelude.{Bool, List, [], ◌∷◌, ◌++◌, any}
use shob_app.Platform.{EventType, ActionTypes, action_eq}

abbrev pub all_github_action_types : List ActionTypes
all_github_action_types =
    ActionTypes.collect_viewer_data ∷ ActionTypes.send_email_to_who_send_the_trigger
    ∷ ActionTypes.webhook ∷ ActionTypes.send_telegram ∷ ActionTypes.analytics_data_by_ai
    ∷ ActionTypes.send_email ∷ ActionTypes.send_email_to_me ∷ []

abbrev pub types_for_repository_event : List ActionTypes
types_for_repository_event =
    all_github_action_types ++ ActionTypes.send_email_for_repository_event ∷ []

abbrev pub types_for_issues_event : List ActionTypes
types_for_issues_event =
    all_github_action_types
    ++ ActionTypes.analytics_the_issue_and_give_rating ∷ ActionTypes.send_email_for_issues_event
      ∷ ActionTypes.send_email_to_me_for_issues_event ∷ []

abbrev pub types_for_push_event : List ActionTypes
types_for_push_event =
    all_github_action_types
    ++ ActionTypes.send_email_to_who_push_the_commit ∷ ActionTypes.send_email_to_me_for_push_event
      ∷ ActionTypes.send_email_for_push_event ∷ []

abbrev pub types_for_star_event : List ActionTypes
types_for_star_event = all_github_action_types ++ ActionTypes.send_email_for_star_event ∷ []

unfoldable pub github_event_action_support : EventType → List ActionTypes
github_event_action_support EventType.repository = types_for_repository_event
github_event_action_support EventType.star = types_for_star_event
github_event_action_support EventType.issues = types_for_issues_event
github_event_action_support EventType.push = types_for_push_event
github_event_action_support _ = all_github_action_types

-- `supportedActionTypes.includes(type)`
abbrev pub includes : List ActionTypes → ActionTypes → Bool
includes types kind = any (λ t. action_eq t kind) types
