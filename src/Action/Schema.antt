-- ===== src/Action/Schema.antt =====
-- action/dto: the body of an action, checked by its type and the event of its workflow.
pub mod Again
pub mod Stored
use shob_app.Prelude.{ℕ, String, Bool, true, false, Option, some, none, [], ◌∷◌}
use shob_app.Platform.{EventType, ActionTypes}
use shob_app.Store.Rows.{Dict, Json}
use shob_app.Action.Rules.{github_event_action_support, includes}
use shob_app.Action.Zod.{Js, Check, Field, Shape, parse_object, keep_if, ◌>>=◌}

abbrev long_text : ℕ → Bool → Field
long_text n optional = Field.string (Check.trim ∷ Check.min 3 ∷ Check.max n ∷ []) optional

abbrev subject : Bool → String × Field
subject optional = ("subject", long_text 900 optional)

abbrev body : Bool → String × Field
body optional = ("body", long_text 10000 optional)

abbrev email : String × Field
email = ("email", Field.string (Check.trim ∷ Check.to_lower_case ∷ Check.email ∷ []) false)

abbrev pub webhook_config_schema : Shape
webhook_config_schema = ("url", Field.string (Check.url ∷ Check.safe_url ∷ []) false) ∷ []

abbrev pub send_telegram_config_schema : Shape
send_telegram_config_schema = ("message", long_text 10000 false) ∷ []

abbrev pub send_email_to_who_send_the_trigger_config_schema : Shape
send_email_to_who_send_the_trigger_config_schema = subject false ∷ body false ∷ []

abbrev pub send_email_config_schema : Shape
send_email_config_schema = email ∷ subject false ∷ body false ∷ []

abbrev pub send_email_to_me_config_schema : Shape
send_email_to_me_config_schema = subject false ∷ body false ∷ []

abbrev pub send_email_repo_event_config_schema : Shape
send_email_repo_event_config_schema =
    email ∷ subject true ∷ body true ∷ ("do_you_want_repo_info", Field.flag false) ∷ []

abbrev pub send_email_push_event_config_schema : Shape
send_email_push_event_config_schema =
    email
    ∷ subject false
    ∷ body false
    ∷ ("do_you_want_to_send_push_info", Field.flag false)
    ∷ ("do_you_want_AI_analytics_of_push_data", Field.flag false)
    ∷ []

abbrev pub send_email_to_me_push_event_config_schema : Shape
send_email_to_me_push_event_config_schema =
    subject true
    ∷ body true
    ∷ ("do_you_want_push_info", Field.flag true)
    ∷ ("do_you_want_AI_analytics_of_push_data", Field.flag false)
    ∷ []

abbrev pub send_email_to_who_push_the_commit_config_schema : Shape
send_email_to_who_push_the_commit_config_schema =
    subject true ∷ body true ∷ ("do_you_want_AI_analytics_of_push_data", Field.flag false) ∷ []

abbrev pub send_email_star_event_config_schema : Shape
send_email_star_event_config_schema =
    email ∷ subject true ∷ body true ∷ ("do_you_want_viewer_info", Field.flag false) ∷ []

pub data Member : Type 0 where
  -- the union has no object of this type
  absent : Member
  -- an object with no `config`, and one with a `config`
  bare : Member
  configured : Shape → Member

-- The objects of the discriminated union `baseCreateActionSchema`.
unfoldable pub base_create_action_schema : ActionTypes → Member
base_create_action_schema ActionTypes.collect_viewer_data = Member.bare
base_create_action_schema ActionTypes.webhook = Member.configured webhook_config_schema
base_create_action_schema ActionTypes.send_telegram = Member.configured send_telegram_config_schema
base_create_action_schema ActionTypes.analytics_data_by_ai = Member.bare
base_create_action_schema ActionTypes.send_email_to_who_send_the_trigger =
    Member.configured send_email_to_who_send_the_trigger_config_schema
base_create_action_schema ActionTypes.send_email = Member.configured send_email_config_schema
base_create_action_schema ActionTypes.send_email_to_me =
    Member.configured send_email_to_me_config_schema
base_create_action_schema ActionTypes.send_email_for_repository_event =
    Member.configured send_email_repo_event_config_schema
base_create_action_schema ActionTypes.send_email_for_push_event =
    Member.configured send_email_push_event_config_schema
base_create_action_schema ActionTypes.send_email_to_me_for_push_event =
    Member.configured send_email_to_me_push_event_config_schema
base_create_action_schema ActionTypes.send_email_to_who_push_the_commit =
    Member.configured send_email_to_who_push_the_commit_config_schema
base_create_action_schema ActionTypes.send_email_for_star_event =
    Member.configured send_email_star_event_config_schema
base_create_action_schema ActionTypes.analytics_the_issue_and_give_rating = Member.bare
base_create_action_schema ActionTypes.send_email_for_issues_event = Member.absent
base_create_action_schema ActionTypes.send_email_to_me_for_issues_event = Member.absent

-- The objects of `baseUpdateActionByIdSchema`.
unfoldable pub base_update_action_by_id_schema : ActionTypes → Member
base_update_action_by_id_schema ActionTypes.webhook = Member.configured webhook_config_schema
base_update_action_by_id_schema ActionTypes.send_telegram =
    Member.configured send_telegram_config_schema
base_update_action_by_id_schema ActionTypes.send_email_to_who_send_the_trigger =
    Member.configured send_email_to_who_send_the_trigger_config_schema
base_update_action_by_id_schema ActionTypes.send_email = Member.configured send_email_config_schema
base_update_action_by_id_schema ActionTypes.send_email_to_me =
    Member.configured send_email_to_me_config_schema
base_update_action_by_id_schema ActionTypes.send_email_for_repository_event =
    Member.configured send_email_repo_event_config_schema
base_update_action_by_id_schema ActionTypes.send_email_for_push_event =
    Member.configured send_email_push_event_config_schema
base_update_action_by_id_schema ActionTypes.send_email_to_me_for_push_event =
    Member.configured send_email_to_me_push_event_config_schema
base_update_action_by_id_schema ActionTypes.send_email_to_who_push_the_commit =
    Member.configured send_email_to_who_push_the_commit_config_schema
base_update_action_by_id_schema ActionTypes.send_email_for_star_event =
    Member.configured send_email_star_event_config_schema
base_update_action_by_id_schema _ = Member.absent

pub data Platform : Type 0 where
  github : Platform

-- The `type` of a body: a text, which may be none of the action types.
pub data TypeText : Type 0 where
  known : ActionTypes → TypeText
  unknown : String → TypeText

abbrev known_type : TypeText → Option ActionTypes
known_type (TypeText.known kind) = some kind
known_type (TypeText.unknown s) = none

-- A body before it is checked; a key that is absent, or has a value of another type, is `none`.
pub record RawAction : Type 0 where
  pub platform : Option Platform
  pub kind : Option TypeText
  pub step : Option ℕ
  pub config : Option Json

-- `createActionDto`
pub record ActionDto : Type 0 where
  pub kind : ActionTypes
  pub step : ℕ
  pub config : Option Dict

module _ (js : Js) where
  -- The `config` of one object of the union.
  unfoldable pub parse_config : Member → Option Json → Option (Option Dict)
  parse_config Member.absent config = none
  parse_config Member.bare config = some none
  parse_config (Member.configured shape) (some (Json.obj d)) = do
    parsed ← parse_object js shape d
    some (some parsed)
  parse_config (Member.configured shape) _ = none

  -- `createActionSchemaByEventType(eventType).safeParse(data)`
  unfoldable pub create_action_schema : EventType → RawAction → Option ActionDto
  unfolding parse_config github_event_action_support base_create_action_schema
  create_action_schema event data_in = do
    platform ← data_in.platform
    text ← data_in.kind
    kind ← known_type text
    step ← data_in.step
    config ← parse_config (base_create_action_schema kind) data_in.config
    keep_if (includes (github_event_action_support event) kind)
        (record { kind = kind; step = step; config = config })

  -- `updateActionSchemaByEventType(eventType).safeParse(data)`
  unfoldable pub update_action_schema : EventType → RawAction → Option (ActionTypes × Option Dict)
  unfolding parse_config github_event_action_support base_update_action_by_id_schema
  update_action_schema event data_in = do
    text ← data_in.kind
    kind ← known_type text
    config ← parse_config (base_update_action_by_id_schema kind) data_in.config
    keep_if (includes (github_event_action_support event) kind) (kind, config)
