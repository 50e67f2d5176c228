-- ===== src/Action/Schema/Stored.antt =====
-- A body that the schema of an action accepts, stored, and read again by the worker.
use shob_app.Prelude.{◌≡◌, refl, Option, some, none, false, true, Option-cases, inl, inr, arith}
use shob_app.Platform.{EventType, ActionTypes}
use shob_app.Store.Rows.{Value, Dict, Json}
use shob_app.Action.Zod.{Js, parse_object}
use shob_app.Action.Schema.{
  RawAction, ActionDto, Platform, TypeText, Member, parse_config, base_create_action_schema,
  create_action_schema,
}
use shob_app.Action.Schema.Again.{
  IsTidy, IsShape, parse_object_again, url-IsStable, email-IsStable, long_text-IsStable,
  flag-IsStable,
}

-- The config that is written as a JSON text.
abbrev pub written : Option Dict → Json
written none = Json.plain Value.null
written (some d) = Json.obj d

-- What the worker gives to the schema.
abbrev pub reread : ActionDto → RawAction
reread dto = record {
  platform = some Platform.github;
  kind = some (TypeText.known dto.kind);
  step = some dto.step;
  config = some (written dto.config);
}

module _ (js : Js) (tidy : IsTidy js) where
  abbrev IsMember : Member → Type 0
  IsMember Member.absent = Unit
  IsMember Member.bare = Unit
  IsMember (Member.configured shape) = IsShape js shape

  member : (kind : ActionTypes) → IsMember (base_create_action_schema kind)
  unfolding base_create_action_schema
  member ActionTypes.collect_viewer_data = tt
  member ActionTypes.webhook = (url-IsStable js tidy false, refl, tt)
  member ActionTypes.send_telegram = (long_text-IsStable js tidy 10000 false, refl, tt)
  member ActionTypes.analytics_data_by_ai = tt
  member ActionTypes.send_email_to_who_send_the_trigger = (
    long_text-IsStable js tidy 900 false,
    refl,
    (long_text-IsStable js tidy 10000 false, refl, tt),
  )
  member ActionTypes.send_email = (
    email-IsStable js tidy false,
    refl,
    (
      long_text-IsStable js tidy 900 false,
      refl,
      (long_text-IsStable js tidy 10000 false, refl, tt),
    ),
  )
  member ActionTypes.send_email_to_me = (
    long_text-IsStable js tidy 900 false,
    refl,
    (long_text-IsStable js tidy 10000 false, refl, tt),
  )
  member ActionTypes.send_email_for_repository_event = (
    email-IsStable js tidy false,
    refl,
    (
      long_text-IsStable js tidy 900 true,
      refl,
      (long_text-IsStable js tidy 10000 true, refl, (flag-IsStable js tidy false, refl, tt)),
    ),
  )
  member ActionTypes.send_email_for_push_event = (
    email-IsStable js tidy false,
    refl,
    (
      long_text-IsStable js tidy 900 false,
      refl,
      (
        long_text-IsStable js tidy 10000 false,
        refl,
        (flag-IsStable js tidy false, refl, (flag-IsStable js tidy false, refl, tt)),
      ),
    ),
  )
  member ActionTypes.send_email_to_me_for_push_event = (
    long_text-IsStable js tidy 900 true,
    refl,
    (
      long_text-IsStable js tidy 10000 true,
      refl,
      (flag-IsStable js tidy true, refl, (flag-IsStable js tidy false, refl, tt)),
    ),
  )
  member ActionTypes.send_email_to_who_push_the_commit = (
    long_text-IsStable js tidy 900 true,
    refl,
    (long_text-IsStable js tidy 10000 true, refl, (flag-IsStable js tidy false, refl, tt)),
  )
  member ActionTypes.send_email_for_star_event = (
    email-IsStable js tidy false,
    refl,
    (
      long_text-IsStable js tidy 900 true,
      refl,
      (long_text-IsStable js tidy 10000 true, refl, (flag-IsStable js tidy false, refl, tt)),
    ),
  )
  member ActionTypes.analytics_the_issue_and_give_rating = tt
  member ActionTypes.send_email_for_issues_event = tt
  member ActionTypes.send_email_to_me_for_issues_event = tt

  parse_config_again :
      (m : Member) (config : Option Json) (c : Option Dict)
      → IsMember m
      → parse_config js m config ≡ some c
      → parse_config js m (some (written c)) ≡ some c
  unfolding parse_config
  parse_config_again Member.absent config c h e = ground (arith, e)
  parse_config_again Member.bare config c h e = ground (arith, e)
  parse_config_again (Member.configured shape) none c h e = ground (arith, e)
  parse_config_again (Member.configured shape) (some (Json.plain v)) c h e = ground (arith, e)
  parse_config_again (Member.configured shape) (some (Json.obj d)) c h e =
      elim (Option-cases (parse_object js shape d)) [
        | inl refused ↦ absurd (ground (arith, e, refused))
        | inr (r, parsed) ↦ ground (arith, e, parsed, parse_object_again js shape d r h parsed)
      ]

  pub create_action_schema_again :
      (event : EventType) (body : RawAction) (dto : ActionDto)
      → create_action_schema js event body ≡ some dto
      → create_action_schema js event (reread dto) ≡ some dto
  unfolding create_action_schema
  create_action_schema_again event body dto e = elim (Option-cases body.platform) [
    | inl missing ↦ absurd (ground (arith, e, missing))
    | inr (p, has_platform) ↦ elim (Option-cases body.kind) [
      | inl missing ↦ absurd (ground (arith, e, has_platform, missing))
      | inr (TypeText.unknown s, has_kind) ↦ absurd (ground (arith, e, has_platform, has_kind))
      | inr (TypeText.known kind, has_kind) ↦ elim (Option-cases body.step) [
        | inl missing ↦ absurd (ground (arith, e, has_platform, has_kind, missing))
        | inr (step, has_step) ↦
            elim (Option-cases (parse_config js (base_create_action_schema kind) body.config)) [
              | inl refused ↦ absurd (ground (arith, e, has_platform, has_kind, has_step, refused))
              | inr (c, parsed) ↦ ground (
                arith,
                e,
                has_platform,
                has_kind,
                has_step,
                parsed,
                parse_config_again (base_create_action_schema kind) body.config c (member kind)
                    parsed,
              )
            ]
      ]
    ]
  ]
