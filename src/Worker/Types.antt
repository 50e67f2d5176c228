-- ===== src/Worker/Types.antt =====
-- worker/github/types: what a handler and an action answer, and the payload of a webhook as far as
-- the handlers read it. The texts of messages are left out.
use shob_app.Prelude.{ℕ, String, Bool, Option}
use shob_app.Store.Rows.{Json}

-- `Class_methods_type`: `failure allUpTo requeue`
pub data MessageResult : Type 0 where
  success : MessageResult
  failure : Bool → Bool → MessageResult

-- `ActionExecutionResult`: `success output`, `failure requeue`
pub data ActionResult : Type 0 where
  success : Option Json → ActionResult
  failure : Option Bool → ActionResult

pub record Sender : Type 0 where
  pub url : Option String
  pub html_url : Option String
  pub organizations_url : Option String

pub record Repository : Type 0 where
  pub id : ℕ
  pub name : String
  pub full_name : String
  pub is_private : Bool

-- `none` is a field that is missing; the whole payload is kept as JSON too.
pub record Payload : Type 0 where
  pub action : Option String
  pub installation : Option ℕ
  pub repository : Option Repository
  pub sender : Option Sender
  pub raw : Json
