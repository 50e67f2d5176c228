-- ===== src/Store/Rows.antt =====
-- The rows of the tables of prisma/schema.prisma, and the whole database. Identifiers (cuid texts,
-- user ids, numbers given by GitHub) are only compared, so they are numbers here; `createdAt`,
-- `updatedAt` and columns that no modelled code reads are left out.
use shob_app.Prelude.{ℕ, String, Bool, Option, List, String}
use shob_app.Platform.{
  EventType, ActionTypes, RunStatus, SubscriptionsPlan, SubscriptionsStatus, PaymentsStatus,
}

-- A JSON value that is no object; arrays are kept whole.
pub data Value : Type 0 where
  null other : Value
  bool : Bool → Value
  num : ℕ → Value
  str : String → Value

abbrev pub Dict : Type 0
Dict = List (String × Value)

pub data Json : Type 0 where
  plain : Value → Json
  obj : Dict → Json

pub record User : Type 0 where
  pub id : ℕ
  pub email : String
  pub email_verified : Bool
  pub stripe_customer_id : Option ℕ

pub record GithubConnection : Type 0 where
  pub id : ℕ
  pub user_id : Option ℕ
  pub installation_id : ℕ
  pub account_id : ℕ

pub record GithubRepo : Type 0 where
  pub id : ℕ
  pub connection_id : ℕ
  pub repo_id : ℕ
  pub name : String
  pub full_name : String
  pub is_private : Bool

pub record Workflow : Type 0 where
  pub id : ℕ
  pub user_id : ℕ
  pub name : String
  pub enabled : Bool
  pub repo : ℕ
  pub event_type : EventType
  pub action : Option String
  pub config : Option Json

pub record Action : Type 0 where
  pub id : ℕ
  pub workflow_id : ℕ
  pub kind : ActionTypes
  pub config : Option Json
  pub step : ℕ

pub record WorkflowRun : Type 0 where
  pub id : ℕ
  pub workflow_id : ℕ
  pub event_type : EventType
  pub payload : Option Json
  pub status : RunStatus
  pub finished : Bool

pub record ActionRun : Type 0 where
  pub id : ℕ
  pub workflow_run_id : ℕ
  pub action_id : ℕ
  pub status : RunStatus
  pub output : Option Json
  pub finished : Bool

pub record Subscription : Type 0 where
  pub id : ℕ
  pub user_id : Option ℕ
  pub stripe_customer_id : Option ℕ
  pub stripe_subscription_id : ℕ
  pub stripe_price_id : Option ℕ
  pub plan : Option SubscriptionsPlan
  pub status : SubscriptionsStatus
  pub period_start : Option ℕ
  pub period_end : Option ℕ
  pub cancelled : Bool

pub record Payment : Type 0 where
  pub id : ℕ
  pub local_subscription_id : ℕ
  pub stripe_invoice_id : ℕ
  pub stripe_subscription_id : ℕ
  pub amount : ℕ
  pub currency : String
  pub status : PaymentsStatus
  pub paid_at : ℕ

pub record Db : Type 0 where
  pub users : List User
  pub connections : List GithubConnection
  pub repos : List GithubRepo
  pub workflows : List Workflow
  pub actions : List Action
  pub workflow_runs : List WorkflowRun
  pub action_runs : List ActionRun
  pub subscriptions : List Subscription
  pub payments : List Payment
