-- ===== src/Platform.antt =====
-- The enumerations of prisma/schema.prisma that the services and the workers branch on.
mod Events
mod Actions
pub use Events.{EventType, event_index, event_eq, event_eq_iff}
pub use Actions.{ActionTypes, action_index, action_eq, action_eq_iff}

pub data RunStatus : Type 0 where
  running succeeded failed : RunStatus

pub data SubscriptionsPlan : Type 0 where
  basic pro : SubscriptionsPlan

pub data SubscriptionsStatus : Type 0 where
  active past_due canceled unpaid incomplete incomplete_expired paused : SubscriptionsStatus

pub data PaymentsStatus : Type 0 where
  processing succeeded amount_capturable_updated payment_failed : PaymentsStatus
