-- ===== src/Store/Effects/Queue.antt =====
-- The queues of utils/rabbitmq.ts for the webhooks (sendGitHubWebhookData, sendStripeWebhookData).
use shob_app.Prelude.{ℕ, suc, String, Bool, true, false, [], ◌∷◌, ◌++◌}
use shob_app.Store.Effects.{M, Body, Exception, Request, ok, throw}

-- An object put into a queue, as JSON, whose channel is up or not at a moment.
abbrev pub enqueue : String → Body → (ℕ → Bool) → M (Unit {0})
enqueue queue message is_up w = elim (is_up w.calls) [
  | true ↦ (
    ok tt,
    record w { calls = suc w.calls; requests = w.requests ++ Request.enqueue queue message ∷ [] },
  )
  | false ↦ (throw Exception.other, record w { calls = suc w.calls })
]
