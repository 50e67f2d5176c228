-- ===== src/Mail.antt =====
-- worker/send-email/send-email.ts: the consumer of the outgoing mail. The mail service Resend is a
-- parameter.
pub mod Laws
pub mod Drain
use shob_app.Prelude.{ℕ, suc, String, Bool, true, false, Option, some, none, str_eq, if◌then◌else◌}
use shob_app.Store.Effects.{M, Email, Exception, ok, throw, pure, try_catch, ◌>>=◌}
use shob_app.Worker.Main.{Settlement}

-- The content of a message: no JSON, the value null, or fields that may be missing.
pub data Letter : Type 0 where
  invalid null : Letter
  fields : Option String → Option String → Option String → Letter

-- What `resend.emails.send` gives at a moment: `none` where it rejects, and whether it has no error.
pub record Resend : Type 0 where
  pub send : ℕ → Email → Option Bool

-- `!text` is false
abbrev pub filled : Option String → Option String
filled none = none
filled (some s) = if str_eq s "" then none else some s

abbrev pub mail_of : Option String → Option String → Option String → Option Email
mail_of (some email) (some subject) (some body) =
    some (record { email = email; subject = subject; body = body })
mail_of _ _ _ = none

module _ (resend : Resend) where
  -- The settlement by the answer of the service.
  abbrev pub deliver : Email → M Settlement
  deliver e w = elim (resend.send w.calls e) [
    | none ↦ (throw Exception.other, record w { calls = suc w.calls })
    | some true ↦ (ok Settlement.ack, record w { calls = suc w.calls })
    | some false ↦ (ok (Settlement.nack false true), record w { calls = suc w.calls })
  ]

  -- The callback of `startEmailConsumer`; `none` is a cancelled consumer. To take the value null
  -- apart throws.
  unfoldable pub consume : Option Letter → M (Option Settlement)
  consume none = pure none
  consume (some Letter.invalid) = pure (some (Settlement.nack false false))
  consume (some Letter.null) = pure (some (Settlement.nack false true))
  consume (some (Letter.fields email subject body)) =
      elim (mail_of (filled email) (filled subject) (filled body)) [
        | none ↦ pure (some (Settlement.nack false false))
        | some e ↦
            try_catch (do s ← deliver e; pure (some s))
              (λ x. pure (some (Settlement.nack false true)))
      ]
