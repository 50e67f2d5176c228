-- ===== src/Mail/Laws.antt =====
-- How a message with a mail is settled.
use shob_app.Prelude.{
  ◌≡◌, refl, true, false, Option, some, none, arith, ◌⊎◌, inl, inr, Option-cases,
}
use shob_app.Store.Effects.{World, Email, Result, ok, throw}
use shob_app.Worker.Main.{Settlement}
use shob_app.Mail.{Letter, Resend, consume, filled, mail_of}

-- The mail of a message, with none of its texts missing or empty.
abbrev pub content : Letter → Option Email
content Letter.invalid = none
content Letter.null = none
content (Letter.fields email subject body) = mail_of (filled email) (filled subject) (filled body)

module _ (resend : Resend) where
  abbrev pub Posted : Letter → World → Result (Option Settlement) × World → Type 0
  Posted m v (ok (some Settlement.ack), w) =
      (e : Email) × (content m ≡ some e) × (resend.send v.calls e ≡ some true)
  Posted m v (ok (some (Settlement.nack all_up_to false)), w) =
      (all_up_to ≡ false) × (content m ≡ none)
  Posted m v (ok (some (Settlement.nack all_up_to true)), w) =
      (all_up_to ≡ false)
      × ((m ≡ Letter.null)
          ⊎ ((e : Email) × (content m ≡ some e)
              × ((resend.send v.calls e ≡ some false) ⊎ (resend.send v.calls e ≡ none))))
  Posted m v (ok none, w) = ⊥
  Posted m v (throw e, w) = ⊥

  -- A message of the mail queue is always settled: acknowledged only if it has a mail with all its
  -- texts, which the mail service has taken; refused for good only if it has no such mail; and
  -- asked for again only if it is the value null, or the mail service has not taken its mail.
  pub consume-Posted : (m : Letter) (w : World) → Posted m w (consume resend (some m) w)
  unfolding consume
  consume-Posted Letter.invalid w = (refl, refl)
  consume-Posted Letter.null w = (refl, inl refl)
  consume-Posted (Letter.fields email subject body) w =
      elim (Option-cases (mail_of (filled email) (filled subject) (filled body))) [
        | inl missing ↦ ground (arith, missing)
        | inr (e, there) ↦ elim (Option-cases (resend.send w.calls e)) [
          | inl failed ↦
              let fact : (e : Email) × (content (Letter.fields email subject body) ≡ some e)
                  × ((resend.send w.calls e ≡ some false) ⊎ (resend.send w.calls e ≡ none)) =
                (e, there, inr failed) in
              ground (arith, there, failed, fact)
          | inr (true, sent) ↦
              let fact : (e : Email) × (content (Letter.fields email subject body) ≡ some e)
                  × (resend.send w.calls e ≡ some true) =
                (e, there, sent) in
              ground (arith, there, sent, fact)
          | inr (false, refused) ↦
              let fact : (e : Email) × (content (Letter.fields email subject body) ≡ some e)
                  × ((resend.send w.calls e ≡ some false) ⊎ (resend.send w.calls e ≡ none)) =
                (e, there, inl refused) in
              ground (arith, there, refused, fact)
        ]
      ]
