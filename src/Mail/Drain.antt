-- ===== src/Mail/Drain.antt =====
-- The queue `sendEmail` under the consumer: each step hands over the first message. Where RabbitMQ
-- puts a message that is asked for again is a parameter.
use shob_app.Prelude.{
  ℕ, zero, suc, ◌≡◌, refl, ap, subst, ◌∙◌, Bool, true, false, Option, some, none, List, [], ◌∷◌,
  arith, length, All, inl, inr,
}
use shob_app.Store.Table.{count}
use shob_app.Store.Effects.{M, World, Email, Result, ok, throw, pure, ◌>>=◌}
use shob_app.Store.Effects.Cases.{known_then}
use shob_app.Worker.Main.{Settlement}
use shob_app.Mail.{Letter, Resend, consume}
use shob_app.Mail.Laws.{Posted, consume-Posted}

pub record Broker : Type 1 where
  pub requeue : Letter → List Letter → List Letter
  pub requeue_count :
      (p : Letter → Bool) (m : Letter) (ms : List Letter)
      → count p (requeue m ms) ≡ count p (m ∷ ms)

abbrev pub is_null : Letter → Bool
is_null Letter.null = true
is_null _ = false

module _ (broker : Broker) (resend : Resend) where
  -- The queue after a message of it is settled.
  abbrev pub settled : Letter → List Letter → Option Settlement → List Letter
  settled m ms none = m ∷ ms
  settled m ms (some Settlement.ack) = ms
  settled m ms (some (Settlement.nack all_up_to false)) = ms
  settled m ms (some (Settlement.nack all_up_to true)) = broker.requeue m ms

  abbrev pub step : List Letter → M (List Letter)
  step [] = pure []
  step (m ∷ ms) = consume resend (some m) >>= λ s. pure (settled m ms s)

  abbrev pub drain : ℕ → List Letter → M (List Letter)
  drain zero q = pure q
  drain (suc n) q = step q >>= drain n

  -- A message that is not null leaves the queue where every mail is taken.
  step_takes :
      (m : Letter) (ms : List Letter) (w : World)
      → is_null m ≡ false
      → ((n : ℕ) (e : Email) → resend.send n e ≡ some true)
      → (step (m ∷ ms) w).0 ≡ ok ms
  step_takes m ms w h taken =
      known_then (λ x. x.0 ≡ ok ms) (consume resend (some m)) (λ s. pure (settled m ms s)) w
        (Posted resend m w) (consume-Posted resend m w) (λ e v p. elim p [ ]) done
    where
      done :
          (s : Option Settlement) (v : World)
          → Posted resend m w (ok s, v)
          → (pure (settled m ms s) v).0 ≡ ok ms
      done none v p = elim p [ ]
      done (some Settlement.ack) v p = refl
      done (some (Settlement.nack all_up_to false)) v p = refl
      done (some (Settlement.nack all_up_to true)) v (single, inl null) =
          absurd (ground (arith, h, ap is_null null))
      done (some (Settlement.nack all_up_to true)) v (single, inr (e, there, inl refused)) =
          absurd (ground (arith, refused, taken w.calls e))
      done (some (Settlement.nack all_up_to true)) v (single, inr (e, there, inr failed)) =
          absurd (ground (arith, failed, taken w.calls e))

  after_step :
      (n : ℕ) (q rest : List Letter) (w : World)
      → (step q w).0 ≡ ok rest
      → ((v : World) → (drain n rest v).0 ≡ ok [])
      → ((step q >>= drain n) w).0 ≡ ok []
  after_step n q rest w same ih =
      known_then (λ x. x.0 ≡ ok []) (step q) (drain n) w (λ x. x.0 ≡ ok rest) same
        (λ e v bad. absurd (ground (arith, bad)))
        (λ a v eq.
          let this : rest ≡ a = ground (arith, eq) in
          subst (λ l. (drain n l v).0 ≡ ok []) this (ih v))

  -- Where no message is the value null and the mail service takes every mail, the consumer, which
  -- is given the first message of the queue at each step, has emptied the queue after as many
  -- steps as there were messages.
  pub drain_empties :
      (q : List Letter) (w : World)
      → All (λ m. is_null m ≡ false) q
      → ((n : ℕ) (e : Email) → resend.send n e ≡ some true)
      → (drain (length q) q w).0 ≡ ok []
  drain_empties [] w h taken = refl
  drain_empties (m ∷ ms) w (h, hs) taken =
      after_step (length ms) (m ∷ ms) ms w (step_takes m ms w h taken)
        (λ v. drain_empties ms v hs taken)

  -- The queue that is left has as many messages with the value null.
  abbrev pub SameNulls : List Letter → Result (List Letter) × World → Type 0
  SameNulls q (ok rest, w) = count is_null rest ≡ count is_null q
  SameNulls q (throw e, w) = ⊥

  step-SameNulls : (q : List Letter) (w : World) → SameNulls q (step q w)
  unfolding consume
  step-SameNulls [] w = refl
  step-SameNulls (Letter.null ∷ ms) w = broker.requeue_count is_null Letter.null ms
  step-SameNulls (Letter.invalid ∷ ms) w = refl
  step-SameNulls (Letter.fields email subject body ∷ ms) w =
      known_then (SameNulls (m ∷ ms)) (consume resend (some m)) (λ s. pure (settled m ms s)) w
        (Posted resend m w) (consume-Posted resend m w) (λ e v p. elim p [ ]) done
    where
      m : Letter
      m = Letter.fields email subject body

      done :
          (s : Option Settlement) (v : World)
          → Posted resend m w (ok s, v)
          → SameNulls (m ∷ ms) (pure (settled m ms s) v)
      done none v p = elim p [ ]
      done (some Settlement.ack) v p = refl
      done (some (Settlement.nack all_up_to false)) v p = refl
      done (some (Settlement.nack all_up_to true)) v p = broker.requeue_count is_null m ms

  carry :
      (q rest : List Letter)
      → count is_null rest ≡ count is_null q
      → (x : Result (List Letter) × World) → SameNulls rest x
      → SameNulls q x
  carry q rest same (ok r, v) h = h ∙ same
  carry q rest same (throw e, v) h = h

  -- After any number of steps, each of which answers, whatever the mail service does, the queue
  -- has as many messages with the value null as before, wherever the broker puts a message that is
  -- asked for again.
  pub drain-SameNulls : (n : ℕ) (q : List Letter) (w : World) → SameNulls q (drain n q w)
  drain-SameNulls zero q w = refl
  drain-SameNulls (suc n) q w =
      known_then (SameNulls q) (step q) (drain n) w (SameNulls q) (step-SameNulls q w) (λ e v p. p)
        (λ rest v same. carry q rest same (drain n rest v) (drain-SameNulls n rest v))
