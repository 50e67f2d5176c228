-- ===== src/Tests/Mail.antt =====
-- A message with a mail, run.
use shob_app.Prelude.{◌≡◌, refl, true, some, List, [], ◌∷◌}
use shob_app.Mail.{Letter, Resend, consume}
use shob_app.Mail.Laws.{Posted, consume-Posted}
use shob_app.Mail.Drain.{Broker, SameNulls, drain, drain_empties, drain-SameNulls}
use shob_app.Store.Effects.{ok}
use shob_app.Tests.Data.{world}

-- The mail service takes every mail.
abbrev resend : Resend
resend = record { send = λ n e. some true }

abbrev greeting : Letter
greeting = Letter.fields (some "me@example.org") (some "hello") (some "a new star")

consume-Posted_example : Posted resend greeting world (consume resend (some greeting) world)
consume-Posted_example = consume-Posted resend greeting world

-- A message that is asked for again comes first.
abbrev broker : Broker
broker = record { requeue = λ m ms. m ∷ ms; requeue_count = λ p m ms. refl }

abbrev two : List Letter
two = greeting ∷ Letter.invalid ∷ []

drain_empties_example : (drain broker resend 2 two world).0 ≡ ok []
drain_empties_example = drain_empties broker resend two world (refl, (refl, tt)) (λ n e. refl)

drain-SameNulls_example :
    SameNulls broker resend (Letter.null ∷ two) (drain broker resend 9 (Letter.null ∷ two) world)
drain-SameNulls_example = drain-SameNulls broker resend 9 (Letter.null ∷ two) world
