-- ===== src/StripeService/Laws.antt =====
-- What the service asks of Stripe.
use shob_app.Prelude.{
  ℕ, suc, ◌≡◌, ◌⊎◌, refl, true, false, Option, some, none, String, List, [], ◌∷◌, ◌++◌, arith, In,
  ◌==◌, Option-cases, Bool-cases, inl, inr,
}
use shob_app.Platform.{SubscriptionsPlan}
use shob_app.Store.Rows.{Json, Db, Subscription}
use shob_app.Store.Effects.{
  M, Prisma, World, Body, Result, Exception, ok, throw, Request, StripeCall, bad_request, or_throw,
  ◌>>=◌,
}
use shob_app.Store.Effects.Queue.{enqueue}
use shob_app.Store.Effects.Cases.{query_then, or_throw_then, throw_if_then}
use shob_app.StripeService.{
  Stripe, Config, ask, active_subscription, StripeItem, StripeSubscription, Cancellation, active_of,
  load_price_id, update_subscription, cancel_subscription, webhook, change_item,
  settle_cancellation,
}

abbrev pub logged : StripeCall → World → World
logged c w = record w { calls = suc w.calls; requests = w.requests ++ Request.stripe c ∷ [] }

pub ask_then :
    {A B : Type 0} (P : Result B × World → Type 0) (k : A → M B) (w : World) (c : StripeCall)
    (answer : ℕ → Option A)
    → P (throw Exception.other, logged c w)
    → ((a : A) → answer w.calls ≡ some a → P (k a (logged c w)))
    → P ((ask c answer >>= k) w)
ask_then {A} {B} P k w c answer h g = go (answer w.calls) refl
  where
    go :
        (o : Option A)
        → answer w.calls ≡ o
        → P (
            ◌>>=◌
              (λ v. elim o as (λ x. Result A × World) [
                | none ↦ (throw Exception.other, logged c w)
                | some a ↦ (ok a, logged c w)
              ])
              k
              w)
    go none e = h
    go (some a) e = g a e

module _ (prisma : Prisma) (stripe : Stripe) (config : Config) where
  -- An active subscription of the user.
  abbrev pub Active : ℕ → Db → Subscription → Type 0
  Active user_id d s = In s d.subscriptions × (active_of user_id s ≡ true)

  -- Stripe is told to change the first item of an active subscription of the user, whose price is
  -- another, to the price of the plan.
  abbrev pub Changed : ℕ → SubscriptionsPlan → World → Result (Unit {0}) × World → Type 0
  Changed user_id plan v (ok u, w) =
      (s : Subscription) × (price : ℕ) × (r : StripeSubscription) × (item : StripeItem)
      × (rest : List StripeItem) × Active user_id v.db s
      × (load_price_id config plan ≡ some price)
      × (stripe.retrieve_subscription (suc v.calls) s.stripe_subscription_id ≡ some r)
      × (r.items ≡ item ∷ rest)
      × ((item.price == price) ≡ false)
      × (w.requests
          ≡ (v.requests
              ++ Request.stripe (StripeCall.retrieve_subscription s.stripe_subscription_id) ∷ [])
            ++ Request.stripe (StripeCall.update_subscription r.id item.id price) ∷ [])
      × (w.db ≡ v.db)
  Changed user_id plan v (throw e, w) = w.db ≡ v.db

  -- A change of plan that answers concerns an active subscription of the user, whose first item at
  -- Stripe had another price than that of the plan; Stripe was asked for the subscription, and
  -- then to give that item the price of the plan, and no table has changed. One that throws has
  -- changed no table.
  pub update_subscription-Changed :
      (user_id : ℕ) (plan : SubscriptionsPlan) (w : World)
      → Changed user_id plan w (update_subscription prisma stripe config user_id plan w)
  unfolding update_subscription change_item
  update_subscription-Changed user_id plan w =
      let P : Result (Unit {0}) × World → Type 0 = Changed user_id plan w in
      let v = record w { calls = suc w.calls } in
      let retrieval : Subscription → M StripeSubscription = λ s.
        ask (StripeCall.retrieve_subscription s.stripe_subscription_id)
          (λ n. stripe.retrieve_subscription n s.stripe_subscription_id) in
      let change : ℕ → StripeSubscription → M (Unit {0}) =
        λ price r. change_item prisma stripe config price r.id r.items in
      or_throw_then P
        (λ price. active_subscription prisma user_id >>= λ found.
          or_throw found bad_request >>= λ s. retrieval s >>= change price)
        w (load_price_id config plan) Exception.other (λ missing. refl)
        (λ price there.
          query_then P (λ found. or_throw found bad_request >>= λ s. retrieval s >>= change price) w
            prisma (λ d. prisma.find_first Subscription (active_of user_id) d.subscriptions)
            (λ e. refl)
            (or_throw_then P (λ s. retrieval s >>= change price) v
              (prisma.find_first Subscription (active_of user_id) w.db.subscriptions) bad_request
              (λ none_active. refl)
              (λ s found.
                ask_then P (change price) v
                  (StripeCall.retrieve_subscription s.stripe_subscription_id)
                  (λ n. stripe.retrieve_subscription n s.stripe_subscription_id) refl
                  (λ r answered.
                    changed s price r r.items refl
                      (prisma.find_first_some Subscription (active_of user_id) w.db.subscriptions s
                        found)
                      there answered))))
    where
      changed :
          (s : Subscription) (price : ℕ) (r : StripeSubscription) (items : List StripeItem)
          → r.items ≡ items
          → Active user_id w.db s
          → load_price_id config plan ≡ some price
          → stripe.retrieve_subscription (suc w.calls) s.stripe_subscription_id ≡ some r
          → Changed user_id plan w (
              change_item prisma stripe config price r.id items (
                logged
                  (StripeCall.retrieve_subscription s.stripe_subscription_id)
                  (record w { calls = suc w.calls })))
      changed s price r [] e active there answered = refl
      changed s price r (item ∷ rest) e active there answered =
          throw_if_then (Changed user_id plan w)
            (λ u.
              ask (StripeCall.update_subscription r.id item.id price)
                (λ n. stripe.update_subscription n r.id item.id price))
            (logged (StripeCall.retrieve_subscription s.stripe_subscription_id)
              (record w { calls = suc w.calls }))
            (item.price == price) bad_request (λ same. refl)
            (λ other.
              elim (Option-cases
                (stripe.update_subscription (suc (suc w.calls)) r.id item.id price)) [
                  | inl failed ↦ ground (arith, failed)
                  | inr (u, done) ↦
                      let fact : Changed user_id plan w (
                        ok u,
                        logged (StripeCall.update_subscription r.id item.id price) (
                            logged (StripeCall.retrieve_subscription s.stripe_subscription_id)
                              (record w { calls = suc w.calls })),
                      ) =
                        (s, price, r, item, rest, active, there, answered, e, other, refl, refl) in
                      ground (arith, done, fact)
                ])

  -- Stripe is asked to cancel an active subscription of the user, or nothing is asked.
  abbrev pub Cancelled : ℕ → World → Result (Unit {0}) × World → Type 0
  Cancelled user_id v (ok u, w) =
      (s : Subscription) × Active user_id v.db s
      × (stripe.cancel_subscription (suc v.calls) s.stripe_subscription_id ≡ Cancellation.cancelled)
      × (w.requests
          ≡ v.requests
            ++ Request.stripe (StripeCall.cancel_subscription s.stripe_subscription_id) ∷ [])
      × (w.db ≡ v.db)
  Cancelled user_id v (throw e, w) =
      (w.db ≡ v.db)
      × ((w.requests ≡ v.requests)
          ⊎ ((s : Subscription) × Active user_id v.db s
              × (w.requests
                  ≡ v.requests
                    ++ Request.stripe (StripeCall.cancel_subscription s.stripe_subscription_id)
                      ∷ [])))

  -- A cancellation that answers has asked Stripe to cancel an active subscription of the user,
  -- which Stripe has done; one that throws has asked nothing, or this. No table is changed.
  pub cancel_subscription-Cancelled :
      (user_id : ℕ) (w : World)
      → Cancelled user_id w (cancel_subscription prisma stripe config user_id w)
  unfolding cancel_subscription settle_cancellation
  cancel_subscription-Cancelled user_id w =
      let P : Result (Unit {0}) × World → Type 0 = Cancelled user_id w in
      let v = record w { calls = suc w.calls } in
      let asked : Subscription → M Cancellation = λ s.
        ask (StripeCall.cancel_subscription s.stripe_subscription_id)
          (λ n. some (stripe.cancel_subscription n s.stripe_subscription_id)) in
      query_then P
        (λ found.
          or_throw found bad_request >>= λ s. asked s >>= settle_cancellation prisma stripe config)
        w prisma (λ d. prisma.find_first Subscription (active_of user_id) d.subscriptions)
        (λ e. (refl, inl refl))
        (or_throw_then P (λ s. asked s >>= settle_cancellation prisma stripe config) v
          (prisma.find_first Subscription (active_of user_id) w.db.subscriptions) bad_request
          (λ none_active. (refl, inl refl))
          (λ s found.
            ended s
              (prisma.find_first_some Subscription (active_of user_id) w.db.subscriptions s found)
              (stripe.cancel_subscription (suc w.calls) s.stripe_subscription_id) refl))
    where
      ended :
          (s : Subscription)
          → Active user_id w.db s
          → (c : Cancellation)
          → stripe.cancel_subscription (suc w.calls) s.stripe_subscription_id ≡ c
          → Cancelled user_id w (
              settle_cancellation prisma stripe config c (
                logged
                  (StripeCall.cancel_subscription s.stripe_subscription_id)
                  (record w { calls = suc w.calls })))
      ended s active Cancellation.cancelled e = (s, active, e, refl, refl)
      ended s active Cancellation.no_such_subscription e = (refl, inr (s, active, refl))
      ended s active Cancellation.refused e = (refl, inr (s, active, refl))

  -- What the data says and the event that Stripe makes of it are queued together.
  abbrev pub Queued : String → String → World → Result (Unit {0}) × World → Type 0
  Queued text sig v (ok u, w) =
      (secret : String) × (event : Json) × (parsed : Json) × (config.webhook_secret ≡ some secret)
      × (stripe.construct_event text sig secret ≡ some event)
      × (stripe.json_parse text ≡ some parsed)
      × (w.requests
          ≡ v.requests
            ++ Request.enqueue "sendStripeWebhookData"
                (Body.object (("data", parsed) ∷ ("event", event) ∷ []))
              ∷ [])
      × (w.db ≡ v.db)
  Queued text sig v (throw e, w) = (w.requests ≡ v.requests) × (w.db ≡ v.db)

  -- A webhook that answers is one of which Stripe, with the secret of the configuration and the
  -- signature, makes an event; the object of its parsed JSON and of this event, once, is queued.
  -- One that throws has queued nothing. No table is changed.
  pub webhook-Queued :
      (text sig : String) (w : World) → Queued text sig w (webhook prisma stripe config text sig w)
  unfolding webhook
  webhook-Queued text sig w =
      let P : Result (Unit {0}) × World → Type 0 = Queued text sig w in
      let send : Json → Json → M (Unit {0}) = λ event parsed.
        enqueue "sendStripeWebhookData" (Body.object (("data", parsed) ∷ ("event", event) ∷ []))
          stripe.queue in
      let parse : Json → M (Unit {0}) =
        λ event. or_throw (stripe.json_parse text) Exception.other >>= send event in
      or_throw_then P
        (λ secret. or_throw (stripe.construct_event text sig secret) bad_request >>= parse) w
        config.webhook_secret bad_request (λ missing. (refl, refl))
        (λ secret there.
          or_throw_then P parse w (stripe.construct_event text sig secret) bad_request
            (λ unsigned. (refl, refl))
            (λ event made.
              or_throw_then P (send event) w (stripe.json_parse text) Exception.other
                (λ broken. (refl, refl))
                (λ parsed read. elim (Bool-cases (stripe.queue w.calls)) [
                  | inl up ↦
                      let queued : World = record w {
                        calls = suc w.calls;
                        requests =
                            w.requests
                            ++ Request.enqueue "sendStripeWebhookData"
                                (Body.object (("data", parsed) ∷ ("event", event) ∷ []))
                              ∷ [];
                      } in
                      let fact : Queued text sig w (ok tt, queued) =
                        (secret, event, parsed, there, made, read, refl, refl) in
                      ground (arith, up, fact)
                  | inr down ↦ ground (arith, down)
                ])))
