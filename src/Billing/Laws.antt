-- ===== src/Billing/Laws.antt =====
-- The Stripe events and what they do not name: other subscriptions, earlier payments, other tables.
use shob_app.Prelude.{
  ℕ, suc, ◌≡◌, refl, sym, ap, ◌∙◌, Bool, true, false, Option, some, none, List, [], ◌∷◌, ◌++◌,
  arith, any, map, if◌then◌else◌, inl, inr, switch, All, Bool-cases, str_eq, String, ◌==◌, ◌||◌,
}
use shob_app.Platform.{SubscriptionsStatus, PaymentsStatus}
use shob_app.Store.Rows.{Db, Subscription, Payment}
use shob_app.Store.Table.{insert, select, update_many}
use shob_app.Store.Effects.{
  M, Prisma, World, Result, Exception, ok, throw, ◌>>=◌, ◌>>◌, try_catch, or_throw, call, modify,
  pure,
}
use shob_app.Worker.Types.{MessageResult}
use shob_app.Worker.Main.{Settlement}
use shob_app.Billing.{
  Notice, Letter, Checkout, Renewal, Invoice, names_subscription, names_invoice, bare_subscription,
  with_checkout, with_renewal, with_cancellation, with_invoice, payment_of, add_payment,
  create_payment, attempt, checkout_failure, store_checkout, store_renewal, store_cancellation,
  store_paid, store_unpaid, settled, upsert_subscription, update_subscription,
  checkout_session_completed, customer_subscription_updated, customer_subscription_deleted,
  invoice_paid, invoice_payment_failed, handlers, main, consume,
}

-- Some object of the notice has this subscription id of Stripe.
abbrev pub concerns : ℕ → Notice → Bool
concerns k n =
    elim n.checkout [ none ↦ false | some c ↦ c.subscription == k ]
    || elim n.renewal [ none ↦ false | some r ↦ r.subscription == k ]
    || elim n.cancelled [ none ↦ false | some s ↦ s == k ]
    || elim n.invoice [ none ↦ false | some i ↦ i.subscription == k ]

-- The second database has the subscriptions of this id and all tables but two of the first, and its
-- payments begin with those of the first.
abbrev pub Spared : ℕ → Db → Db → Type 0
Spared k d e =
    (select (names_subscription k) e.subscriptions ≡ select (names_subscription k) d.subscriptions)
    × ((new : List Payment) × (e.payments ≡ d.payments ++ new))
    × (e ≡ record d { subscriptions = e.subscriptions; payments = e.payments })

select-update_many :
    (k j : ℕ) (change : Subscription → Subscription) (rows : List Subscription)
    → (j == k) ≡ false
    → ((s : Subscription) → (change s).stripe_subscription_id ≡ s.stripe_subscription_id)
    → select (names_subscription k) (update_many (names_subscription j) change rows)
      ≡ select (names_subscription k) rows
select-update_many k j change [] other keeps = refl
select-update_many k j change (s ∷ rows) other keeps =
    ground (arith, other, keeps s, select-update_many k j change rows other keeps)

select-insert :
    (k : ℕ) (s : Subscription) (rows : List Subscription)
    → names_subscription k s ≡ false
    → select (names_subscription k) (insert s rows) ≡ select (names_subscription k) rows
select-insert k s [] h = ground (arith, h)
select-insert k s (r ∷ rows) h = ground (arith, h, select-insert k s rows h)

append_nil : (rows : List Payment) → rows ++ [] ≡ rows
append_nil [] = refl
append_nil (p ∷ rows) = ap (λ l. p ∷ l) (append_nil rows)

insert_append : (old new : List Payment) (p : Payment) → insert p (old ++ new) ≡ old ++ insert p new
insert_append [] new p = refl
insert_append (q ∷ old) new p = ap (λ l. q ∷ l) (insert_append old new p)

module _ (prisma : Prisma) (k : ℕ) (before : Db) where
  -- A step spares what was spared.
  abbrev Keeps : {A : Type 0} → M A → Type 0
  Keeps m = (w : World) → Spared k before w.db → Spared k before (m w).1.db

  with_rows :
      (d : Db) (rows : List Subscription)
      → Spared k before d
      → select (names_subscription k) rows ≡ select (names_subscription k) d.subscriptions
      → Spared k before (record d { subscriptions = rows })
  with_rows d rows (same, payments, rest) h = (
    h ∙ same,
    payments,
    ap (λ (e : Db). record e { subscriptions = rows; payments = d.payments }) rest,
  )

  with_payment :
      (d : Db) (p : Payment)
      → Spared k before d
      → Spared k before (record d { payments = insert p d.payments })
  with_payment d p (same, (new, added), rest) = (
    same,
    (insert p new, ap (insert p) added ∙ insert_append before.payments new p),
    ap (λ (e : Db). record e { subscriptions = d.subscriptions; payments = insert p d.payments })
        rest,
  )

  bind-Keeps :
      {A B : Type 0} (m : M A) (f : A → M B) → Keeps m → ((a : A) → Keeps (f a)) → Keeps (m >>= f)
  bind-Keeps {A} {B} m f h g w u = go (m w) (h w u)
    where
      go :
          (x : Result A × World)
          → Spared k before x.1.db
          → Spared k before (◌>>=◌ (λ v. x) f w).1.db
      go (ok a, v) i = g a v i
      go (throw e, v) i = i

  try_catch-Keeps :
      {A : Type 0} (m : M A) (f : Exception → M A)
      → Keeps m
      → ((e : Exception) → Keeps (f e))
      → Keeps (try_catch m f)
  try_catch-Keeps {A} m f h g w u = go (m w) (h w u)
    where
      go :
          (x : Result A × World)
          → Spared k before x.1.db
          → Spared k before (try_catch (λ v. x) f w).1.db
      go (ok a, v) i = i
      go (throw e, v) i = g e v i

  or_throw-Keeps : {A : Type 0} (o : Option A) (e : Exception) → Keeps (or_throw o e)
  or_throw-Keeps none e w u = u
  or_throw-Keeps (some a) e w u = u

  call-Keeps :
      {A : Type 0} (f : Db → Result A × Db)
      → ((d : Db) → Spared k before d → Spared k before (f d).1)
      → Keeps (call prisma f)
  call-Keeps {A} f h w u = go (prisma.fault w.calls)
    where
      go :
          (o : Option Exception)
          → Spared k before (
              (elim o as (λ x. Result A × World) [
                | none ↦ let (r, d) = f w.db in (r, record w { db = d; calls = suc w.calls })
                | some e ↦ (throw e, record w { calls = suc w.calls })
              ]).1.db)
      go none = h w.db u
      go (some e) = u

  upsert_subscription-Keeps :
      (j : ℕ) (status : SubscriptionsStatus) (change : Subscription → Subscription)
      → (j == k) ≡ false
      → ((s : Subscription) → (change s).stripe_subscription_id ≡ s.stripe_subscription_id)
      → Keeps (upsert_subscription prisma j status change)
  unfolding upsert_subscription
  upsert_subscription-Keeps j status change other keeps =
      call-Keeps
        (λ d.
          let id = prisma.cuid (map (λ s. s.id) d.subscriptions) in
          elim (prisma.find_first Subscription (names_subscription j) d.subscriptions) [
            | none ↦ (
              ok id,
              record d {
                subscriptions = insert (change (bare_subscription id j status)) d.subscriptions;
              },
            )
            | some s ↦ (
              ok s.id,
              record d {
                subscriptions = update_many (names_subscription j) change d.subscriptions;
              },
            )
          ])
        (λ d u. go d u (prisma.find_first Subscription (names_subscription j) d.subscriptions))
    where
      go :
          (d : Db)
          → Spared k before d
          → (o : Option Subscription)
          → Spared k before (
              (elim o as (λ x. Result ℕ × Db) [
                | none ↦ (
                  ok (prisma.cuid (map (λ s. s.id) d.subscriptions)),
                  record d {
                    subscriptions =
                        insert
                          (change (
                            bare_subscription
                              (prisma.cuid (map (λ s. s.id) d.subscriptions))
                              j
                              status))
                          d.subscriptions;
                  },
                )
                | some s ↦ (
                  ok s.id,
                  record d {
                    subscriptions = update_many (names_subscription j) change d.subscriptions;
                  },
                )
              ]).1)
      go d u none =
          let row = bare_subscription (prisma.cuid (map (λ s. s.id) d.subscriptions)) j status in
          with_rows d (insert (change row) d.subscriptions) u
            (select-insert k (change row) d.subscriptions (ground (arith, keeps row, other)))
      go d u (some s) =
          with_rows d (update_many (names_subscription j) change d.subscriptions) u
            (select-update_many k j change d.subscriptions other keeps)

  update_subscription-Keeps :
      (j : ℕ) (change : Subscription → Subscription)
      → (j == k) ≡ false
      → ((s : Subscription) → (change s).stripe_subscription_id ≡ s.stripe_subscription_id)
      → Keeps (update_subscription prisma j change)
  unfolding update_subscription
  update_subscription-Keeps j change other keeps =
      call-Keeps
        (λ d.
          if any (names_subscription j) d.subscriptions
          then (
            ok tt,
            record d { subscriptions = update_many (names_subscription j) change d.subscriptions },
          )
          else (throw (Exception.known_request 2025), d))
        (λ d u. go d u (any (names_subscription j) d.subscriptions))
    where
      go :
          (d : Db)
          → Spared k before d
          → (b : Bool)
          → Spared k before
              (if◌then◌else◌ {A = Result (Unit {0}) × Db} b
                (
                  ok tt,
                  record d {
                    subscriptions = update_many (names_subscription j) change d.subscriptions;
                  },
                )
                (throw (Exception.known_request 2025), d)).1
      go d u true =
          with_rows d (update_many (names_subscription j) change d.subscriptions) u
            (select-update_many k j change d.subscriptions other keeps)
      go d u false = u

  answers-Keeps : {A : Type 0} (m : M A) (a : MessageResult) → Keeps m → Keeps (m >> pure a)
  answers-Keeps m a h = bind-Keeps m (λ x. pure a) h (λ x w u. u)

  attempt-Keeps :
      {A : Type 0} (o : Option A) (store : A → M MessageResult) (failed : Exception → MessageResult)
      → ((a : A) → o ≡ some a → Keeps (store a))
      → Keeps (attempt o store failed)
  attempt-Keeps none store failed h = λ w u. u
  attempt-Keeps (some a) store failed h =
      try_catch-Keeps (store a) (λ e. pure (failed e)) (h a refl) (λ e w u. u)

  store_checkout-Keeps :
      (c : Checkout) → (c.subscription == k) ≡ false → Keeps (store_checkout prisma c)
  store_checkout-Keeps c other =
      answers-Keeps
        (upsert_subscription prisma c.subscription SubscriptionsStatus.incomplete (with_checkout c))
        MessageResult.success
        (upsert_subscription-Keeps c.subscription SubscriptionsStatus.incomplete (with_checkout c)
          other (λ s. refl))

  store_renewal-Keeps :
      (r : Renewal) → (r.subscription == k) ≡ false → Keeps (store_renewal prisma r)
  store_renewal-Keeps r other =
      answers-Keeps (update_subscription prisma r.subscription (with_renewal r))
        MessageResult.success
        (update_subscription-Keeps r.subscription (with_renewal r) other (λ s. refl))

  store_cancellation-Keeps : (j : ℕ) → (j == k) ≡ false → Keeps (store_cancellation prisma j)
  store_cancellation-Keeps j other =
      answers-Keeps (update_subscription prisma j with_cancellation) MessageResult.success
        (update_subscription-Keeps j with_cancellation other (λ s. refl))

  add_payment-Keeps : (i : Invoice) (local : ℕ) → Keeps (modify prisma (add_payment prisma i local))
  add_payment-Keeps i local =
      call-Keeps (λ d. (ok tt, add_payment prisma i local d))
        (λ d u.
          go d (payment_of prisma local i PaymentsStatus.succeeded d.payments) u
            (any (names_invoice i.id) d.payments))
    where
      go :
          (d : Db) (p : Payment)
          → Spared k before d
          → (b : Bool)
          → Spared k before (if b then d else record d { payments = insert p d.payments })
      go d p u true = u
      go d p u false = with_payment d p u

  create_payment-Keeps :
      (i : Invoice) (local : ℕ) → Keeps (call prisma (create_payment prisma i local))
  create_payment-Keeps i local = call-Keeps (create_payment prisma i local) (λ d u.
      go d (payment_of prisma local i PaymentsStatus.payment_failed d.payments) u
        (any (names_invoice i.id) d.payments))
    where
      go :
          (d : Db) (p : Payment)
          → Spared k before d
          → (b : Bool)
          → Spared k before
              (if◌then◌else◌ {A = Result (Unit {0}) × Db} b
                (throw (Exception.known_request 2002), d)
                (ok tt, record d { payments = insert p d.payments })).1
      go d p u true = u
      go d p u false = with_payment d p u

  -- The two writes of an invoice.
  invoice-Keeps :
      (i : Invoice) (status : SubscriptionsStatus) (pay : ℕ → M (Unit {0}))
      → (i.subscription == k) ≡ false
      → ((local : ℕ) → Keeps (pay local))
      → Keeps (
          upsert_subscription prisma i.subscription status (with_invoice i status) >>= λ local.
          pay local >> pure MessageResult.success)
  invoice-Keeps i status pay other h =
      bind-Keeps (upsert_subscription prisma i.subscription status (with_invoice i status))
        (λ local. pay local >> pure MessageResult.success)
        (upsert_subscription-Keeps i.subscription status (with_invoice i status) other (λ s. refl))
        (λ local. answers-Keeps (pay local) MessageResult.success (h local))

  handlers-Keep : (n : Notice) → concerns k n ≡ false → All (λ c. Keeps c.1) (handlers prisma n)
  unfolding handlers checkout_session_completed customer_subscription_updated
      customer_subscription_deleted invoice_paid invoice_payment_failed
  handlers-Keep n h = (
    attempt-Keeps n.checkout (store_checkout prisma) checkout_failure
        (λ c e. store_checkout-Keeps c (ground (arith, h, e))),
    (
      attempt-Keeps n.renewal (store_renewal prisma) (λ e. MessageResult.failure false false)
          (λ r e. store_renewal-Keeps r (ground (arith, h, e))),
      (
        attempt-Keeps n.cancelled (store_cancellation prisma)
            (λ e. MessageResult.failure false true)
            (λ j e. store_cancellation-Keeps j (ground (arith, h, e))),
        (
          attempt-Keeps n.invoice (store_paid prisma) (λ e. MessageResult.failure false true)
              (λ i e.
                invoice-Keeps i SubscriptionsStatus.active
                  (λ local. modify prisma (add_payment prisma i local)) (ground (arith, h, e))
                  (add_payment-Keeps i)),
          (
            attempt-Keeps n.invoice (store_unpaid prisma) (λ e. MessageResult.failure false true)
                (λ i e.
                  invoice-Keeps i SubscriptionsStatus.unpaid
                    (λ local. call prisma (create_payment prisma i local)) (ground (arith, h, e))
                    (create_payment-Keeps i)),
            tt,
          ),
        ),
      ),
    ),
  )

  switch-Keeps :
      {A : Type 0} (s : String) (cases : List (String × M A)) (m : M A)
      → All (λ c. Keeps c.1) cases
      → Keeps m
      → Keeps (switch s cases m)
  switch-Keeps s [] m h g w u = g w u
  switch-Keeps s ((name, a) ∷ cases) m (h, hs) g w u = elim (Bool-cases (str_eq s name)) [
    | inl found ↦ ground (arith, found, h w u)
    | inr missed ↦ ground (arith, missed, switch-Keeps s cases m hs g w u)
  ]

  main-Keeps : (n : Notice) → concerns k n ≡ false → Keeps (main prisma n)
  unfolding main
  main-Keeps n h =
      bind-Keeps (or_throw n.kind Exception.other)
        (λ kind.
          try_catch (switch kind (handlers prisma n) (pure MessageResult.success))
            (λ e. pure (MessageResult.failure false true)))
        (or_throw-Keeps n.kind Exception.other)
        (λ kind.
          try_catch-Keeps (switch kind (handlers prisma n) (pure MessageResult.success))
            (λ e. pure (MessageResult.failure false true))
            (switch-Keeps kind (handlers prisma n) (pure MessageResult.success) (handlers-Keep n h)
              (λ w u. u))
            (λ e w u. u))

  settled-Keeps : (r : MessageResult) → Keeps (settled r)
  settled-Keeps MessageResult.success v i = i
  settled-Keeps (MessageResult.failure a b) v i = i

-- A notice to the Stripe consumer in which no object names a subscription leaves the rows of this
-- subscription as they are, adds payments only behind those there are, which it leaves as they
-- are, and changes no other table, whichever database calls throw.
pub consume-Spared :
    (prisma : Prisma) (k : ℕ) (n : Notice) (w : World)
    → concerns k n ≡ false
    → Spared k w.db (consume prisma (some (Letter.notice n)) w).1.db
unfolding consume
consume-Spared prisma k n w other =
    try_catch-Keeps prisma k w.db (main prisma n >>= settled)
      (λ e. pure (some (Settlement.nack false false)))
      (bind-Keeps prisma k w.db (main prisma n) settled (main-Keeps prisma k w.db n other)
        (settled-Keeps prisma k w.db))
      (λ e v u. u) w (refl, ([], sym (append_nil w.db.payments)), refl)
