-- ===== src/Billing/Redelivery.antt =====
-- Invoices of which a message comes again, or a second one after a failure.
use shob_app.Prelude.{
  ℕ, if◌then◌else◌, suc, map, ◌≡◌, Bool, true, false, some, List, [], ◌∷◌, arith, any, ==_self,
  Option-cases, inl, inr,
}
use shob_app.Platform.{PaymentsStatus}
use shob_app.Store.Rows.{Payment, Db, Subscription}
use shob_app.Store.Table.{insert}
use shob_app.Store.Effects.{Prisma, World, Result, ok}
use shob_app.Worker.Types.{MessageResult}
use shob_app.Worker.Base.Journal.{IsFaultless}
use shob_app.Billing.{
  Notice, Invoice, names_invoice, names_subscription, payment_of, store_paid, invoice_paid,
  invoice_payment_failed, upsert_subscription,
}

any-insert :
    {A : Type 0} (p : A → Bool) (a : A) (rows : List A) → p a ≡ true → any p (insert a rows) ≡ true
any-insert p a [] h = ground (arith, h)
any-insert p a (x ∷ rows) h = ground (arith, any-insert p a rows h)

module _ (prisma : Prisma) (faultless : IsFaultless prisma) where
  -- The answer, and the payments after an invoice that is paid: those that were there, with one for
  -- the invoice unless it had one.
  abbrev pub Paid : Invoice → Db → Result MessageResult × World → Type 0
  Paid i d (r, w) =
      (r ≡ ok MessageResult.success)
      × (any (names_invoice i.id) w.db.payments ≡ true)
      × ((local : ℕ) × (w.db.payments ≡ (
            if any (names_invoice i.id) d.payments
            then d.payments
            else insert (payment_of prisma local i PaymentsStatus.succeeded d.payments)
                d.payments)))

  paid-any :
      (i : Invoice) (local : ℕ) (rows : List Payment)
      → any
          (names_invoice i.id)
          (insert (payment_of prisma local i PaymentsStatus.succeeded rows) rows)
        ≡ true
  paid-any i local rows =
      any-insert (names_invoice i.id) (payment_of prisma local i PaymentsStatus.succeeded rows) rows
        (==_self i.id)

  store_paid-Paid : (i : Invoice) (w : World) → Paid i w.db (store_paid prisma i w)
  unfolding upsert_subscription
  store_paid-Paid i w =
      let rows = w.db.payments in
      let new = prisma.cuid (map (λ s. s.id) w.db.subscriptions) in
      elim (Option-cases
        (prisma.find_first Subscription (names_subscription i.subscription) w.db.subscriptions)) [
          | inl missing ↦ (
            ground (arith, missing, faultless w.calls, faultless (suc w.calls)),
            ground
                (arith, missing, faultless w.calls, faultless (suc w.calls), paid-any i new rows),
            (new, ground (arith, missing, faultless w.calls, faultless (suc w.calls))),
          )
          | inr (s, found) ↦ (
            ground (arith, found, faultless w.calls, faultless (suc w.calls)),
            ground (arith, found, faultless w.calls, faultless (suc w.calls), paid-any i s.id rows),
            (s.id, ground (arith, found, faultless w.calls, faultless (suc w.calls))),
          )
        ]

  invoice_paid-Paid :
      (n : Notice) (i : Invoice) (w : World)
      → n.invoice ≡ some i
      → Paid i w.db (invoice_paid prisma n w)
  unfolding invoice_paid
  invoice_paid-Paid n i w e = ground (arith, e, store_paid-Paid i w)

  -- Where no database call throws, a message of a paid invoice succeeds and leaves a payment of
  -- the invoice, the payments unchanged if there was one; and the same message again succeeds and
  -- leaves the payments as they are.
  pub invoice_paid_twice :
      (n : Notice) (i : Invoice) (w : World)
      → n.invoice ≡ some i
      → Paid i w.db (invoice_paid prisma n w)
        × Paid i (invoice_paid prisma n w).1.db (invoice_paid prisma n (invoice_paid prisma n w).1)
        × ((invoice_paid prisma n (invoice_paid prisma n w).1).1.db.payments
            ≡ (invoice_paid prisma n w).1.db.payments)
  invoice_paid_twice n i w e =
      let v = (invoice_paid prisma n w).1 in
      let first = invoice_paid-Paid n i w e in
      let second = invoice_paid-Paid n i v e in (first, second, ground (arith, first.1, second.2.1))

  -- Where no database call throws of itself and the invoice has a payment already, the message of
  -- a failed payment is answered by a failure that asks for the message again, and the payments
  -- are unchanged.
  pub invoice_payment_failed_again :
      (n : Notice) (i : Invoice) (w : World)
      → n.invoice ≡ some i
      → any (names_invoice i.id) w.db.payments ≡ true
      → ((invoice_payment_failed prisma n w).0 ≡ ok (MessageResult.failure false true))
        × ((invoice_payment_failed prisma n w).1.db.payments ≡ w.db.payments)
  unfolding invoice_payment_failed upsert_subscription
  invoice_payment_failed_again n i w e has =
      elim (Option-cases
        (prisma.find_first Subscription (names_subscription i.subscription) w.db.subscriptions)) [
          | inl missing ↦
              ground (arith, e, missing, has, faultless w.calls, faultless (suc w.calls))
          | inr (s, found) ↦
              ground (arith, e, found, has, faultless w.calls, faultless (suc w.calls))
        ]
