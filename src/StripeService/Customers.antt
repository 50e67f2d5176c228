-- ===== src/StripeService/Customers.antt =====
-- The customer id that getStripeCustomerId keeps in the row of a user.
use shob_app.Prelude.{
  ℕ, suc, ◌≡◌, refl, subst, ◌∙◌, true, false, Option, some, none, List, [], ◌∷◌, arith,
  if◌then◌else◌, In, ◌==◌, ap, Option-cases, Bool-cases, inl, inr, String,
}
use shob_app.Store.Rows.{User}
use shob_app.Store.Table.{count, update_many}
use shob_app.Store.Table.Counting.{count-update_many, count-ext}
use shob_app.Store.Effects.{M, Prisma, World, Result, ok, throw, StripeCall, pure, ◌>>=◌, ◌>>◌}
use shob_app.Store.Effects.Cases.{query_then}
use shob_app.Worker.Base.Journal.{IsFaultless}
use shob_app.StripeService.{
  Stripe, Config, ask, has_id, customer_of, email_of, store_customer, find_customer,
  get_stripe_customer_id,
}
use shob_app.StripeService.Laws.{ask_then, logged}

abbrev with_customer : ℕ → User → User
with_customer customer u = record u { stripe_customer_id = some customer }

In-with_customer :
    (user_id customer : ℕ) (u : User) (users : List User)
    → In u (update_many (has_id user_id) (with_customer customer) users)
    → has_id user_id u ≡ true
    → u.stripe_customer_id ≡ some customer
In-with_customer user_id customer u [] i h = elim i [ ]
In-with_customer user_id customer u (x ∷ users) (inl e) h = ground (arith, e, h)
In-with_customer user_id customer u (x ∷ users) (inr i) h =
    In-with_customer user_id customer u users i h

module _ (prisma : Prisma) (user_id : ℕ) where
  abbrev found_in : List User → Option User
  found_in users = prisma.find_first User (has_id user_id) users

  found_in-with_customer :
      (customer : ℕ) (users : List User)
      → (count (has_id user_id) users == 0) ≡ false
      → customer_of (found_in (update_many (has_id user_id) (with_customer customer) users))
        ≡ some customer
  found_in-with_customer customer users some_user =
      let rows = update_many (has_id user_id) (with_customer customer) users in
      elim (Option-cases (found_in rows)) [
        | inl missing ↦ absurd (
            ground (
              arith,
              some_user,
              prisma.find_first_none User (has_id user_id) rows missing,
              count-update_many (has_id user_id) (has_id user_id) (with_customer customer) users,
              count-ext
                  (λ u. has_id user_id (if has_id user_id u then with_customer customer u else u))
                  (has_id user_id) users (λ u. ground arith),
            ))
        | inr (u, found) ↦
            let (i, h) = prisma.find_first_some User (has_id user_id) rows u found in
            ap customer_of found ∙ In-with_customer user_id customer u users i h
      ]

  -- The customer that is answered is the one in the row of the user.
  abbrev Kept : Result ℕ × World → Type 0
  Kept (ok customer, w) = customer_of (found_in w.db.users) ≡ some customer
  Kept (throw e, w) = Unit

  store_customer-Kept :
      (customer : ℕ) (w : World)
      → Kept ((store_customer prisma user_id customer >> pure customer) w)
  store_customer-Kept customer w = elim (Option-cases (prisma.fault w.calls)) [
    | inl fine ↦ elim (Bool-cases (count (has_id user_id) w.db.users == 0)) [
      | inl nobody ↦ ground (arith, fine, nobody)
      | inr somebody ↦
          ground (arith, fine, somebody, found_in-with_customer customer w.db.users somebody)
    ]
    | inr (e, failed) ↦ ground (arith, failed)
  ]

  module _ (stripe : Stripe) (config : Config) where
    find_customer-Kept :
        (email : Option String) (listed : List ℕ) (w : World)
        → Kept (
            (find_customer prisma stripe config email listed >>= λ customer.
            store_customer prisma user_id customer >> pure customer)
              w)
    unfolding find_customer
    find_customer-Kept email [] w =
        ask_then Kept (λ customer. store_customer prisma user_id customer >> pure customer) w
          (StripeCall.create_customer email) (λ n. stripe.create_customer n email) tt
          (λ customer e. store_customer-Kept customer (logged (StripeCall.create_customer email) w))
    find_customer-Kept email (customer ∷ rest) w = store_customer-Kept customer w

    get_stripe_customer_id-Kept :
        (w : World) → Kept (get_stripe_customer_id prisma stripe config user_id w)
    unfolding get_stripe_customer_id
    get_stripe_customer_id-Kept w =
        query_then Kept (λ user. answer (email_of user) (customer_of user)) w prisma
          (λ d. found_in d.users) (λ e. tt) (answered (customer_of (found_in w.db.users)) refl)
      where
        answer : Option String → Option ℕ → M ℕ
        answer email (some customer) = pure customer
        answer email none =
            ask (StripeCall.list_customers email) (λ n. stripe.list_customers n email) >>= λ listed.
            find_customer prisma stripe config email listed >>= λ customer.
            store_customer prisma user_id customer >> pure customer

        answered :
            (o : Option ℕ)
            → customer_of (found_in w.db.users) ≡ o
            → Kept (answer (email_of (found_in w.db.users)) o (record w { calls = suc w.calls }))
        answered (some customer) e = e
        answered none e =
            let email = email_of (found_in w.db.users) in
            ask_then Kept
              (λ listed. find_customer prisma stripe config email listed >>= λ customer.
                store_customer prisma user_id customer >> pure customer)
              (record w { calls = suc w.calls }) (StripeCall.list_customers email)
              (λ n. stripe.list_customers n email) tt
              (λ listed e2.
                find_customer-Kept email listed
                  (logged (StripeCall.list_customers email) (record w { calls = suc w.calls })))

    -- Where no database call throws, a customer id that the service has answered for a user is
    -- answered again at once, by one query: nothing is asked of Stripe, and no table is changed.
    pub get_stripe_customer_id_again :
        (customer : ℕ) (w v : World)
        → IsFaultless prisma
        → get_stripe_customer_id prisma stripe config user_id w ≡ (ok customer, v)
        → get_stripe_customer_id prisma stripe config user_id v
          ≡ (ok customer, record v { calls = suc v.calls })
    unfolding get_stripe_customer_id
    get_stripe_customer_id_again customer w v faultless e =
        let kept : Kept (ok customer, v) = subst Kept e (get_stripe_customer_id-Kept w) in
        ground (arith, faultless v.calls, kept)
