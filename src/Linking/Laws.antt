-- ===== src/Linking/Laws.antt =====
-- What the callback does to the connections, on every branch.
use shob_app.Prelude.{
  refl, ap, ◌⊎◌, Bool-cases, ==_self, ℕ, ◌≡◌, ◌≤◌, false, Option, some, none, arith, ◌==◌,
  Option-cases, inl, inr,
}
use shob_app.Store.Table.{count, update_many}
use shob_app.Store.Effects.{Prisma, World, Result, Exception, ok, throw}
use shob_app.Linking.{Redis, Callback, callback, is_owner, of_installation, claimed}

owner_cases :
    (user_id : ℕ) (r : Result (Option ℕ))
    → (r ≡ ok (some user_id))
      ⊎ (((e : Exception) × (r ≡ throw e))
          ⊎ ((o : Option ℕ) × (r ≡ ok o) × (is_owner user_id o ≡ false)))
owner_cases user_id (throw e) = inr (inl (e, refl))
owner_cases user_id (ok none) = inr (inr (none, refl, refl))
owner_cases user_id (ok (some u)) = elim (Bool-cases (u == user_id)) [
  | inl same ↦ inl (ap (λ n. ok (some n)) (ground (arith, same)))
  | inr different ↦ inr (inr (some u, refl, different))
]

module _ (prisma : Prisma) (redis : Redis) where
  -- The state was kept for the user, and the connection of the installation, whoever had it, is the
  -- user's now; or nothing is written.
  abbrev pub Linked : Callback → ℕ → World → Result (Unit {0}) × World → Type 0
  Linked q user_id v (ok u, w) =
      (i : ℕ) × (state : ℕ) × (q.installation ≡ some i)
      × (q.state ≡ some state)
      × (redis.get v.calls state ≡ ok (some user_id))
      × (1 ≤ count (of_installation i) v.db.connections)
      × (w.db ≡ record v.db {
        connections = update_many (of_installation i) (claimed user_id) v.db.connections;
      })
  Linked q user_id v (throw e, w) = w.db ≡ v.db

  -- A callback that answers has both parameters, its state was kept for the user, there is a
  -- connection with the installation, and every such connection, whoever had it, is the user's
  -- afterwards, and nothing else has changed; one that throws has changed no table.
  pub callback-Linked :
      (q : Callback) (user_id : ℕ) (w : World)
      → Linked q user_id w (callback prisma redis q user_id w)
  unfolding callback
  callback-Linked q user_id w = elim (Option-cases q.installation) [
    | inl missing ↦ ground (arith, missing)
    | inr (i, there) ↦ elim (Option-cases q.state) [
      | inl missing ↦ ground (arith, there, missing)
      | inr (state, kept) ↦ elim (owner_cases user_id (redis.get w.calls state)) [
        | inl mine ↦ elim (Bool-cases (count (of_installation i) w.db.connections == 0)) [
          | inl nobody ↦ ground (arith, there, kept, mine, ==_self user_id, nobody)
          | inr some_row ↦
              let d = record w.db {
                connections = update_many (of_installation i) (claimed user_id) w.db.connections;
              } in
              let fact : Linked q user_id w (ok tt, record w { db = d }) =
                (i, state, there, kept, mine, ground (arith, some_row), refl) in
              ground (arith, there, kept, mine, ==_self user_id, some_row, fact)
        ]
        | inr (inl (e, failed)) ↦ ground (arith, there, kept, failed)
        | inr (inr (o, read, other)) ↦ ground (arith, there, kept, read, other)
      ]
    ]
  ]
