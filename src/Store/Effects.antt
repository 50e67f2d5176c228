-- ===== src/Store/Effects.antt =====
-- What a service does, step by step: it reads and writes the database, each call of which may throw,
-- and it throws exceptions of its own. Prisma and PostgreSQL are not part of the repository, so what
-- the code relies on is the record `Prisma`: which row `findFirst` returns, the order of `orderBy`,
-- the ids that `cuid()` makes, and which call throws are its fields, with the documented laws.
pub mod Inversion
pub mod Cases
pub mod Http
pub mod Queue
use shob_app.Prelude.{
  ℕ, suc, ◌≡◌, Bool, true, Option, some, none, List, [], ◌∷◌, if◌then◌else◌, In, ◌≤◌, All, String,
}
use shob_app.Store.Rows.{Db, Json}
use shob_app.Store.Table.{count}

pub data Exception : Type 0 where
  -- `HttpException` and its subclasses, by status
  http : ℕ → Exception
  -- `PrismaClientKnownRequestError` with the code `P` and these digits
  known_request : ℕ → Exception
  -- any other error
  other : Exception

abbrev pub bad_request : Exception
bad_request = Exception.http 400

abbrev pub forbidden : Exception
forbidden = Exception.http 403

abbrev pub not_found : Exception
not_found = Exception.http 404

pub data Result (A : Type 0) : Type 0 where
  ok : A → Result A
  throw : Exception → Result A

-- Rows in ascending order of a key.
abbrev pub Ascending : {A : Type 0} → (A → ℕ) → List A → Type 0
Ascending key [] = Unit
Ascending key (x ∷ xs) = All (λ y. key x ≤ key y) xs × Ascending key xs

pub record Prisma : Type 1 where
  -- Whether the call with this number throws, and what.
  pub fault : ℕ → Option Exception
  -- `findFirst` and `findUnique`: some row that the `where` clause selects, if there is one.
  pub find_first : (A : Type 0) → (A → Bool) → List A → Option A
  pub find_first_some :
      (A : Type 0) (p : A → Bool) (xs : List A) (a : A)
      → find_first A p xs ≡ some a
      → In a xs × (p a ≡ true)
  pub find_first_none :
      (A : Type 0) (p : A → Bool) (xs : List A) → find_first A p xs ≡ none → count p xs ≡ 0
  -- `orderBy`, ascending: the same rows, sorted.
  pub order_by : (A : Type 0) → (A → ℕ) → List A → List A
  pub order_by_ascending :
      (A : Type 0) (key : A → ℕ) (xs : List A) → Ascending key (order_by A key xs)
  pub order_by_count :
      (A : Type 0) (key : A → ℕ) (xs : List A) (p : A → Bool)
      → count p (order_by A key xs) ≡ count p xs
  -- A new row's id is that of no other row.
  pub cuid : List ℕ → ℕ
  pub cuid_new : (ids : List ℕ) → In (cuid ids) ids → ⊥

-- An e-mail put in the queue `sendEmail`.
pub record Email : Type 0 where
  pub email : String
  pub subject : String
  pub body : String

-- What a request sends: a JSON value, or an object of JSON values.
pub data Body : Type 0 where
  whole : Json → Body
  object : List (String × Json) → Body

-- The calls of Stripe: customers by their e-mail, a session for a customer and a price, a
-- subscription by its id, with an item and a price where it is changed.
pub data StripeCall : Type 0 where
  list_customers create_customer : Option String → StripeCall
  create_checkout : ℕ → ℕ → StripeCall
  retrieve_subscription : ℕ → StripeCall
  update_subscription : ℕ → ℕ → ℕ → StripeCall
  cancel_subscription : ℕ → StripeCall
  create_portal : ℕ → StripeCall

-- The calls of the authentication library, by the address or the token that they name.
pub data AuthCall : Type 0 where
  sign_up_email send_verification_email sign_in_email request_password_reset : String → AuthCall
  verify_email revoke_session reset_password : String → AuthCall
  change_password get_session : AuthCall

-- What the code asks of others: pages, Stripe, a queue, by its name, of webhooks, and the
-- authentication library.
pub data Request : Type 0 where
  get : String → Request
  post : String → Body → Request
  stripe : StripeCall → Request
  enqueue : String → Body → Request
  auth : AuthCall → Request

-- `Actions_function_type`; `malformed` is an object with no `success`.
pub data Answer (A : Type 0) : Type 0 where
  success : A → Answer A
  failure malformed : Answer A

-- `viewer_data` is the variable of the closure that `createViewerDataLoader` makes.
pub record World : Type 0 where
  pub db : Db
  pub calls : ℕ
  pub emails : List Email
  pub requests : List Request
  pub viewer_data : Option (Answer Json)

abbrev pub M : Type 0 → Type 0
M A = World → Result A × World

module _ {A : Type 0} where
  abbrev pub pure : A → M A
  pure a w = (ok a, w)

  abbrev pub raise : Exception → M A
  raise e w = (throw e, w)

  -- `try { m } catch (error) { h(error) }`
  abbrev pub try_catch : M A → (Exception → M A) → M A
  try_catch m h w = let (r, w') = m w in elim r [ ok a ↦ (ok a, w') | throw e ↦ h e w' ]

  -- `$transaction(async tx => …)`: what it wrote is undone when it throws.
  abbrev pub transaction : M A → M A
  transaction m w =
      let (r, w') = m w in
      elim r [ ok a ↦ (ok a, w') | throw e ↦ (throw e, record w' { db = w.db }) ]

infixl 5 ◌>>=◌ ◌>>◌
abbrev pub ◌>>=◌ : {A B : Type 0} → M A → (A → M B) → M B
◌>>=◌ m f w = let (r, w') = m w in elim r [ ok a ↦ f a w' | throw e ↦ (throw e, w') ]

abbrev pub ◌>>◌ : {A B : Type 0} → M A → M B → M B
m >> k = m >>= λ _. k

-- `if (c) throw e`
abbrev pub throw_if : Bool → Exception → M (Unit {0})
throw_if c e = if c then raise e else pure tt

-- The value, or an exception where the source tests for null.
abbrev pub or_throw : {A : Type 0} → Option A → Exception → M A
or_throw none e = raise e
or_throw (some a) e = pure a

module _ (prisma : Prisma) where
  -- One call of the client: it throws and leaves the database alone, or it does its work.
  abbrev pub call : {A : Type 0} → (Db → Result A × Db) → M A
  call f w = elim (prisma.fault w.calls) [
    | none ↦ let (r, d) = f w.db in (r, record w { db = d; calls = suc w.calls })
    | some e ↦ (throw e, record w { calls = suc w.calls })
  ]

  abbrev pub query : {A : Type 0} → (Db → A) → M A
  query f = call (λ d. (ok (f d), d))

  abbrev pub modify : (Db → Db) → M (Unit {0})
  modify f = call (λ d. (ok tt, f d))
