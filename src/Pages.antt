-- ===== src/Pages.antt =====
-- The listings with pages of the services, and the parameters that the controllers read for them.
-- `Math.ceil(total / limit)` is taken on whole numbers.
pub mod Laws
pub mod Rows
pub mod Walk
pub mod Listed
use shob_app.Prelude.{
  ℕ, suc, ◌+◌, ◌-◌, ◌*◌, ◌/◌, ◌≡◌, Bool, true, false, Option, some, none, List, [], ◌∷◌,
  if◌then◌else◌, ltb, leb, max, take, drop, ◌==◌,
}
use shob_app.Store.Rows.{Db}
use shob_app.Store.Table.{count, select}
use shob_app.Store.Effects.Http.{as_http}
use shob_app.Store.Effects.{
  M, Prisma, Exception, Result, ok, throw, call, bad_request, pure, query, transaction, throw_if,
  ◌>>=◌, ◌>>◌,
}

-- `orderBy` on a time or a number, descending: the same rows in some order.
pub record Order : Type 1 where
  pub falling : (A : Type 0) → List A → List A
  pub falling_count :
      (A : Type 0) (p : A → Bool) (rows : List A) → count p (falling A rows) ≡ count p rows

-- `pagination` of the answer
pub record Pagination : Type 0 where
  pub total_items : ℕ
  pub current_page : ℕ
  pub total_pages : ℕ
  pub page_size : ℕ
  pub has_next_page : Bool
  pub has_prev_page : Bool

abbrev pub total_pages_of : ℕ → ℕ → ℕ
total_pages_of total limit = (total + (limit - 1)) / limit

abbrev pub pagination_of : ℕ → ℕ → ℕ → Pagination
pagination_of total limit page = record {
  total_items = total;
  current_page = page;
  total_pages = total_pages_of total limit;
  page_size = limit;
  has_next_page = ltb (page * limit) total;
  has_prev_page = ltb 1 page;
}

-- skip: (page - 1) * limit, take: limit
abbrev pub page_of : {A : Type 0} → ℕ → ℕ → List A → List A
page_of limit page rows = take limit (drop ((page - 1) * limit) rows)

-- The two queries of one transaction: `count` and `findMany` with the same `where` clause. The page 0
-- stands for any below 1, whose negative `skip` the client refuses.
unfoldable pub list_page :
    {A : Type 0} → Prisma → Order → (Db → List A) → (A → Bool) → ℕ → ℕ → M (List A × Pagination)
list_page prisma order table selects limit page = transaction (do
  total ← query prisma (λ d. count selects (table d))
  rows ← call prisma (λ d.
      if page == 0
      then (throw Exception.other, d)
      else (ok (page_of limit page (order.falling _ (select selects (table d)))), d))
  pure (rows, pagination_of total limit page))

-- `parseInt` of a text in the query: NaN, a number below 0, or one from 0
pub data Parsed : Type 0 where
  nan negative : Parsed
  natural : ℕ → Parsed

-- Math.max(parseInt(text) || default, 1)
abbrev pub clamped : Parsed → ℕ → ℕ
clamped Parsed.nan default = max default 1
clamped Parsed.negative default = 1
clamped (Parsed.natural n) default = max (if n == 0 then default else n) 1

-- `MAX_LIMIT` of the configuration, where it is a number.
abbrev pub max_limit_of : Option ℕ → ℕ
max_limit_of none = 100
max_limit_of (some n) = n

-- A route with pages: the parameters, the test of the limit, and the service.
unfoldable pub paged :
    {A : Type 0}
    → Option ℕ
    → Parsed
    → Parsed
    → (ℕ → ℕ → M (List A × Pagination))
    → M (List A × Pagination)
paged max_limit page limit service = as_http (do
  throw_if (leb (max_limit_of max_limit) (clamped limit 10)) bad_request
  service (clamped limit 10) (clamped page 1))
