-- ===== src/Pages/Listed.antt =====
-- What one page of a listing is, and that the query gives it.
use shob_app.Prelude.{ℕ, ◌≡◌, ◌≤◌, ◌<◌, ◌↔◌, ◌-◌, ◌*◌, true, Bool, List, arith, length, All, drop}
use shob_app.Store.Rows.{Db}
use shob_app.Store.Table.{count, select}
use shob_app.Store.Effects.{Prisma, World, Result, ok, throw}
use shob_app.Pages.{Order, Pagination, list_page, page_of, total_pages_of}
use shob_app.Pages.Laws.{length-take_le, has_next_page_iff}
use shob_app.Pages.Rows.{page_of-All}

-- A page of the selected rows in their order, not longer than the limit, with the number of all of
-- them, and a next page exactly where there are more pages; and no table is changed.
abbrev pub Listed :
    {A : Type 0}
    → Order
    → (A → Bool)
    → List A
    → ℕ
    → ℕ
    → Db
    → Result (List A × Pagination) × World
    → Type 0
Listed {A} order selects table limit page d (ok (rows, p), w) =
    (rows ≡ page_of limit page (order.falling A (select selects table)))
    × (length rows ≤ limit)
    × All (λ r. selects r ≡ true) rows
    × (p.total_items ≡ count selects table)
    × ((p.has_next_page ≡ true) ↔ (page < total_pages_of p.total_items limit))
    × (w.db ≡ d)
Listed order selects table limit page d (throw e, w) = w.db ≡ d

pub list_page-Listed :
    {A : Type 0} (prisma : Prisma) (order : Order) (table : Db → List A) (selects : A → Bool)
    (limit page : ℕ) (w : World)
    → 1 ≤ limit
    → Listed order selects
        (table w.db)
        limit
        page
        w.db
        (list_page prisma order table selects limit page w)
unfolding list_page
list_page-Listed {A} prisma order table selects limit page w h =
    let rows = order.falling A (select selects (table w.db)) in
    ground (
      arith,
      length-take_le limit (drop ((page - 1) * limit) rows),
      page_of-All order selects (table w.db) limit page,
      has_next_page_iff (count selects (table w.db)) limit page h,
    )
