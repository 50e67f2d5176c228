-- ===== src/Pages/Walk.antt =====
-- A client that asks for one page after another.
use shob_app.Prelude.{ℕ, zero, suc, ◌≡◌, ◌≤◌, ap, ◌∙◌, Bool, List, [], ◌++◌, arith, ◌+◌, ◌*◌}
use shob_app.Store.Rows.{Db}
use shob_app.Store.Table.{count, select}
use shob_app.Store.Effects.{M, Prisma, World, ok, pure, ◌>>=◌}
use shob_app.Worker.Base.Journal.{IsFaultless}
use shob_app.Pages.{Order, Pagination, list_page, total_pages_of, page_of, pagination_of}
use shob_app.Pages.Laws.{pages_up_to, pages_up_to-take, total_pages_bounds, take_all}
use shob_app.Pages.Rows.{length-falling}

module _ {A : Type 0} where
  -- The rows of the pages 1, …, n.
  abbrev pub walk : (ℕ → M (List A × Pagination)) → ℕ → M (List A)
  walk ask zero = pure []
  walk ask (suc n) = walk ask n >>= λ rows. ask (suc n) >>= λ answer. pure (rows ++ answer.0)

  module _ (prisma : Prisma) (faultless : IsFaultless prisma) (order : Order) where
    list_page_returns :
        (table : Db → List A) (selects : A → Bool) (limit n : ℕ) (w : World)
        → list_page prisma order table selects limit (suc n) w ≡ (
          ok (
            page_of limit (suc n) (order.falling A (select selects (table w.db))),
            pagination_of (count selects (table w.db)) limit (suc n),
          ),
          record w { calls = w.calls + 2 },
        )
    unfolding list_page
    list_page_returns table selects limit n w =
        ground (arith, faultless w.calls, faultless (suc w.calls))

    walk_returns :
        (table : Db → List A) (selects : A → Bool) (limit n : ℕ) (w : World)
        → walk (list_page prisma order table selects limit) n w ≡ (
          ok (pages_up_to limit n (order.falling A (select selects (table w.db)))),
          record w { calls = w.calls + n * 2 },
        )
    walk_returns table selects limit zero w = ground arith
    walk_returns table selects limit (suc n) w = ground (
      arith,
      walk_returns table selects limit n w,
      list_page_returns table selects limit n (record w { calls = w.calls + n * 2 }),
    )

    pub walk_all :
        (table : Db → List A) (selects : A → Bool) (limit : ℕ) (w : World)
        → 1 ≤ limit
        → (walk
            (list_page prisma order table selects limit)
            (total_pages_of (count selects (table w.db)) limit)
            w).0
          ≡ ok (order.falling A (select selects (table w.db)))
    walk_all table selects limit w h =
        let total = count selects (table w.db) in
        let rows = order.falling A (select selects (table w.db)) in
        let enough = total_pages_bounds total limit h in
        ap (λ r. r.0) (walk_returns table selects limit (total_pages_of total limit) w)
        ∙ ap (λ page_rows. ok page_rows)
            (pages_up_to-take limit (total_pages_of total limit) rows
              ∙ take_all (total_pages_of total limit * limit) rows
                  (omega (arith, enough.0, length-falling order selects (table w.db))))
