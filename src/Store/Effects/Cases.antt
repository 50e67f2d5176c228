-- ===== src/Store/Effects/Cases.antt =====
-- The ways in which a step of a service may end: a property of what follows holds if it holds of each.
use shob_app.Prelude.{suc, ◌≡◌, refl, Bool, true, false, Option, some, none}
use shob_app.Store.Rows.{Db}
use shob_app.Store.Effects.{
  M, Prisma, World, Result, ok, throw, Exception, query, or_throw, throw_if, ◌>>=◌,
}

module _ {B : Type 0} (P : Result B × World → Type 0) where
  module _ {A : Type 0} (k : A → M B) (w : World) where
    pub query_then :
        (prisma : Prisma) (f : Db → A)
        → ((e : Exception) → P (throw e, record w { calls = suc w.calls }))
        → P (k (f w.db) (record w { calls = suc w.calls }))
        → P ((query prisma f >>= k) w)
    query_then prisma f h g = go (prisma.fault w.calls)
      where
        go :
            (o : Option Exception)
            → P (
                ◌>>=◌
                  (λ v. elim o as (λ x. Result A × World) [
                    | none ↦ (ok (f w.db), record w { calls = suc w.calls })
                    | some e ↦ (throw e, record w { calls = suc w.calls })
                  ])
                  k
                  w)
        go none = g
        go (some e) = h e

    pub or_throw_then :
        (o : Option A) (e : Exception)
        → (o ≡ none → P (throw e, w))
        → ((a : A) → o ≡ some a → P (k a w))
        → P ((or_throw o e >>= k) w)
    or_throw_then none e h g = h refl
    or_throw_then (some a) e h g = g a refl

  pub throw_if_then :
      (k : Unit {0} → M B) (w : World) (c : Bool) (e : Exception)
      → (c ≡ true → P (throw e, w))
      → (c ≡ false → P (k tt w))
      → P ((throw_if c e >>= k) w)
  throw_if_then k w true e h g = h refl
  throw_if_then k w false e h g = g refl

  -- A step of which something is known.
  pub known_then :
      {A : Type 0} (m : M A) (k : A → M B) (w : World) (Q : Result A × World → Type 0)
      → Q (m w)
      → ((e : Exception) (v : World) → Q (throw e, v) → P (throw e, v))
      → ((a : A) (v : World) → Q (ok a, v) → P (k a v))
      → P ((m >>= k) w)
  known_then {A} m k w Q q h g = go (m w) q
    where
      go : (x : Result A × World) → Q x → P (◌>>=◌ (λ v. x) k w)
      go (ok a, v) q = g a v q
      go (throw e, v) q = h e v q
