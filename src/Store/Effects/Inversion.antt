-- ===== src/Store/Effects/Inversion.antt =====
-- What a sequence that returned has done, step by step.
use shob_app.Prelude.{◌≡◌, refl}
use shob_app.Store.Effects.{M, World, Result, ok, throw, Exception, try_catch, raise, ◌>>=◌}

module _ {A B : Type 0} (m : M A) (k : A → M B) (w w' : World) (b : B) where
  pub bind_ok :
      (m >>= k) w ≡ (ok b, w') → (a : A) × (v : World) × (m w ≡ (ok a, v)) × (k a v ≡ (ok b, w'))
  bind_ok e = go (m w) refl e
    where
      go :
          (x : Result A × World)
          → m w ≡ x
          → ◌>>=◌ (λ v. x) k w ≡ (ok b, w')
          → (a : A) × (v : World) × (m w ≡ (ok a, v)) × (k a v ≡ (ok b, w'))
      go (ok a, v) p q = (a, v, p, q)
      go (throw x, v) p q = cc

module _ {A : Type 0} (m : M A) (f : Exception → Exception) (w w' : World) (a : A) where
  pub rethrow_ok : try_catch m (λ e. raise (f e)) w ≡ (ok a, w') → m w ≡ (ok a, w')
  rethrow_ok e = go (m w) refl e
    where
      go :
          (x : Result A × World)
          → m w ≡ x
          → try_catch (λ v. x) (λ e. raise (f e)) w ≡ (ok a, w')
          → m w ≡ (ok a, w')
      go (ok b, v) p q = cc
      go (throw x, v) p q = cc
