-- ===== src/Database/Inversion.antt =====
-- What an operation that succeeded went through.
use fascinate.Base.{◌≡◌, refl, arith}
use fascinate.Result.{Result, ok, err}
use fascinate.Database.Records.{World}
use fascinate.Database.Monad.{M, rescue, ◌>>=◌}

module _ {A B : Type 0} where
  pub bind_ok :
      (m : M A) (f : A → M B) (w v : World) (b : B)
      → (m >>= f) w ≡ (ok b, v)
      → (a : A) × ((m w ≡ (ok a, (m w).1)) × (f a (m w).1 ≡ (ok b, v)))
  bind_ok m f w v b h = go (m w) refl h
    where
      go :
          (p : Result A × World)
          → m w ≡ p
          → elim p.0 as (λ _. Result B × World) [ ok a ↦ f a p.1 | err x ↦ (err x, p.1) ]
            ≡ (ok b, v)
          → (a : A) × ((p ≡ (ok a, p.1)) × (f a p.1 ≡ (ok b, v)))
      go (ok a, w') e h = (a, (refl, h))
      go (err x, w') e h = absurd (ground (arith, h))

-- The clean-up of a failure does not turn it into a success.
pub rescue_ok :
    {A : Type 0} (m : M A) (cleanup : M (Unit {0})) (w v : World) (a : A)
    → rescue m cleanup w ≡ (ok a, v)
    → m w ≡ (ok a, v)
rescue_ok m cleanup w v a h = ground (arith, h)
