-- ===== src/World/Exec.antt =====
-- Methods that change the world and may fail. What was written before an error stays written, so
-- the world comes back beside the error too.
use smallworld_be.Prelude.{List, [], ◌∷◌, Option, none, some}
use smallworld_be.Prelude.{Bool, true, false}
use smallworld_be.Domain.Errors.{Error, Result, ok, err}
use smallworld_be.World.{World}

abbrev pub Exec {ℓ} : Type ℓ → Type ℓ
Exec A = World → Result A × World

module _ {ℓ} {A : Type ℓ} where
  abbrev pub pure : A → Exec A
  pure a w = (ok a, w)

  abbrev pub fail : Error → Exec A
  fail e w = (err e, w)

  abbrev pub lift : Result A → Exec A
  lift r w = (r, w)

  abbrev pub or_fail : Option A → Error → Result A
  or_fail none e = err e
  or_fail (some a) e = ok a

  -- if v, err := m(); err == nil { … }
  abbrev pub found : Result A → Option A
  found (ok a) = some a
  found (err e) = none

module _ {ℓ κ} {A : Type ℓ} {B : Type κ} where
  abbrev pub continue : Result A → (A → World → Result B × World) → World → Result B × World
  continue (ok a) f w = f a w
  continue (err e) f w = (err e, w)

  infixl 10 ◌>>=◌ ◌>>◌
  abbrev pub ◌>>=◌ :
      (World → Result A × World) → (A → World → Result B × World) → World → Result B × World
  ◌>>=◌ m f w = continue (m w).0 f (m w).1

  abbrev pub ◌>>◌ :
      (World → Result A × World) → (World → Result B × World) → World → Result B × World
  ◌>>◌ m n = m >>= λ _. n

-- _ = m()
abbrev pub ignore {ℓ} : {A : Type ℓ} → Exec A → Exec (Unit {0})
ignore m w = (ok tt, (m w).1)

-- if !allowed { return …, e }
abbrev pub require : Bool → Error → Exec (Unit {0})
require true e w = (ok tt, w)
require false e w = (err e, w)

-- if len(xs) == 0 { return nil, e }
abbrev pub non_empty {ℓ} : {A : Type ℓ} → Error → List A → Exec (List A)
non_empty e [] w = (err e, w)
non_empty e (x ∷ xs) w = (ok (x ∷ xs), w)
