-- ===== src/Prelude/Table.antt =====
-- Go's `map[string]V`, as the list of its entries in the order in which a `range` visits them.
-- A table ranges over every such list, so what is shown of a table holds for every visiting order.
-- Clients compute with the laws of `table_laws`; `get` and `put` stay shut for them.
use Prim.Native.Nat.{ℕ, ◌+◌}
use Prim.Native.String.{String}
use mathlib.Core.Path.{◌≡◌, refl}
use mathlib.Core.Bool.{Bool}
use mathlib.Core.Option.{Option, none, some}
use mathlib.Core.List.{List, [], ◌∷◌, map}
use native.Mathlib.Omega.{arith}
use text.Mathlib.Text.{◌==◌}
use text.Mathlib.TextEquality.{eq_iff}
use mathlib.Core.Logic.{inl, inr}
use smallworld_be.Prelude.Tests.{if◌then◌else◌, Bool-cases}
use smallworld_be.Prelude.Lists.{one_if, Among}

abbrev pub Table {ℓ} : Type ℓ → Type ℓ
Table V = List (String × V)

module _ {ℓ} {V : Type ℓ} where
  abbrev pub empty : Table V
  empty = []

  -- v, ok := m[k]
  unfoldable pub get : String → Table V → Option V
  get k [] = none
  get k ((j, v) ∷ m) = if j == k then some v else get k m

  -- m[k] = v
  unfoldable pub put : String → V → Table V → Table V
  put k v [] = (k, v) ∷ []
  put k v ((j, w) ∷ m) = if j == k then (k, v) ∷ m else (j, w) ∷ put k v m

  -- delete(m, k)
  unfoldable pub delete : String → Table V → Table V
  delete k [] = []
  delete k ((j, v) ∷ m) = let rest = delete k m in if j == k then rest else (j, v) ∷ rest

  -- for _, v := range m
  unfoldable pub values : Table V → List V
  values = map (λ e. e.1)

  -- How many values pass a test.
  unfoldable pub count : (V → Bool) → Table V → ℕ
  count p [] = 0
  count p ((j, v) ∷ m) = one_if (p v) + count p m

  pub get-put :
      (k j : String) (v : V) (m : Table V)
      → get j (put k v m) ≡ (if k == j then some v else get j m)
  unfolding get put
  get-put k j v [] = refl
  get-put k j v ((i, w) ∷ m) = ground (arith, eq_iff k j, eq_iff i k, eq_iff i j, get-put k j v m)

  pub get-delete :
      (k j : String) (m : Table V) → get j (delete k m) ≡ (if k == j then none else get j m)
  unfolding get delete
  get-delete k j [] = ground arith
  get-delete k j ((i, w) ∷ m) = ground (arith, eq_iff k j, eq_iff i k, eq_iff i j, get-delete k j m)

  abbrev pub one_if_found : (V → Bool) → Option V → ℕ
  one_if_found p none = 0
  one_if_found p (some v) = one_if (p v)

  -- A write takes away what the key held and adds the new value.
  pub count-put :
      (p : V → Bool) (k : String) (v : V) (m : Table V)
      → count p (put k v m) + one_if_found p (get k m) ≡ count p m + one_if (p v)
  unfolding count put get
  count-put p k v [] = omega arith
  count-put p k v ((i, w) ∷ m) = ground (arith, count-put p k v m)

module _ {V : Type 0} where
  pub values-Among : (k : String) (v : V) (m : Table V) → get k m ≡ some v → Among v (values m)
  unfolding get values
  values-Among k v [] h = absurd (ground arith)
  values-Among k v ((j, w) ∷ m) h = elim (Bool-cases (j == k)) [
    | inl e ↦ inl (ground arith)
    | inr e ↦ inr (values-Among k v m (ground arith))
  ]

pub ruleset table_laws = (get-put)
