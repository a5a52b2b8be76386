-- ===== src/Prelude/Sort.antt =====
-- `sort.Slice` by a strict order. It promises no order among equals; here a later one stays later.
use mathlib.Core.Path.{◌≡◌, refl, ap, sym}
use mathlib.Core.Option.{Option, none, some}
use mathlib.Core.Bool.{Bool, true, false, not, ◌&&◌, ◌||◌}
use native.Mathlib.Omega.{arith}
use mathlib.Core.List.{List, [], ◌∷◌}
use mathlib.Core.List.Perm
use mathlib.Core.List.{Perm}
use smallworld_be.Prelude.Tests.{if◌then◌else◌, Bool-cases}
use smallworld_be.Prelude.Lists.{All, Among, All-Among, Among-All}
use smallworld_be.Prelude.Int.{ℤ, ltb_ℤ}
use mathlib.Core.Logic.{inl, inr}

module _ {ℓ} {A : Type ℓ} (less : A → A → Bool) where
  unfoldable pub insert : A → List A → List A
  insert x [] = x ∷ []
  insert x (y ∷ ys) = let rest = insert x ys in if less y x then y ∷ rest else x ∷ y ∷ ys

  unfoldable pub sort : List A → List A
  unfolding insert
  sort [] = []
  sort (x ∷ xs) = insert x (sort xs)

  pub insert-perm : (x : A) (xs : List A) → Perm (insert x xs) (x ∷ xs)
  unfolding insert
  insert-perm x [] = Perm.refl (x ∷ [])
  insert-perm x (y ∷ ys) = elim (Bool-cases (less y x)) [
    | inl e ↦ rw e (Perm.trans (Perm.cons y (insert-perm x ys)) (Perm.swap x y ys))
    | inr e ↦ rw e (Perm.refl (x ∷ y ∷ ys))
  ]

  pub sort-perm : (xs : List A) → Perm (sort xs) xs
  unfolding sort
  sort-perm [] = Perm.refl []
  sort-perm (x ∷ xs) = Perm.trans (insert-perm x (sort xs)) (Perm.cons x (sort-perm xs))

  -- No element comes before one that is less.
  abbrev pub IsSorted : List A → Type ℓ
  IsSorted [] = Unit
  IsSorted (x ∷ xs) = All (λ y. less y x ≡ false) xs × IsSorted xs

  -- What holds of all elements still does once they are sorted.
  insert-All {κ} : (P : A → Type κ) (x : A) (xs : List A) → P x → All P xs → All P (insert x xs)
  unfolding insert
  insert-All P x [] h a = (h, a)
  insert-All P x (y ∷ ys) h a = elim (Bool-cases (less y x)) [
    | inl e ↦ rw e (a.0, insert-All P x ys h a.1)
    | inr e ↦ rw e (h, a)
  ]

  pub sort-All {κ} : (P : A → Type κ) (xs : List A) → All P xs → All P (sort xs)
  unfolding sort
  sort-All P [] a = a
  sort-All P (x ∷ xs) a = insert-All P x (sort xs) a.0 (sort-All P xs a.1)

  -- What `less` needs for its sorted lists to be in order: it is asymmetric, and not being less is
  -- transitive.
  pub record IsOrder : Type ℓ where
    pub asym : (x y : A) → less x y ≡ true → less y x ≡ false
    pub trans : (x y z : A) → less y x ≡ false → less z y ≡ false → less z x ≡ false

  All-after :
      (o : IsOrder) (x y : A) (ys : List A)
      → less y x ≡ false
      → All (λ z. less z y ≡ false) ys
      → All (λ z. less z x ≡ false) ys
  All-after o x y [] h a = tt
  All-after o x y (z ∷ zs) h a = (o.trans x y z h a.0, All-after o x y zs h a.1)

  insert-IsSorted : (o : IsOrder) (x : A) (xs : List A) → IsSorted xs → IsSorted (insert x xs)
  unfolding insert
  insert-IsSorted o x [] a = (tt, tt)
  insert-IsSorted o x (y ∷ ys) a = elim (Bool-cases (less y x)) [
    | inl e ↦
        rw e
          (insert-All (λ z. less z y ≡ false) x ys (o.asym y x e) a.0, insert-IsSorted o x ys a.1)
    | inr e ↦ rw e ((e, All-after o x y ys e a.0), a)
  ]

  pub sort-IsSorted : IsOrder → (xs : List A) → IsSorted (sort xs)
  unfolding sort
  sort-IsSorted o [] = tt
  sort-IsSorted o (x ∷ xs) = insert-IsSorted o x (sort xs) (sort-IsSorted o xs)

-- The first element.
abbrev pub head : {A : Type 0} → List A → Option A
head [] = none
head (x ∷ _) = some x

module _ {A : Type 0} (less : A → A → Bool) where
  insert-Among : (x y : A) (xs : List A) → Among y (x ∷ xs) → Among y (insert less x xs)
  unfolding insert
  insert-Among x y [] m = m
  insert-Among x y (z ∷ zs) m = elim (Bool-cases (less z x)) [
    | inr e ↦ rw e m
    | inl e ↦ rw e (elim m [
      | inl q ↦ inr (insert-Among x y zs (inl q))
      | inr (inl q) ↦ inl q
      | inr (inr n) ↦ inr (insert-Among x y zs (inr n))
    ])
  ]

  -- A sorted list has the elements of the list.
  pub Among-sort : (x : A) (xs : List A) → Among x xs → Among x (sort less xs)
  unfolding sort
  Among-sort x [] m = m
  Among-sort x (y ∷ ys) (inl e) = insert-Among y x (sort less ys) (inl e)
  Among-sort x (y ∷ ys) (inr m) = insert-Among y x (sort less ys) (inr (Among-sort x ys m))

  pub sort-Among : (x : A) (xs : List A) → Among x (sort less xs) → Among x xs
  sort-Among x xs m =
      All-Among (λ y. Among y xs) x (sort less xs)
        (sort-All less (λ y. Among y xs) xs (Among-All (λ y. Among y xs) xs (λ y k. k))) m

  -- Two sorted lists with the same elements begin with the same one, unless elements tie.
  pub first-same :
      (xs ys : List A)
      → IsSorted less xs
      → IsSorted less ys
      → ((x : A) → Among x xs → Among x ys)
      → ((x : A) → Among x ys → Among x xs)
      → ((x y : A) → Among x xs → Among y xs → less x y ≡ false → less y x ≡ false → x ≡ y)
      → head xs ≡ head ys
  first-same [] [] s t f g u = refl
  first-same [] (y ∷ ys) s t f g u = absurd (g y (inl refl))
  first-same (x ∷ xs) [] s t f g u = absurd (f x (inl refl))
  first-same (x ∷ xs) (y ∷ ys) s t f g u = elim (f x (inl refl)) [
    | inl e ↦ ap some e
    | inr m ↦ elim (g y (inl refl)) [
      | inl e ↦ ap some (sym e)
      | inr n ↦ ap some (
          u x y (inl refl) (inr n) (All-Among (λ z. less z y ≡ false) x ys t.0 m)
            (All-Among (λ z. less z x ≡ false) y xs s.0 n))
    ]
  ]

-- Two orders that agree on the elements of a list sort it alike.
module _ {ℓ κ} {A : Type ℓ} (P : A → Type κ) (less less' : A → A → Bool)
    (agree : (a b : A) → P a → P b → less a b ≡ less' a b) where
  insert-agree : (x : A) (xs : List A) → P x → All P xs → insert less x xs ≡ insert less' x xs
  unfolding insert
  insert-agree x [] h a = refl
  insert-agree x (y ∷ ys) h a = rw (agree y x a.0 h, insert-agree x ys h a.1) refl

  pub sort-agree : (xs : List A) → All P xs → sort less xs ≡ sort less' xs
  unfolding sort
  sort-agree [] a = refl
  sort-agree (x ∷ xs) a =
      rw (sort-agree xs a.1) (insert-agree x (sort less' xs) a.0 (sort-All less' P xs a.1))

-- By one order, and by another among those that it leaves equal.
unfoldable pub then_by {ℓ} : {A : Type ℓ} → (A → A → Bool) → (A → A → Bool) → A → A → Bool
then_by first second x y = first x y || (not (first y x) && second x y)

pub then_by-IsOrder {ℓ} :
    {A : Type ℓ} (first second : A → A → Bool)
    → IsOrder first
    → IsOrder second
    → IsOrder (then_by first second)
unfolding then_by
then_by-IsOrder first second o q = record {
  asym = λ x y h. ground (arith, o.asym x y, o.asym y x, q.asym x y);
  trans = λ x y z h k. ground (
    arith,
    o.trans x y z,
    o.trans z y x,
    o.trans y x z,
    o.trans x z y,
    o.trans y z x,
    o.trans z x y,
    o.asym x y,
    o.asym y z,
    o.asym z x,
    o.asym y x,
    o.asym z y,
    o.asym x z,
    q.trans x y z,
  );
}

-- By an integer that each element has.
pub key_order {ℓ} : {A : Type ℓ} (t : A → ℤ) → IsOrder (λ (a b : A). ltb_ℤ (t a) (t b))
key_order t = record { asym = λ x y h. ground arith; trans = λ x y z h k. ground arith }
