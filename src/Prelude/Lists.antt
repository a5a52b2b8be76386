-- ===== src/Prelude/Lists.antt =====
-- Filters by a Boolean test, as the loops of the store's list operations make them, and counts.
use Prim.Native.Nat.{ℕ, suc}
use mathlib.Core.Path.{◌≡◌, refl, sym, ap, subst, ◌∙◌}
use mathlib.Core.Logic.{◌⊎◌, inl, inr}
use mathlib.Core.Bool.{Bool, true, false, ◌&&◌}
use mathlib.Core.List.{List, [], ◌∷◌}
use smallworld_be.Prelude.Tests.{if◌then◌else◌, Bool-cases}

module _ {ℓ} {A : Type ℓ} where
  abbrev pub length : List A → ℕ
  length [] = 0
  length (x ∷ xs) = suc (length xs)

  -- for _, x := range xs { if keep(x) { out = append(out, x) } }
  abbrev pub select : (A → Bool) → List A → List A
  select keep [] = []
  select keep (x ∷ xs) = let rest = select keep xs in if keep x then x ∷ rest else rest

  pub select-same :
      (p q : A → Bool) (xs : List A) → ((x : A) → p x ≡ q x) → select p xs ≡ select q xs
  select-same p q [] h = refl
  select-same p q (x ∷ xs) h = rw (h x, select-same p q xs h) refl

  pub select-select :
      (p q : A → Bool) (xs : List A) → select p (select q xs) ≡ select (λ x. q x && p x) xs
  select-select p q [] = refl
  select-select p q (x ∷ xs) = elim (Bool-cases (q x)) [
    | inl e ↦ rw (e, select-select p q xs) refl
    | inr e ↦ rw (e, select-select p q xs) refl
  ]

  -- A predicate by recursion, which the tactics read and build.
  abbrev pub All {κ} : (A → Type κ) → List A → Type κ
  All P [] = Unit
  All P (x ∷ xs) = P x × All P xs

  pub All-select : (keep : A → Bool) (xs : List A) → All (λ x. keep x ≡ true) (select keep xs)
  All-select keep [] = tt
  All-select keep (x ∷ xs) = elim (Bool-cases (keep x)) [
    | inl e ↦ rw e (e, All-select keep xs)
    | inr e ↦ rw e (All-select keep xs)
  ]

  pub select-All {κ} :
      (P : A → Type κ) (keep : A → Bool) (xs : List A) → All P xs → All P (select keep xs)
  select-All P keep [] a = tt
  select-All P keep (x ∷ xs) a = elim (Bool-cases (keep x)) [
    | inl e ↦ rw e (a.0, select-All P keep xs a.1)
    | inr e ↦ rw e (select-All P keep xs a.1)
  ]

  pub select-same_All :
      (p q : A → Bool) (xs : List A) → All (λ x. p x ≡ q x) xs → select p xs ≡ select q xs
  select-same_All p q [] h = refl
  select-same_All p q (x ∷ xs) h = rw (h.0, select-same_All p q xs h.1) refl

  pub All-map {κ ι} :
      (P : A → Type κ) (Q : A → Type ι) (xs : List A) → ((x : A) → P x → Q x) → All P xs → All Q xs
  All-map P Q [] f a = tt
  All-map P Q (x ∷ xs) f a = (f x a.0, All-map P Q xs f a.1)

module _ {A : Type 0} where
  -- Membership by recursion.
  abbrev pub Among : A → List A → Type 0
  Among x [] = ⊥
  Among x (y ∷ ys) = (x ≡ y) ⊎ Among x ys

  the_kept :
      (keep : A → Bool) (y : A) (ys : List A)
      → keep y ≡ true
      → select keep (y ∷ ys) ≡ y ∷ select keep ys
  the_kept keep y ys e = rw e refl

  pub select-Among :
      (keep : A → Bool) (x : A) (xs : List A)
      → keep x ≡ true
      → Among x xs
      → Among x (select keep xs)
  select-Among keep x [] k m = absurd m
  select-Among keep x (y ∷ ys) k (inl e) = rw (sym (ap keep e) ∙ k) (inl e)
  select-Among keep x (y ∷ ys) k (inr a) = elim (Bool-cases (keep y)) [
    | inl e ↦ rw e (inr (select-Among keep x ys k a))
    | inr e ↦ rw e (select-Among keep x ys k a)
  ]

  pub Among-select : (keep : A → Bool) (x : A) (xs : List A) → Among x (select keep xs) → Among x xs
  Among-select keep x [] m = m
  Among-select keep x (y ∷ ys) m = elim (Bool-cases (keep y)) [
    | inr e ↦ inr (Among-select keep x ys (subst (Among x) (rw e refl) m))
    | inl e ↦ elim (subst (Among x) (the_kept keep y ys e) m) [
      | inl q ↦ inl q
      | inr n ↦ inr (Among-select keep x ys n)
    ]
  ]

  pub Among-All {κ} : (P : A → Type κ) (xs : List A) → ((x : A) → Among x xs → P x) → All P xs
  Among-All P [] f = tt
  Among-All P (x ∷ xs) f = (f x (inl refl), Among-All P xs (λ y m. f y (inr m)))

  pub All-Among {κ} : (P : A → Type κ) (x : A) (xs : List A) → All P xs → Among x xs → P x
  All-Among P x [] a m = absurd m
  All-Among P x (y ∷ ys) a (inl e) = subst P (sym e) a.0
  All-Among P x (y ∷ ys) a (inr m) = All-Among P x ys a.1 m

abbrev pub one_if : Bool → ℕ
one_if true = 1
one_if false = 0
