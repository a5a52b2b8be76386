-- ===== src/Ledger/Distinct.antt =====
-- A table whose keys are distinct holds each row that a `range` visits, and a loop that rewrites
-- the visited rows one by one finds each as it was listed.
use smallworld_be.Prelude.{
  String, ◌==◌, ◌≡◌, refl, Bool, false, none, some, List, [], ◌∷◌, arith, eq_iff, inl, inr,
  Bool-cases,
}
use smallworld_be.Prelude.Lists.{All, select}
use smallworld_be.Prelude.Table.{Table, get, put, get-put, values}
use smallworld_be.Ledger.Keys.{KeyedBy}

abbrev pub IsDistinct : {V : Type 0} → Table V → Type 0
IsDistinct [] = Unit
IsDistinct ((k, v) ∷ m) = (get k m ≡ none) × IsDistinct m

pub put-IsDistinct :
    {V : Type 0} (k : String) (v : V) (m : Table V) → IsDistinct m → IsDistinct (put k v m)
unfolding put get
put-IsDistinct k v [] d = (refl, tt)
put-IsDistinct k v ((j, x) ∷ m) d = elim (Bool-cases (j == k)) [
  | inl e ↦ rw e (ground (arith, eq_iff j k), d.1)
  | inr e ↦ rw e (ground (arith, get-put k j v m, eq_iff j k, eq_iff k j), put-IsDistinct k v m d.1)
]

module _ {V : Type 0} (id : V → String) where
  -- Each listed row is the one stored under its id, and no id is listed twice.
  abbrev pub Listed : Table V → List V → Type 0
  Listed m [] = Unit
  Listed m (x ∷ xs) = (get (id x) m ≡ some x) × All (λ y. (id x == id y) ≡ false) xs × Listed m xs

  -- A row under another id does not hide the listed rows.
  Listed-cons :
      (k : String) (v : V) (m : Table V) (xs : List V)
      → All (λ y. (k == id y) ≡ false) xs
      → Listed m xs
      → Listed ((k, v) ∷ m) xs
  unfolding get
  Listed-cons k v m [] a l = tt
  Listed-cons k v m (x ∷ xs) a l = (rw a.0 l.0, l.1, Listed-cons k v m xs a.1 l.2)

  -- A write under another id keeps them.
  pub Listed-put :
      (k : String) (v : V) (m : Table V) (xs : List V)
      → All (λ y. (k == id y) ≡ false) xs
      → Listed m xs
      → Listed (put k v m) xs
  Listed-put k v m [] a l = tt
  Listed-put k v m (x ∷ xs) a l =
      (ground (arith, get-put k (id x) v m), l.1, Listed-put k v m xs a.1 l.2)

  -- A key that is not there is the id of no listed row.
  not-Listed :
      (k : String) (m : Table V) (xs : List V)
      → get k m ≡ none
      → Listed m xs
      → All (λ y. (k == id y) ≡ false) xs
  not-Listed k m [] n l = tt
  not-Listed k m (x ∷ xs) n l = (ground (arith, eq_iff k (id x)), not-Listed k m xs n l.2)

  pub values-Listed : (m : Table V) → IsDistinct m → KeyedBy id m → Listed m (values m)
  unfolding values get
  values-Listed [] d h = tt
  values-Listed ((k, v) ∷ m) d h =
      let at_head : id v ≡ k = h k v (ground (arith, eq_iff k k)) in
      let tail = values-Listed m d.1 (λ j x g. h j x (ground (arith, eq_iff k j))) in
      let others = not-Listed k m (values m) d.0 tail in
      (ground (arith, eq_iff k k), rw at_head others, Listed-cons k v m (values m) others tail)

  All-select {κ} :
      (P : V → Type κ) (keep : V → Bool) (xs : List V) → All P xs → All P (select keep xs)
  All-select P keep [] a = tt
  All-select P keep (x ∷ xs) a = elim (Bool-cases (keep x)) [
    | inl e ↦ rw e (a.0, All-select P keep xs a.1)
    | inr e ↦ rw e (All-select P keep xs a.1)
  ]

  pub select-Listed :
      (keep : V → Bool) (m : Table V) (xs : List V) → Listed m xs → Listed m (select keep xs)
  select-Listed keep m [] l = tt
  select-Listed keep m (x ∷ xs) l = elim (Bool-cases (keep x)) [
    | inl e ↦ rw e (l.0, All-select _ keep xs l.1, select-Listed keep m xs l.2)
    | inr e ↦ rw e (select-Listed keep m xs l.2)
  ]
