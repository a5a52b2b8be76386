-- ===== src/Ledger/Keys.antt =====
-- A step seen from one table: the table stays, gains a row under its own new id, or has one row
-- replaced by a later version of it.
use smallworld_be.Prelude.{
  String, ◌==◌, ◌≡◌, refl, ◌⊎◌, inl, inr, none, some, arith, eq_iff, Bool-cases, subst,
}
use smallworld_be.Prelude.Table.{Table, get, put, get-put}

abbrev pub KeyedBy : {V : Type 0} → (V → String) → Table V → Type 0
KeyedBy {V} id m = (k : String) (v : V) → get k m ≡ some v → id v ≡ k

pub put-KeyedBy :
    {V : Type 0} (id : V → String) (k : String) (v : V) (m : Table V)
    → id v ≡ k
    → KeyedBy id m
    → KeyedBy id (put k v m)
put-KeyedBy id k v m e h j x p = ground (arith, get-put k j v m, eq_iff k j, h j x)

pub data Change {V : Type 0} (id : V → String) (New : V → Type 0) (Move : V → V → Type 0)
    (m m' : Table V) : Type 0 where
  same : m' ≡ m → Change id New Move m m'
  added : (v : V) → get (id v) m ≡ none → New v → m' ≡ put (id v) v m → Change id New Move m m'
  moved :
      (v v' : V)
      → get (id v) m ≡ some v
      → id v' ≡ id v
      → Move v v'
      → m' ≡ put (id v) v' m
      → Change id New Move m m'

module _ {V : Type 0} (id : V → String) (New : V → Type 0) (Move : V → V → Type 0) where
  pub Change-KeyedBy : {m m' : Table V} → Change id New Move m m' → KeyedBy id m → KeyedBy id m'
  Change-KeyedBy {m} (same e) h k v p = ground (arith, h k v)
  Change-KeyedBy {m} (added v f n e) h k x p = ground (arith, put-KeyedBy id (id v) v m refl h k x)
  Change-KeyedBy {m} (moved v v' g i mv e) h k x p =
      ground (arith, put-KeyedBy id (id v) v' m i h k x)

  -- What a row becomes.
  abbrev pub Later : V → V → Type 0
  Later v v' = (v' ≡ v) ⊎ Move v v'

  pub Change-get :
      {m m' : Table V} (k : String) (v : V)
      → Change id New Move m m'
      → get k m ≡ some v
      → (v' : V) × (get k m' ≡ some v') × Later v v'
  Change-get k v (same e) p = (v, ground arith, inl refl)
  Change-get {m} k v (added x f n e) p =
      (v, ground (arith, get-put (id x) k x m, eq_iff (id x) k), inl refl)
  Change-get {m} k v (moved x x' g i mv e) p = elim (Bool-cases (id x == k)) [
    | inl t ↦ (
      x',
      ground (arith, get-put (id x) k x' m),
      inr (subst (λ (y : V). Move y x') (ground (arith, eq_iff (id x) k)) mv),
    )
    | inr t ↦ (v, ground (arith, get-put (id x) k x' m), inl refl)
  ]
