-- ===== src/Postgres/Joins.antt =====
-- The join of the offers with their sessions, in `ListPendingByDriverID` of
-- internal/infrastructure/postgres/repositories.go, against the loop of the memory store.
use smallworld_be.Prelude.{
  String, ◌≡◌, sym, ap, subst, ◌∙◌, true, List, [], ◌∷◌, arith, eq_iff, inl, inr, Bool-cases,
  Option-cases,
}
use smallworld_be.Prelude.Lists.{Among}
use smallworld_be.Prelude.Table.{Table, get, values, values-Among}
use smallworld_be.Domain.Models.{DriverSession, RideOffer}
use smallworld_be.Ledger.Keys.{KeyedBy}
use smallworld_be.Ledger.Distinct.{IsDistinct, Listed, values-Listed}
use smallworld_be.Memory.{driven_by}
use smallworld_be.Postgres.Offers.{joins}

abbrev id_of : DriverSession → String
id_of s = s.id

Among-driven_by :
    (driver : String) (d : DriverSession) (ss : List DriverSession)
    → Among d ss
    → d.driver_id ≡ driver
    → driven_by driver ss d.id ≡ true
unfolding driven_by
Among-driven_by driver d [] m e = absurd m
Among-driven_by driver d (s ∷ ss) (inl q) e = ground (
  arith,
  ap (λ (x : DriverSession). x.id) q,
  ap (λ (x : DriverSession). x.driver_id) q,
  eq_iff s.driver_id driver,
  eq_iff s.id d.id,
)
Among-driven_by driver d (s ∷ ss) (inr q) e = ground (arith, Among-driven_by driver d ss q e)

driven_by-joins :
    (driver : String) (o : RideOffer) (m : Table DriverSession) (ss : List DriverSession)
    → Listed id_of m ss
    → driven_by driver ss o.driver_session_id ≡ true
    → joins driver m o ≡ true
unfolding driven_by joins
driven_by-joins driver o m [] l h = absurd (ground arith)
driven_by-joins driver o m (s ∷ ss) l h =
    elim (Bool-cases (driven_by driver ss o.driver_session_id)) [
      | inl e ↦ driven_by-joins driver o m ss l.2 e
      | inr e ↦ ground (
        arith,
        eq_iff s.id o.driver_session_id,
        ap (λ k. get k m) ((eq_iff s.id o.driver_session_id).0 (ground arith)),
        l.0,
      )
    ]

joins-driven_by :
    (driver : String) (o : RideOffer) (m : Table DriverSession)
    → KeyedBy id_of m
    → joins driver m o ≡ true
    → driven_by driver (values m) o.driver_session_id ≡ true
unfolding joins
joins-driven_by driver o m k h = elim (Option-cases (get o.driver_session_id m)) [
  | inl e ↦ absurd (ground arith)
  | inr (d, e) ↦
      subst (λ id. driven_by driver (values m) id ≡ true) (k o.driver_session_id d e)
        (Among-driven_by driver d (values m) (values-Among o.driver_session_id d m e)
          (ground (arith, eq_iff d.driver_id driver)))
]

-- Where sessions are stored under their ids, and no id twice, the join finds the offers that the
-- loop finds.
pub joins-same :
    (driver : String) (o : RideOffer) (m : Table DriverSession)
    → KeyedBy id_of m
    → IsDistinct m
    → joins driver m o ≡ driven_by driver (values m) o.driver_session_id
joins-same driver o m k d = elim (Bool-cases (joins driver m o)) [
  | inl e ↦ e ∙ sym (joins-driven_by driver o m k e)
  | inr e ↦ elim (Bool-cases (driven_by driver (values m) o.driver_session_id)) [
    | inl f ↦ driven_by-joins driver o m (values m) (values-Listed id_of m d k) f ∙ sym f
    | inr f ↦ e ∙ sym f
  ]
]
