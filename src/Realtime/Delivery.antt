-- ===== src/Realtime/Delivery.antt =====
-- Who gets an event of internal/infrastructure/realtime/hub.go, and who is left after it.
use text.Mathlib.TextPositions.{eq_refl}
use mathlib.Core.List.Perm
use mathlib.Core.List.{Perm}
use smallworld_be.Prelude.{
  ℕ, String, ◌==◌, ◌≡◌, ◌≢◌, refl, sym, ap, ◌∙◌, Bool, true, false, not, ◌&&◌, ◌||◌, List, [], ◌∷◌,
  map, arith, eq_iff, inl, inr, eqb, Bool-cases,
}
use smallworld_be.Prelude.Lists.{
  All, Among, select, select-select, select-same, select-same_All, Among-All,
}
use smallworld_be.World.{Payload}
use smallworld_be.Realtime.{Client, Hub, clients_of, Event, unregister, send_all, publish_to_user}
use smallworld_be.Realtime.Clients.{clients_of-unregister, Once, Life, Life-IsTidy, Life-EachOnce}

-- Whether a client is one of those whose connection is broken.
abbrev is_dropped : (ℕ → Bool) → List Client → Client → Bool
is_dropped fails [] d = false
is_dropped fails (c ∷ cs) d = (eqb d.id c.id && fails c.id) || is_dropped fails cs d

select_all : {A : Type 0} (xs : List A) → select (λ x. not false) xs ≡ xs
select_all [] = refl
select_all (x ∷ xs) = ap (λ r. x ∷ r) (select_all xs)

module _ (fails : ℕ → Bool) (event : Event) (user : String) where
  -- What the loop over clients of a user leaves to that user, and to another.
  send_all-user :
      (cs : List Client) (h : Hub)
      → All (λ c. c.user_id ≡ user) cs
      → clients_of user (send_all fails event cs h).hub
        ≡ select (λ d. not (is_dropped fails cs d)) (clients_of user h)
  unfolding send_all
  send_all-user [] h a = sym (select_all (clients_of user h))
  send_all-user (c ∷ cs) h a = elim (Bool-cases (fails c.id)) [
    | inl e ↦
        rw
          (
            e,
            send_all-user cs (unregister c h) a.1,
            clients_of-unregister c user h,
            a.0,
            eq_refl user,
            select-select (λ d. not (is_dropped fails cs d)) (λ d. not (eqb d.id c.id))
                (clients_of user h),
          )
          (select-same _ _ (clients_of user h) (λ d. ground arith))
    | inr e ↦
        rw (e, send_all-user cs h a.1)
          (select-same _ _ (clients_of user h) (λ d. ground (arith, e)))
  ]

  send_all-other :
      (j : String) (cs : List Client) (h : Hub)
      → (user == j) ≡ false
      → All (λ c. c.user_id ≡ user) cs
      → clients_of j (send_all fails event cs h).hub ≡ clients_of j h
  unfolding send_all
  send_all-other j [] h n a = refl
  send_all-other j (c ∷ cs) h n a = elim (Bool-cases (fails c.id)) [
    | inl e ↦
        rw (e, send_all-other j cs (unregister c h) n a.1, clients_of-unregister c j h, a.0, n) refl
    | inr e ↦ rw (e, send_all-other j cs h n a.1) refl
  ]

  send_all-sent :
      (cs : List Client) (h : Hub) → (send_all fails event cs h).sent ≡ map (λ c. (c.id, event)) cs
  unfolding send_all
  send_all-sent [] h = refl
  send_all-sent (c ∷ cs) h = elim (Bool-cases (fails c.id)) [
    | inl e ↦ rw (e, send_all-sent cs (unregister c h)) refl
    | inr e ↦ rw (e, send_all-sent cs h) refl
  ]

is_dropped-fails :
    (fails : ℕ → Bool) (cs : List Client) (d : Client)
    → is_dropped fails cs d ≡ true
    → fails d.id ≡ true
is_dropped-fails fails [] d h = absurd (ground arith)
is_dropped-fails fails (c ∷ cs) d h = elim (Bool-cases (is_dropped fails cs d)) [
  | inl e ↦ is_dropped-fails fails cs d e
  | inr e ↦ ground arith
]

-- Of the clients that the loop is over, those with a broken connection are dropped.
Among-is_dropped :
    (fails : ℕ → Bool) (cs : List Client) (d : Client)
    → Among d cs
    → is_dropped fails cs d ≡ fails d.id
Among-is_dropped fails [] d m = absurd m
Among-is_dropped fails (c ∷ cs) d m = elim (Bool-cases (is_dropped fails cs d)) [
  | inl e ↦ ground (arith, is_dropped-fails fails cs d e)
  | inr e ↦ elim m [
    | inl q ↦ ground (arith, ap (λ (x : Client). x.id) q)
    | inr q ↦ ground (arith, Among-is_dropped fails cs d q)
  ]
]

-- In every hub that connections and publications lead to, no client of a user is kept twice, and a
-- publication tries each client of the user once, in whatever order, and no other client;
-- afterwards the user's clients are those whose connection works, and every other user has the
-- clients it had.
pub publish_to_user-sent :
    (fails : ℕ → Bool) (user j type : String) (payload : Payload) (h : Hub)
    → Life h
    → user ≢ j
    → Once (clients_of user h)
      × Perm
          (publish_to_user fails user type payload h).sent
          (map (λ c. (c.id, record { type = type; payload = payload })) (clients_of user h))
      × (clients_of user (publish_to_user fails user type payload h).hub
          ≡ select (λ d. not (fails d.id)) (clients_of user h))
      × (clients_of j (publish_to_user fails user type payload h).hub ≡ clients_of j h)
unfolding publish_to_user
publish_to_user-sent fails user j type payload h l n =
    let event : Event = record { type = type; payload = payload } in
    let cs = clients_of user h in
    let tidy = Life-IsTidy l user in
    (
      Life-EachOnce l user,
      rw (send_all-sent fails event user cs h) (Perm.refl _),
      send_all-user fails event user cs h tidy
          ∙ select-same_All _ _ cs (Among-All _ cs (λ d m. ap not (Among-is_dropped fails cs d m))),
      send_all-other fails event user j cs h (ground (arith, eq_iff user j)) tidy,
    )
