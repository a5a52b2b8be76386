-- ===== src/Realtime/Clients.antt =====
-- How internal/infrastructure/realtime/hub.go keeps the clients of a user, whatever happens to it:
-- under that user, and once.
use smallworld_be.Prelude.{
  ℕ, String, ◌==◌, ◌≡◌, refl, sym, subst, Bool, true, not, none, some, List, [], ◌∷◌, arith, eq_iff,
  inl, inr, if◌then◌else◌, eqb, Bool-cases, Option-cases,
}
use smallworld_be.Prelude.Lists.{All, All-select, select, select-All}
use smallworld_be.Prelude.Table.{get, get-put, get-delete}
use smallworld_be.World.{Payload}
use smallworld_be.Realtime.{
  Client, Hub, clients_of, without, store_clients, Event, register, unregister, send_all,
  publish_to_user,
}

clients_of-store :
    (user j : String) (cs : List Client) (h : Hub)
    → clients_of j (store_clients user cs h) ≡ (if user == j then cs else clients_of j h)
unfolding clients_of
clients_of-store user j [] h = ground (arith, get-delete user j h)
clients_of-store user j (c ∷ cs) h = ground (arith, get-put user j (c ∷ cs) h)

unregistered_none :
    (c : Client) (j : String) (h : Hub)
    → get c.user_id h ≡ none
    → clients_of j h ≡ (if c.user_id == j then without c (clients_of j h) else clients_of j h)
unfolding clients_of
unregistered_none c j h e = elim (Bool-cases (c.user_id == j)) [
  | inl b ↦ rw (b, subst (λ k. get k h ≡ none) ((eq_iff c.user_id j).0 b) e) refl
  | inr b ↦ rw b refl
]

unregistered_some :
    (c : Client) (j : String) (cs : List Client) (h : Hub)
    → get c.user_id h ≡ some cs
    → (if c.user_id == j then without c cs else clients_of j h)
      ≡ (if c.user_id == j then without c (clients_of j h) else clients_of j h)
unfolding clients_of
unregistered_some c j cs h e = elim (Bool-cases (c.user_id == j)) [
  | inl b ↦ rw (b, subst (λ k. get k h ≡ some cs) ((eq_iff c.user_id j).0 b) e) refl
  | inr b ↦ rw b refl
]

pub clients_of-unregister :
    (c : Client) (j : String) (h : Hub)
    → clients_of j (unregister c h)
      ≡ (if c.user_id == j then without c (clients_of j h) else clients_of j h)
unfolding unregister
clients_of-unregister c j h = elim (Option-cases (get c.user_id h)) [
  | inl e ↦ rw e (unregistered_none c j h e)
  | inr (cs, e) ↦
      rw (e, clients_of-store c.user_id j (without c cs) h) (unregistered_some c j cs h e)
]

-- The clients of every user are kept under that user.
abbrev pub IsTidy : Hub → Type 0
IsTidy h = (user : String) → All (λ c. c.user_id ≡ user) (clients_of user h)

register-IsTidy : (c : Client) (h : Hub) → IsTidy h → IsTidy (register c h)
unfolding register clients_of
register-IsTidy c h t j = elim (Bool-cases (c.user_id == j)) [
  | inl e ↦
      rw (get-put c.user_id j (c ∷ without c (clients_of c.user_id h)) h, e)
        (
          (eq_iff c.user_id j).0 e,
          select-All (λ d. d.user_id ≡ j) (λ d. not (eqb d.id c.id)) (clients_of c.user_id h)
              (subst (λ k. All (λ d. d.user_id ≡ j) (clients_of k h))
                (sym ((eq_iff c.user_id j).0 e)) (t j)),
        )
  | inr e ↦ rw (get-put c.user_id j (c ∷ without c (clients_of c.user_id h)) h, e) (t j)
]

unregister-IsTidy : (c : Client) (h : Hub) → IsTidy h → IsTidy (unregister c h)
unregister-IsTidy c h t j = elim (Bool-cases (c.user_id == j)) [
  | inl e ↦ rw (clients_of-unregister c j h, e) (select-All _ _ (clients_of j h) (t j))
  | inr e ↦ rw (clients_of-unregister c j h, e) (t j)
]

send_all-IsTidy :
    (fails : ℕ → Bool) (event : Event) (cs : List Client) (h : Hub)
    → IsTidy h
    → IsTidy (send_all fails event cs h).hub
unfolding send_all
send_all-IsTidy fails event [] h t = t
send_all-IsTidy fails event (c ∷ cs) h t = elim (Bool-cases (fails c.id)) [
  | inl e ↦ rw e (send_all-IsTidy fails event cs (unregister c h) (unregister-IsTidy c h t))
  | inr e ↦ rw e (send_all-IsTidy fails event cs h t)
]

-- No client is in the list twice.
abbrev pub Once : List Client → Type 0
Once [] = Unit
Once (c ∷ cs) = All (λ d. not (eqb d.id c.id) ≡ true) cs × Once cs

select-Once : (keep : Client → Bool) (cs : List Client) → Once cs → Once (select keep cs)
select-Once keep [] o = tt
select-Once keep (c ∷ cs) o = elim (Bool-cases (keep c)) [
  | inl e ↦ rw e (select-All _ keep cs o.0, select-Once keep cs o.1)
  | inr e ↦ rw e (select-Once keep cs o.1)
]

-- Every user's clients are kept once.
abbrev pub EachOnce : Hub → Type 0
EachOnce h = (user : String) → Once (clients_of user h)

register-EachOnce : (c : Client) (h : Hub) → EachOnce h → EachOnce (register c h)
unfolding register clients_of
register-EachOnce c h t j = elim (Bool-cases (c.user_id == j)) [
  | inl e ↦
      rw (get-put c.user_id j (c ∷ without c (clients_of c.user_id h)) h, e)
        (
          All-select (λ d. not (eqb d.id c.id)) (clients_of c.user_id h),
          select-Once _ (clients_of c.user_id h) (t c.user_id),
        )
  | inr e ↦ rw (get-put c.user_id j (c ∷ without c (clients_of c.user_id h)) h, e) (t j)
]

unregister-EachOnce : (c : Client) (h : Hub) → EachOnce h → EachOnce (unregister c h)
unregister-EachOnce c h t j = elim (Bool-cases (c.user_id == j)) [
  | inl e ↦ rw (clients_of-unregister c j h, e) (select-Once _ (clients_of j h) (t j))
  | inr e ↦ rw (clients_of-unregister c j h, e) (t j)
]

send_all-EachOnce :
    (fails : ℕ → Bool) (event : Event) (cs : List Client) (h : Hub)
    → EachOnce h
    → EachOnce (send_all fails event cs h).hub
unfolding send_all
send_all-EachOnce fails event [] h t = t
send_all-EachOnce fails event (c ∷ cs) h t = elim (Bool-cases (fails c.id)) [
  | inl e ↦ rw e (send_all-EachOnce fails event cs (unregister c h) (unregister-EachOnce c h t))
  | inr e ↦ rw e (send_all-EachOnce fails event cs h t)
]

-- The hubs that connections and publications lead to.
pub data Life : Hub → Type 0 where
  opened : Life []
  joined : {h : Hub} → Life h → (c : Client) → Life (register c h)
  left : {h : Hub} → Life h → (c : Client) → Life (unregister c h)
  told :
      {h : Hub}
      → Life h
      → (fails : ℕ → Bool) (user type : String) (payload : Payload)
      → Life (publish_to_user fails user type payload h).hub

pub Life-IsTidy : {h : Hub} → Life h → IsTidy h
unfolding publish_to_user clients_of get
Life-IsTidy opened = λ user. tt
Life-IsTidy (joined {h} l c) = register-IsTidy c h (Life-IsTidy l)
Life-IsTidy (left {h} l c) = unregister-IsTidy c h (Life-IsTidy l)
Life-IsTidy (told {h} l fails user type payload) =
    send_all-IsTidy fails (record { type = type; payload = payload }) (clients_of user h) h
      (Life-IsTidy l)

pub Life-EachOnce : {h : Hub} → Life h → EachOnce h
unfolding publish_to_user clients_of get
Life-EachOnce opened = λ user. tt
Life-EachOnce (joined {h} l c) = register-EachOnce c h (Life-EachOnce l)
Life-EachOnce (left {h} l c) = unregister-EachOnce c h (Life-EachOnce l)
Life-EachOnce (told {h} l fails user type payload) =
    send_all-EachOnce fails (record { type = type; payload = payload }) (clients_of user h) h
      (Life-EachOnce l)
