-- ===== src/Http/Effects.antt =====
-- What a request does to the stored data: nothing, or one call of a service on behalf of the user
-- whose token the request carries.
pub mod Reads
pub mod Actions
pub mod Guards
pub mod Table
pub mod Requests
use smallworld_be.Prelude.{
  ℕ, String, ◌==◌, ◌≡◌, refl, sym, subst, if◌then◌else◌, ◌∙◌, ◌⊎◌, inl, inr, Bool, true, false,
  ◌&&◌, not, Bool-cases, some, arith, eq_iff,
}
use text.Mathlib.TextPositions.{eq_refl}
use smallworld_be.Domain.Errors.{Result, ok, err}
use smallworld_be.World.{World}
use smallworld_be.Run.{
  Call, perform, upsert_profile, new_vehicle, dev_bootstrap, start_session, beat, move_session,
  create_demand, cancel_demand, accept_offer, decline_offer, move_booking, review, sweep, reconcile,
}
use smallworld_be.Http.Messages.{Request, Response, Body, answer}
use smallworld_be.Http.Server.{Server, with_body, or_refuse}
use smallworld_be.Http.Auth.{RequestIdentity, current_user_id, require_identity}

-- A user's call is made under the user's own id, and only by a caller who has a user.
abbrev pub by_user : RequestIdentity → String → Bool
by_user who actor = actor == who.user_id && not (actor == "")

-- Who may make a call; the rounds of the background loops are nobody's.
unfoldable pub acts_as : Server → RequestIdentity → Call → Bool
acts_as s who (upsert_profile subject i) = subject == who.subject
acts_as s who (new_vehicle i) = by_user who i.user_id
acts_as s who (dev_bootstrap i) = s.enable_dev_bootstrap && i.auth_subject == who.subject
acts_as s who (start_session i) = by_user who i.user_id
acts_as s who (beat actor i) = by_user who actor
acts_as s who (move_session actor i) = by_user who actor
acts_as s who (create_demand i) = by_user who i.rider_id
acts_as s who (cancel_demand rider id) = by_user who rider
acts_as s who (accept_offer actor id) = by_user who actor
acts_as s who (decline_offer actor id) = by_user who actor
acts_as s who (move_booking actor id to) = by_user who actor
acts_as s who (review booking author rating comment) = by_user who author
acts_as s who (sweep c) = false
acts_as s who (reconcile d) = false

-- How a handler leaves the world: as it was, or after one call that the caller may make.
pub data Effect (s : Server) (who : RequestIdentity) (w : World) (x : Response × World)
    : Type 0 where
  quiet : x.1 ≡ w → Effect s who w x
  acted : (c : Call) → acts_as s who c ≡ true → x.1 ≡ perform c w → Effect s who w x

module _ {A : Type 0} where
  pub answer-world :
      (status : ℕ) (body : A → Body) (default : ℕ) (m : Result A × World)
      → (answer status body default m).1 ≡ m.1
  unfolding answer
  answer-world status body default (ok a, w) = refl
  answer-world status body default (err e, w) = refl

  -- The end of a handler that makes a call.
  pub answer-Effect :
      (s : Server) (who : RequestIdentity) (c : Call) (w : World) (status : ℕ) (body : A → Body)
      (default : ℕ) (m : Result A × World)
      → acts_as s who c ≡ true
      → m.1 ≡ perform c w
      → Effect s who w (answer status body default m)
  answer-Effect s who c w status body default m o e =
      acted c o (answer-world status body default m ∙ e)

pub current_user_id-own :
    (who : RequestIdentity) (id : String)
    → current_user_id (some who) ≡ ok id
    → by_user who id ≡ true
unfolding current_user_id
current_user_id-own who id h = elim (Bool-cases (who.user_id == "")) [
  | inl e ↦ absurd (ground arith)
  | inr e ↦ ground (arith, eq_refl id, eq_iff id who.user_id)
]

pub require_identity-own :
    (who me : RequestIdentity) → require_identity (some who) ≡ ok me → me ≡ who
unfolding require_identity
require_identity-own who me h = ground arith

module _ (s : Server) (who : RequestIdentity) (w : World) where
  for_result-Effect :
      {A : Type 0} (default : ℕ) (x : Result A) (k : A → World → Response × World)
      → ((a : A) → x ≡ ok a → Effect s who w (k a w))
      → Effect s who w (or_refuse default x k w)
  unfolding or_refuse
  for_result-Effect default (ok a) k q = q a refl
  for_result-Effect default (err e) k q = quiet refl

  pub for_user-Effect :
      (default : ℕ) (k : String → World → Response × World)
      → ((id : String) → by_user who id ≡ true → Effect s who w (k id w))
      → Effect s who w (or_refuse default (current_user_id (some who)) k w)
  for_user-Effect default k q =
      for_result-Effect default (current_user_id (some who)) k
        (λ id e. q id (current_user_id-own who id e))

  pub for_caller-Effect :
      (default : ℕ) (k : RequestIdentity → World → Response × World)
      → Effect s who w (k who w)
      → Effect s who w (or_refuse default (require_identity (some who)) k w)
  for_caller-Effect default k q =
      for_result-Effect default (require_identity (some who)) k
        (λ me e. subst (λ me. Effect s who w (k me w)) (sym (require_identity-own who me e)) q)

  pub for_body-Effect :
      {A : Type 0} (x : Response ⊎ A) (k : A → World → Response × World)
      → ((a : A) → Effect s who w (k a w))
      → Effect s who w (with_body x k w)
  unfolding with_body
  for_body-Effect (inl refused) k q = quiet refl
  for_body-Effect (inr a) k q = q a

  pub when-Effect :
      (b : Bool) (x y : Response × World)
      → Effect s who w x
      → Effect s who w y
      → Effect s who w (if b then x else y)
  when-Effect true x y p q = p
  when-Effect false x y p q = q
