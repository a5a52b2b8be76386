-- ===== src/Http/Auth.antt =====
-- internal/interfaces/http/auth.go: who makes a request.
use smallworld_be.Prelude.{String, ◌==◌, Option, none, some, ◌⊎◌, inl, inr, if◌then◌else◌}
use smallworld_be.Domain.Models.{User}
use smallworld_be.Domain.Errors.{Result, ok, err, unauthorized, user_not_found}
use smallworld_be.World.{World}
use smallworld_be.Services.Accounts.{find_by_auth_subject}
use smallworld_be.Text.{strip, trim_space}
use smallworld_be.Http.Messages.{
  AuthIdentity, Request, Response, write_error_message, write_service_error,
}
use smallworld_be.Http.Server.{Server}

-- A request of a caller without a user has the user id "".
pub record RequestIdentity : Type 0 where
  pub subject : String
  pub provider : String
  pub user_id : String

unfoldable pub bearer_token : String → Option String
unfolding strip trim_space
bearer_token header = elim (strip header "Bearer ") [
  | none ↦ none
  | some rest ↦ let token = trim_space rest in if token == "" then none else some token
]

-- The identity of a verified token, by the lookup of its user.
abbrev with_user : AuthIdentity → Result User → Response ⊎ RequestIdentity
with_user auth (ok user) =
    inr (record { subject = auth.subject; provider = auth.provider; user_id = user.id })
with_user auth (err user_not_found) =
    inr (record { subject = auth.subject; provider = auth.provider; user_id = "" })
with_user auth (err e) = inl (write_service_error e 500)

abbrev verified : Result AuthIdentity → World → Response ⊎ RequestIdentity
verified (err e) w = inl (write_error_message 401 "invalid bearer token")
verified (ok auth) w = with_user auth (find_by_auth_subject auth.subject w).0

abbrev with_token : Server → Option String → World → Response ⊎ RequestIdentity
with_token s none w = inl (write_error_message 401 "missing bearer token")
with_token s (some token) w = verified (s.verify_token token) w

-- The part of the middleware after the test for /healthz: an answer that ends the request, or the
-- identity that it goes on with.
unfoldable pub authenticate : Server → Request → World → Response ⊎ RequestIdentity
unfolding bearer_token write_error_message write_service_error find_by_auth_subject
authenticate s r w = with_token s (bearer_token r.authorization) w

-- What a handler finds in the context of a request: only /healthz comes without an identity.
unfoldable pub require_identity : Option RequestIdentity → Result RequestIdentity
require_identity none = err unauthorized
require_identity (some who) = ok who

abbrev with_user_id : Result RequestIdentity → Result String
with_user_id (err e) = err e
with_user_id (ok who) = if who.user_id == "" then err user_not_found else ok who.user_id

unfoldable pub current_user_id : Option RequestIdentity → Result String
unfolding require_identity
current_user_id who = with_user_id (require_identity who)
