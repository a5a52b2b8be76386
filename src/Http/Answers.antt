-- ===== src/Http/Answers.antt =====
-- What clients of internal/interfaces/http may conclude from an answer.
use smallworld_be.Prelude.{◌≡◌, inl, inr, true, some, arith, Option-cases}
use smallworld_be.Prelude.Table.{get}
use smallworld_be.Domain.Models.{User, IdentityVerification}
use smallworld_be.Domain.Errors.{ok, Result-cases}
use smallworld_be.Domain.Policies.{rider_eligible}
use smallworld_be.World.{World}
use smallworld_be.Services.Accounts.{find_by_auth_subject, find_verification_by_user}
use smallworld_be.Http.Messages.{
  Request, OnboardingState, AuthBootstrapResponse, Body, write_json, write_service_error,
}
use smallworld_be.Http.Server.{Server, or_refuse}
use smallworld_be.Http.Auth.{RequestIdentity, require_identity}
use smallworld_be.Http.Reads.{auth_me, onboarding_of}

-- A caller who is told that the onboarding is done has a stored user, of the subject of the token,
-- with a verification that lets this user ride.
pub auth_me-ready :
    (s : Server) (who : RequestIdentity) (r : Request) (w : World) (a : AuthBootstrapResponse)
    → (auth_me s (some who) r w).0.body ≡ Body.auth_me a
    → a.onboarding_state ≡ OnboardingState.ready
    → (u : User) × (v : IdentityVerification) × ((find_by_auth_subject who.subject w).0 ≡ ok u)
      × (get u.id w.verifications ≡ some v)
      × (rider_eligible v ≡ true)
unfolding auth_me or_refuse require_identity onboarding_of rider_eligible write_json
    write_service_error find_verification_by_user
auth_me-ready s who r w a h e = elim (Result-cases (find_by_auth_subject who.subject w).0) [
  | inr (x, hx) ↦ absurd (ground arith)
  | inl (u, hu) ↦ elim (Option-cases (get u.id w.verifications)) [
    | inl hn ↦ absurd (ground arith)
    | inr (v, hv) ↦ (u, v, hu, hv, ground arith)
  ]
]
