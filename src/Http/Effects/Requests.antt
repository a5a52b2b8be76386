-- ===== src/Http/Effects/Requests.antt =====
-- What whole requests to internal/interfaces/http do, and what traffic of them amounts to.
use smallworld_be.Prelude.{
  String, ◌==◌, ◌≡◌, ◌≢◌, refl, sym, subst, ◌⊎◌, inl, inr, true, none, some, arith, eq_iff,
  Bool-cases, Option-cases,
}
use smallworld_be.Domain.Models.{User}
use smallworld_be.Domain.Errors.{ok, err, user_not_found, Result-cases}
use smallworld_be.World.{World}
use smallworld_be.Services.Accounts.{find_by_auth_subject}
use smallworld_be.Run.{Call, perform, Fresh, Run, begin}
use smallworld_be.Http.Messages.{Request, Response, write_error_message}
use smallworld_be.Http.Server.{Server}
use smallworld_be.Http.Auth.{RequestIdentity, bearer_token, authenticate}
use smallworld_be.Http.Routes.{routes, dispatch}
use smallworld_be.Http.Serve.{admitted, serve}
use smallworld_be.Http.Effects.{Effect, quiet, acted, acts_as}
use smallworld_be.Http.Effects.Table.{dispatch-Effect, dispatch-anonymous, dispatch-not_post}

-- A caller is known by a token that the verifier accepts; the user id is that of the user who is
-- stored for the token's subject, or "" where there is none.
pub record Known (s : Server) (r : Request) (w : World) (who : RequestIdentity) : Type 0 where
  pub token : String
  pub in_header : bearer_token r.authorization ≡ some token
  pub is_verified :
      s.verify_token token ≡ ok (record { subject = who.subject; provider = who.provider })
  pub user :
      ((u : User) × ((find_by_auth_subject who.subject w).0 ≡ ok u) × (who.user_id ≡ u.id))
      ⊎ (((find_by_auth_subject who.subject w).0 ≡ err user_not_found) × (who.user_id ≡ ""))

find_by_auth_subject-cases :
    (subject : String) (w : World)
    → ((u : User) × ((find_by_auth_subject subject w).0 ≡ ok u))
      ⊎ ((find_by_auth_subject subject w).0 ≡ err user_not_found)
unfolding find_by_auth_subject
find_by_auth_subject-cases subject w = elim (Result-cases (find_by_auth_subject subject w).0) [
  | inl (u, e) ↦ inl (u, e)
  | inr (x, e) ↦ inr (ground arith)
]

authenticate-Known :
    (s : Server) (r : Request) (w : World) (who : RequestIdentity)
    → authenticate s r w ≡ inr who
    → Known s r w who
unfolding authenticate
authenticate-Known s r w who h = elim (Option-cases (bearer_token r.authorization)) [
  | inl e ↦ absurd (ground arith)
  | inr (token, ht) ↦ elim (Result-cases (s.verify_token token)) [
    | inr (e, he) ↦ absurd (ground arith)
    | inl (auth, ha) ↦ elim (find_by_auth_subject-cases auth.subject w) [
      | inl (u, hu) ↦ record {
        token = token;
        in_header = ht;
        is_verified = ground arith;
        user = inl (u, ground arith, ground arith);
      }
      | inr n ↦ record {
        token = token;
        in_header = ht;
        is_verified = ground arith;
        user = inr (ground arith, ground arith);
      }
    ]
  ]
]

authenticate-refused :
    (s : Server) (r : Request) (w : World) (a : Response)
    → authenticate s r w ≡ inl a
    → a.status ≡ 401
unfolding authenticate find_by_auth_subject write_error_message
authenticate-refused s r w a h = ground arith

-- A request that a known caller has made a call with.
pub record ActedBy (s : Server) (r : Request) (w w' : World) : Type 0 where
  pub who : RequestIdentity
  pub known : Known s r w who
  pub call : Call
  pub own : acts_as s who call ≡ true
  pub result : w' ≡ perform call w

Effect-ActedBy :
    (s : Server) (r : Request) (w : World) (who : RequestIdentity) (x : Response × World)
    → Known s r w who
    → Effect s who w x
    → (x.1 ≡ w) ⊎ ActedBy s r w x.1
Effect-ActedBy s r w who x k (quiet e) = inl e
Effect-ActedBy s r w who x k (acted c o e) =
    inr (record { who = who; known = k; call = c; own = o; result = e })

admitted-ActedBy :
    (s : Server) (r : Request) (w : World) (x : Response ⊎ RequestIdentity)
    → authenticate s r w ≡ x
    → ((admitted s r w x).world ≡ w) ⊎ ActedBy s r w (admitted s r w x).world
admitted-ActedBy s r w (inl a) e = inl refl
admitted-ActedBy s r w (inr who) e =
    Effect-ActedBy s r w who (dispatch (routes s) s (some who) r w) (authenticate-Known s r w who e)
      (dispatch-Effect s who r w)

-- Whatever is sent to the server, the stored data either stay as they are, or change as by exactly
-- one call of a service: one that the bearer of a verified token may make, under the user id or
-- the subject that belongs to the token, and never a round of a background loop.
pub serve-ActedBy :
    (s : Server) (r : Request) (w : World)
    → ((serve s r w).world ≡ w) ⊎ ActedBy s r w (serve s r w).world
unfolding serve
serve-ActedBy s r w = elim (Bool-cases (r.path == "/healthz")) [
  | inl e ↦ inl (rw e (dispatch-anonymous s r w))
  | inr e ↦ rw e (admitted-ActedBy s r w (authenticate s r w) refl)
]

admitted-refused :
    (s : Server) (r : Request) (w : World) (x : Response ⊎ RequestIdentity)
    → authenticate s r w ≡ x
    → (((admitted s r w x).response.status ≡ 401) × ((admitted s r w x).world ≡ w))
      ⊎ ((who : RequestIdentity) × Known s r w who)
admitted-refused s r w (inl a) e = inl (authenticate-refused s r w a e, refl)
admitted-refused s r w (inr who) e = inr (who, authenticate-Known s r w who e)

-- A request for anything but /healthz is answered with status 401, and changes nothing, unless its
-- header holds a token that the verifier accepts.
pub serve-refused :
    (s : Server) (r : Request) (w : World)
    → r.path ≢ "/healthz"
    → (((serve s r w).response.status ≡ 401) × ((serve s r w).world ≡ w))
      ⊎ ((who : RequestIdentity) × Known s r w who)
unfolding serve
serve-refused s r w n = elim (Bool-cases (r.path == "/healthz")) [
  | inl e ↦ absurd (n ((eq_iff r.path "/healthz").0 e))
  | inr e ↦ rw e (admitted-refused s r w (authenticate s r w) refl)
]

admitted-not_post :
    (s : Server) (r : Request) (w : World) (x : Response ⊎ RequestIdentity)
    → r.method ≢ "POST"
    → (admitted s r w x).world ≡ w
admitted-not_post s r w (inl a) n = refl
admitted-not_post s r w (inr who) n = dispatch-not_post s (some who) r w n

-- A request whose method is not POST changes nothing.
pub serve-not_post :
    (s : Server) (r : Request) (w : World) → r.method ≢ "POST" → (serve s r w).world ≡ w
unfolding serve
serve-not_post s r w n = elim (Bool-cases (r.path == "/healthz")) [
  | inl e ↦ rw e (dispatch-not_post s none r w n)
  | inr e ↦ rw e (admitted-not_post s r w (authenticate s r w) n)
]

-- Any requests, one after the other, each made where the generator's next ids are unused.
pub data Traffic (s : Server) (w : World) : World → Type 0 where
  idle : Traffic s w w
  request : {u : World} → Traffic s w u → (r : Request) → Fresh u → Traffic s w (serve s r u).world

-- Any traffic of requests is a run of calls of the services.
Traffic-Run : {s : Server} {w w' : World} → Traffic s w w' → Run w w'
Traffic-Run idle = begin
Traffic-Run {s} {w} (request {u} t r f) = elim (serve-ActedBy s r u) [
  | inl e ↦ subst (λ x. Run w x) (sym e) (Traffic-Run t)
  | inr a ↦ subst (λ x. Run w x) (sym a.result) (Run.call (Traffic-Run t) a.call f)
]
