-- ===== src/Http/Serve.antt =====
-- A whole request: the middlewares of internal/interfaces/http around the table of endpoints.
use smallworld_be.Prelude.{◌==◌, Option, none, some, ◌⊎◌, inl, inr, if◌then◌else◌}
use smallworld_be.World.{World}
use smallworld_be.Http.Messages.{Request, Response, answer}
use smallworld_be.Http.Server.{Server, with_body, or_refuse}
use smallworld_be.Http.Auth.{RequestIdentity, authenticate}
use smallworld_be.Http.Routes.{routes, dispatch}
use smallworld_be.Http.Logging.{LogEntry, request_entry, log_auth_failure}

pub record Served : Type 0 where
  pub response : Response
  pub entry : LogEntry
  pub world : World

abbrev logged : Option RequestIdentity → Request → Response × World → Served
logged who r (a, w) = record { response = a; entry = request_entry who r a; world = w }

abbrev pub admitted : Server → Request → World → Response ⊎ RequestIdentity → Served
admitted s r w (inl a) = record { response = a; entry = log_auth_failure r a; world = w }
admitted s r w (inr who) = logged (some who) r (dispatch (routes s) s (some who) r w)

-- s.authMiddleware(s.loggingMiddleware(mux))
unfoldable pub serve : Server → Request → World → Served
unfolding or_refuse with_body answer authenticate dispatch routes request_entry log_auth_failure
serve s r w =
    let open_to_all = logged none r (dispatch (routes s) s none r w) in
    let closed = admitted s r w (authenticate s r w) in
    if r.path == "/healthz" then open_to_all else closed
