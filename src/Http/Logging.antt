-- ===== src/Http/Logging.antt =====
-- internal/interfaces/http/logging.go: the line that is logged at the end of a request. The times
-- and the number of bytes in it are left out.
use smallworld_be.Prelude.{ℕ, String, ◌==◌, ◌&&◌, not, leb, Option, none, some, if◌then◌else◌}
use smallworld_be.Http.Messages.{Request, Response}
use smallworld_be.Http.Auth.{RequestIdentity}

pub data LogLevel : Type 0 where
  info warning failure : LogLevel

-- A field that is not logged is "".
pub record LogEntry : Type 0 where
  pub level : LogLevel
  pub method : String
  pub path : String
  pub status : ℕ
  pub user_id : String
  pub text : String
  pub cause : String

unfoldable pub level_of : ℕ → LogLevel
level_of status =
    if leb 500 status
    then LogLevel.failure
    else if leb 400 status
    then LogLevel.warning
    else LogLevel.info

abbrev user_of : Option RequestIdentity → String
user_of none = ""
user_of (some who) = who.user_id

-- The end of `loggingMiddleware`.
unfoldable pub request_entry : Option RequestIdentity → Request → Response → LogEntry
unfolding level_of
request_entry who r a = record {
  level = level_of a.status;
  method = r.method;
  path = r.path;
  status = a.status;
  user_id = user_of who;
  text = a.error_message;
  cause =
      if leb 400 a.status && not (a.internal_error == a.error_message)
      then a.internal_error
      else "";
}

unfoldable pub log_auth_failure : Request → Response → LogEntry
unfolding level_of
log_auth_failure r a = record {
  level = level_of a.status;
  method = r.method;
  path = r.path;
  status = a.status;
  user_id = "";
  text = a.error_message;
  cause = "";
}
