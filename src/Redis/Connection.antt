-- ===== src/Redis/Connection.antt =====
-- `Open` of internal/infrastructure/redisstate/redis.go: how the client is opened. Parsing the URL and
-- the ping are the client's.
use smallworld_be.Prelude.{String, Option, none, some}
use smallworld_be.Domain.Errors.{Error, Result, ok, err, wrap}

abbrev pinged : Option Error → Result (Unit {0})
pinged none = ok tt
pinged (some e) = err (wrap "ping redis" e)

abbrev open_parsed : Option Error → Option Error → Result (Unit {0})
open_parsed (some e) ping = err (wrap "parse redis config" e)
open_parsed none ping = pinged ping

-- `parse_failure` and `ping_failure` say whether the URL is refused and the ping fails.
unfoldable pub open_client :
    (parse_failure ping_failure : String → Option Error) → String → Result (Unit {0})
open_client parse_failure ping_failure url = open_parsed (parse_failure url) (ping_failure url)
