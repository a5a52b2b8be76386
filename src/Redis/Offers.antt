-- ===== src/Redis/Offers.antt =====
-- `EphemeralOfferStore` of internal/infrastructure/redisstate/redis.go.
use Prim.Native.String.{◌++◌}
use smallworld_be.Prelude.{String, if◌then◌else◌}
use smallworld_be.Prelude.Int.{pos, leb_ℤ}
use smallworld_be.Domain.Models.{Duration, RideOffer}
use smallworld_be.Domain.Errors.{wrap, Result, ok, err}
use smallworld_be.Redis.{set, del, Client, Redis, send, or_default}

-- json.Marshal on an offer, beside the fields of the source.
pub record EphemeralOfferStore : Type 0 where
  pub client : Client
  pub key_prefix : String
  pub ttl : Duration
  pub marshal : RideOffer → Result String

unfoldable pub offer_key : EphemeralOfferStore → String → String
offer_key s id = or_default s.key_prefix "smallworld:offer:" ++ id

-- if expiration <= 0 { expiration = 2 * time.Minute }, in nanoseconds
unfoldable pub expiration : Duration → Duration
expiration ttl = if leb_ℤ ttl (pos 0) then pos 120_000_000_000 else ttl

abbrev store_payload : EphemeralOfferStore → String → Result String → Redis (Unit {0})
store_payload s id (err e) log = (err (wrap "marshal ephemeral offer" e), log)
store_payload s id (ok payload) log =
    send s.client (set (offer_key s id) payload (expiration s.ttl)) log

unfoldable pub save_pending_offer : EphemeralOfferStore → RideOffer → Redis (Unit {0})
unfolding offer_key expiration
save_pending_offer s offer log = store_payload s offer.id (s.marshal offer) log

unfoldable pub delete_pending_offer : EphemeralOfferStore → String → Redis (Unit {0})
unfolding offer_key
delete_pending_offer s id log = send s.client (del (offer_key s id)) log
