-- ===== src/Foundation/Ids.antt =====
-- internal/foundation/ids.go: `AtomicIDGenerator`. Its counter is a uint64, so it wraps around. An
-- `Add` is atomic, so calls at once draw their numbers in some order: that of the calls here.
pub mod Distinct
use Prim.Native.String.{◌++◌}
use smallworld_be.Prelude.{
  ℕ, zero, suc, ◌+◌, ◌/◌, ◌%◌, ◌^◌, String, List, [], ◌∷◌, if◌then◌else◌, ltb,
}
use smallworld_be.Prelude.Int.{ℤ, pos, negsuc}
use smallworld_be.Domain.Models.{Time}
use smallworld_be.Text.Decimal.{decimal, signed_decimal}

pub record AtomicIdGenerator : Type 0 where
  pub seq : ℕ

-- g.seq.Add(1)
unfoldable pub next_seq : AtomicIdGenerator → ℕ
next_seq g = (g.seq + 1) % 2 ^ 64

-- `New`, at a reading of time.Now().UnixNano().
unfoldable pub new : AtomicIdGenerator → String → Time → String × AtomicIdGenerator
unfolding next_seq
new g prefix nanos = (
  prefix ++ ("_" ++ (signed_decimal nanos ++ ("_" ++ decimal (next_seq g)))),
  record { seq = next_seq g },
)

-- The ids that a sequence of calls gets.
unfoldable pub new_ids : AtomicIdGenerator → List (String × Time) → List String
unfolding new
new_ids g [] = []
new_ids g ((prefix, nanos) ∷ calls) = (new g prefix nanos).0 ∷ new_ids (new g prefix nanos).1 calls
