-- ===== src/World/Frame.antt =====
-- What the calls that leave the program do not touch.
use smallworld_be.Prelude.{String, ◌≡◌, arith}
use smallworld_be.Domain.Models.{DriverSession, RideOffer}
use smallworld_be.World.{World}
use smallworld_be.World.Calls.{presence_save, presence_delete, ephemeral_save, ephemeral_delete}

-- All but the record of calls stays.
pub record SameButCalls (w w' : World) : Type 0 where
  pub same_store : w'.store ≡ w.store
  pub same_env : w'.env ≡ w.env
  pub same_ticks : w'.ticks ≡ w.ticks
  pub same_seq : w'.seq ≡ w.seq

pub ephemeral_delete-Same : (id : String) (w : World) → SameButCalls w (ephemeral_delete id w).1
unfolding ephemeral_delete
ephemeral_delete-Same id w = ground arith

pub ephemeral_save-Same : (o : RideOffer) (w : World) → SameButCalls w (ephemeral_save o w).1
unfolding ephemeral_save
ephemeral_save-Same o w = ground arith

pub presence_save-Same : (s : DriverSession) (w : World) → SameButCalls w (presence_save s w).1
unfolding presence_save
presence_save-Same s w = ground arith

pub presence_delete-Same : (id : String) (w : World) → SameButCalls w (presence_delete id w).1
unfolding presence_delete
presence_delete-Same id w = ground arith
