-- ===== src/Ledger/Refines.antt =====
-- Each operation is a sequence of the steps of `Ledger`.
pub mod Offers
pub mod Acceptor
pub mod Bookings
pub mod Sessions
pub mod Start
pub mod Demands
pub mod Background
pub mod Aside
pub mod Reconcile
use smallworld_be.Prelude.{◌≡◌, subst, sym}
use smallworld_be.World.{Store}
use smallworld_be.Ledger.{Step, Steps, here, next}

pub Steps-of_eq : {s s' : Store} → s' ≡ s → Steps s s'
Steps-of_eq {s} e = subst (Steps s) (sym e) here

pub Steps-of_step : {s s' : Store} → Step s s' → Steps s s'
Steps-of_step st = next here st
