-- ===== src/Tests/Lives.antt =====
-- Examples for crates/kernel-core/src/process.rs and interrupt.rs.
use gaxera.Prelude.{◌≡◌, refl, true, false, none, some, List, [], ◌∷◌, ok, arith}
use gaxera.Abi.Ids.{ObjectId}
use gaxera.Process.{Process, new_process}
use gaxera.Process.Life.{
  IsLater, IsConsistent, prepares, requests_exit, marks_exiting, binds_main_thread,
  after_all-IsLater,
}
use gaxera.Process.Life
use gaxera.Interrupt.{InterruptObject, new_interrupt, begin_delivery}
use gaxera.Interrupt.Delivery.{
  IsGuarded, binds, unmasks, delivers, masks, after_all-IsGuarded, none_settles, delivers_once,
}
use gaxera.Interrupt.Delivery

abbrev some_id : ObjectId
some_id = record { index = 6; generation = 1 }

abbrev process : Process
process = new_process some_id some_id

abbrev life : List Life.Event
life = binds_main_thread some_id ∷ prepares ∷ requests_exit 3 ∷ marks_exiting ∷ requests_exit 4 ∷ []

after_all-IsLater_example :
    IsLater process (Life.after_all process life)
    × (IsConsistent process → IsConsistent (Life.after_all process life))
after_all-IsLater_example = after_all-IsLater process life

abbrev line : InterruptObject
line = record (new_interrupt some_id 33 1) { bound_notification = some some_id; masked = false }

line-IsGuarded : IsGuarded line
line-IsGuarded = ground arith

delivered : (begin_delivery line).0 ≡ ok (some some_id)
unfolding begin_delivery
delivered = refl

quiet : none_settles (unmasks ∷ delivers ∷ []) ≡ true
unfolding none_settles
quiet = refl

delivers_once_example :
    let later = Delivery.after_all (begin_delivery line).1 (unmasks ∷ delivers ∷ []) in
    (begin_delivery later ≡ (ok none, later)) × (later.masked ≡ true)
delivers_once_example = delivers_once line some_id (unmasks ∷ delivers ∷ []) delivered quiet
