-- ===== src/Interrupt.antt =====
-- crates/kernel-core/src/interrupt.rs: `InterruptObject`, the authority over one interrupt line.
pub mod Delivery
use gaxera.Prelude.{
  ℕ, Bool, true, false, not, ◌&&◌, ◌||◌, Option, none, some, u32_mod, checked_add, checked_sub,
  ◌==◌, is_some, if◌then◌else◌, Result, ok, err,
}
use gaxera.Abi.Ids.{ObjectId}

pub data InterruptError : Type 0 where
  invalid_state not_bound already_bound closed : InterruptError

pub data InterruptTrigger : Type 0 where
  level edge : InterruptTrigger

pub record InterruptObject : Type 0 where
  pub id : ObjectId
  pub vector : ℕ
  pub irq : ℕ
  pub generation : ℕ
  pub trigger : InterruptTrigger
  pub owner_process : Option ObjectId
  pub bound_notification : Option ObjectId
  pub capability_refs : ℕ
  pub masked : Bool
  pub in_flight : Bool
  pub is_closed : Bool

abbrev pub new_interrupt : ObjectId → ℕ → ℕ → InterruptObject
new_interrupt id vector irq = record {
  id = id;
  vector = vector;
  irq = irq;
  generation = 1;
  trigger = level;
  owner_process = none;
  bound_notification = none;
  capability_refs = 1;
  masked = true;
  in_flight = false;
  is_closed = false;
}

abbrev pub with_metadata :
    ObjectId → ℕ → ℕ → ℕ → InterruptTrigger → Option ObjectId → InterruptObject
with_metadata id vector irq generation trigger owner_process =
    record (new_interrupt id vector irq) {
      generation = generation;
      trigger = trigger;
      owner_process = owner_process;
    }

abbrev pub Changed : Type 0
Changed = Result (Unit {0}) InterruptError × InterruptObject

unfoldable pub inc_capability_ref : InterruptObject → Changed
inc_capability_ref i = elim (checked_add u32_mod i.capability_refs 1) [
  | none ↦ (err closed, i)
  | some refs ↦ (ok tt, record i { capability_refs = refs })
]

-- Whether no reference is left.
unfoldable pub dec_capability_ref : InterruptObject → Result Bool InterruptError × InterruptObject
dec_capability_ref i = elim (checked_sub i.capability_refs 1) [
  | none ↦ (err closed, i)
  | some refs ↦ (ok (refs == 0), record i { capability_refs = refs })
]

unfoldable pub bind_notification : InterruptObject → ObjectId → Changed
bind_notification i notification =
    if i.is_closed
    then (err closed, i)
    else if is_some i.bound_notification
    then (err already_bound, i)
    else (ok tt, record i { bound_notification = some notification })

unfoldable pub unbind_notification : InterruptObject → Changed
unbind_notification i = if i.is_closed then (err closed, i) else elim i.bound_notification [
  | none ↦ (err not_bound, i)
  | some n ↦ (ok tt, record i { bound_notification = none; in_flight = false; masked = true })
]

unfoldable pub mask : InterruptObject → InterruptObject
mask i = record i { masked = true }

unfoldable pub unmask : InterruptObject → InterruptObject
unmask i =
    if not i.is_closed && is_some i.bound_notification && not i.in_flight
    then record i { masked = false }
    else i

-- The notification to signal.
unfoldable pub begin_delivery :
    InterruptObject → Result (Option ObjectId) InterruptError × InterruptObject
begin_delivery i = if i.is_closed then (err closed, i) else elim i.bound_notification [
  | none ↦ (err not_bound, i)
  | some notification ↦
      if i.masked || i.in_flight
      then (ok none, i)
      else (ok (some notification), record i { masked = true; in_flight = true })
]

unfoldable pub acknowledge : InterruptObject → Changed
acknowledge i =
    if i.is_closed
    then (err closed, i)
    else if not i.in_flight
    then (err invalid_state, i)
    else (ok tt, record i { in_flight = false })

unfoldable pub close : InterruptObject → InterruptObject
close i = record i { is_closed = true; masked = true; in_flight = false; bound_notification = none }
