-- ===== src/Notification.antt =====
-- crates/kernel-core/src/notification.rs: `Notification`, a word of signal bits and at most one
-- waiting thread. Its identity, which no operation reads, is left out.
pub mod Signals
pub mod Sleepers
pub mod Stranded
use gaxera.Prelude.{
  ℕ, ◌+◌, ◌-◌, ◌^◌, Bool, true, false, not, Option, none, some, bit_and, bit_or, ◌==◌, u32_mod,
  checked_add, checked_sub, if◌then◌else◌, Result, ok, err,
}
use gaxera.Abi.Ids.{ObjectId}

pub data NotificationError : Type 0 where
  closed : NotificationError

pub record Notification : Type 0 where
  pub signals : ℕ
  pub waiting_thread : Option ObjectId
  pub capability_refs : ℕ
  pub is_closed : Bool

abbrev pub new : Notification
new = record { signals = 0; waiting_thread = none; capability_refs = 1; is_closed = false }

unfoldable pub inc_capability_ref :
    Notification → Result (Unit {0}) NotificationError × Notification
inc_capability_ref n = elim (checked_add u32_mod n.capability_refs 1) [
  | none ↦ (err closed, n)
  | some refs ↦ (ok tt, record n { capability_refs = refs })
]

-- Whether no reference is left.
unfoldable pub dec_capability_ref : Notification → Result Bool NotificationError × Notification
dec_capability_ref n = elim (checked_sub n.capability_refs 1) [
  | none ↦ (err closed, n)
  | some refs ↦ (ok (refs == 0), record n { capability_refs = refs })
]

-- The thread to wake.
unfoldable pub signal : Notification → ℕ → Option ObjectId × Notification
signal n active_signals =
    if n.is_closed
    then (none, n)
    else let signals = bit_or n.signals active_signals in
      if signals == 0
      then (none, record n { signals = signals })
      else (n.waiting_thread, record n { signals = signals; waiting_thread = none })

unfoldable pub take_signals : Notification → ℕ × Notification
take_signals n = (n.signals, record n { signals = 0 })

-- The signals that were taken, or the thread that waits.
pub data Waited : Type 0 where
  taken : ℕ → Waited
  blocked : ObjectId → Waited

unfoldable pub wait : Notification → ObjectId → Result Waited NotificationError × Notification
unfolding take_signals
wait n thread =
    if n.is_closed
    then (err closed, n)
    else if n.signals == 0
    then (ok (blocked thread), record n { waiting_thread = some thread })
    else let (signals, n') = take_signals n in (ok (taken signals), n')

-- `!mask` flips the 32 bits.
unfoldable pub clear : Notification → ℕ → ℕ × Notification
clear n mask =
    (bit_and n.signals mask, record n { signals = bit_and n.signals (2 ^ 32 - 1 - mask) })

unfoldable pub close : Notification → Option ObjectId × Notification
close n = (n.waiting_thread, record n { signals = 0; waiting_thread = none; is_closed = true })
