-- ===== src/Abi/Messages.antt =====
-- crates/gaxera-abi/src/ipc.rs: `InlineMessage`, `ReplyToken`, `TransferDescriptor`.
use gaxera.Prelude.{
  ℕ, ◌-◌, ◌≤◌, ◌<◌, ◌≡◌, arith, List, ◌++◌, length-append, length-replicate, take_length-append,
  ltb, take, replicate, Result, ok, err, length as measure, if◌then◌else◌,
}
use gaxera.Abi.Handles.{Handle}
use gaxera.Abi.Authority.{Rights}

abbrev pub inline_message_bytes : ℕ
inline_message_bytes = 64

abbrev pub max_capability_transfers : ℕ
max_capability_transfers = 2

pub data IpcStatus : Type 0 where
  success invalid_handle denied_rights invalid_endpoint message_too_large : IpcStatus
  transfer_limit_exceeded endpoint_closed stale_reply capacity_exhausted : IpcStatus

-- The array of 64 bytes and the number of bytes in use.
pub record InlineMessage : Type 0 where
  pub bytes : List ℕ
  pub length : ℕ

pub record ReplyToken : Type 0 where
  pub raw : ℕ

pub record TransferDescriptor : Type 0 where
  pub handle : Handle
  pub narrowed_rights : Rights

-- The payload is copied to the front of a zeroed array.
unfoldable pub try_new : List ℕ → Result InlineMessage IpcStatus
try_new payload =
    let used = measure payload in
    if ltb inline_message_bytes used
    then err message_too_large
    else ok (record { bytes = payload ++ replicate (inline_message_bytes - used) 0; length = used })

unfoldable pub payload : InlineMessage → List ℕ
payload m = take m.length m.bytes

-- A payload goes into a message exactly when it has at most 64 bytes, and then the message gives it
-- back and its array has 64 bytes; a longer one is refused as too large.
pub payload-try_new :
    (bytes : List ℕ)
    → (measure bytes ≤ 64
        → (m : InlineMessage) × (try_new bytes ≡ ok m)
          × (payload m ≡ bytes)
          × (measure m.bytes ≡ 64))
      × (64 < measure bytes → try_new bytes ≡ err message_too_large)
unfolding try_new payload
payload-try_new bytes = (
  (λ h.
      let m : InlineMessage = record {
        bytes = bytes ++ replicate (64 - measure bytes) 0;
        length = measure bytes;
      } in
      (
        m,
        ground arith,
        take_length-append bytes (replicate (64 - measure bytes) 0),
        omega (
          arith,
          length-append bytes (replicate (64 - measure bytes) 0),
          length-replicate {A = ℕ} (64 - measure bytes) 0,
        ),
      )),
  (λ h. ground arith),
)
