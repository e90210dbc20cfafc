-- ===== src/EventLog/History.antt =====
-- crates/gaxfs_event_log/src/ring_buffer.rs: the ring as the newest part of all events pushed.
use native.Mathlib.Nat.{mod-eq_of_lt}
use gaxera.Prelude.{
  ℕ, ◌+◌, ◌-◌, ◌%◌, ◌≤◌, ◌<◌, ◌≡◌, refl, sym, ap, ◌∙◌, some, List, [], ◌∷◌, ◌++◌, length, get_elem?,
  set, length-append, length-set, get_elem?-append_one, get_elem?-set_ne, get_elem?-set_self, min,
  ltb, ◌==◌, u64_mod, arith, inl, inr, Bool-cases, lt_of_get_elem?,
}
use gaxera.Prelude.Low.{mod_apart}
use gaxera.EventLog.{EventRingBuffer, GaxFsEventRecord, push}

-- The ring has the last `capacity` records of the history, each at its slot.
pub record IsRing (history : List GaxFsEventRecord) (ring : EventRingBuffer) : Type 0 where
  pub positive : 0 < ring.capacity
  pub numbered : ring.head ≡ length history + 1
  pub filled : length ring.buffer ≡ min ring.capacity (length history)
  pub slots :
      (k : ℕ) (r : GaxFsEventRecord)
      → get_elem? history k ≡ some r
      → length history ≤ k + ring.capacity
      → get_elem? ring.buffer (k % ring.capacity) ≡ some r

module _ (history : List GaxFsEventRecord) (ring : EventRingBuffer) (event : GaxFsEventRecord)
    (v : IsRing history ring) where
  newest : GaxFsEventRecord
  newest = record event { sequence_id = ring.head }

  appended : EventRingBuffer
  unfolding newest
  appended = record ring { buffer = ring.buffer ++ newest ∷ []; head = ring.head + 1 }

  overwritten : EventRingBuffer
  unfolding newest
  overwritten = record ring {
    buffer = set ring.buffer (length history % ring.capacity) newest;
    head = ring.head + 1;
  }

  appended-IsRing : length ring.buffer < ring.capacity → IsRing (history ++ newest ∷ []) appended
  unfolding appended
  appended-IsRing room = record {
    positive = omega arith;
    numbered = omega (arith, v.numbered, length-append history (newest ∷ []));
    filled = omega (
      arith,
      v.filled,
      length-append ring.buffer (newest ∷ []),
      length-append history (newest ∷ []),
    );
    slots = λ k r there recent.
        let small : length history < ring.capacity = omega (arith, v.filled) in
        let inside : k < length (history ++ newest ∷ []) =
          lt_of_get_elem? (history ++ newest ∷ []) k there in
        let low : k < ring.capacity = omega (arith, length-append history (newest ∷ [])) in
        let same : k % ring.capacity ≡ k = mod-eq_of_lt low in
        ap (get_elem? (ring.buffer ++ newest ∷ [])) same
        ∙ get_elem?-append_one ring.buffer newest k
        ∙ (elim (Bool-cases (length history == k)) [
          | inl last ↦ ground (arith, get_elem?-append_one history newest k, v.filled)
          | inr older ↦ ground (
            arith,
            get_elem?-append_one history newest k,
            v.filled,
            sym (ap (get_elem? ring.buffer) same)
                ∙ v.slots k r (ground (arith, get_elem?-append_one history newest k)) (omega arith),
          )
        ]);
  }

  overwritten-IsRing :
      ring.capacity ≤ length ring.buffer → IsRing (history ++ newest ∷ []) overwritten
  unfolding overwritten
  overwritten-IsRing full =
      let slot = length history % ring.capacity in
      let inside : slot < length ring.buffer = omega (arith, v.positive, full) in
      record {
        positive = v.positive;
        numbered = omega (arith, v.numbered, length-append history (newest ∷ []));
        filled = omega (
          arith,
          v.filled,
          length-set ring.buffer slot newest,
          length-append history (newest ∷ []),
          full,
        );
        slots = λ k r there recent. elim (Bool-cases (length history == k)) [
          | inl last ↦
              let at : k ≡ length history = ground arith in
              ap (λ (m : ℕ). get_elem? (set ring.buffer slot newest) (m % ring.capacity)) at
              ∙ get_elem?-set_self ring.buffer slot newest inside
              ∙ ground (arith, get_elem?-append_one history newest k)
          | inr older ↦
              let before : get_elem? history k ≡ some r =
                ground (arith, get_elem?-append_one history newest k) in
              let low : k < length history = lt_of_get_elem? history k before in
              let recent' : length history < k + ring.capacity =
                omega (arith, length-append history (newest ∷ [])) in
              get_elem?-set_ne ring.buffer slot (k % ring.capacity) newest
                (λ e. mod_apart ring.capacity k (length history) low recent' (sym e))
              ∙ v.slots k r before (omega arith)
        ];
      }

pub push-IsRing :
    (history : List GaxFsEventRecord) (ring : EventRingBuffer) (event : GaxFsEventRecord)
    → IsRing history ring
    → length history + 2 < u64_mod
    → (ring' : EventRingBuffer) × (push ring event ≡ some (ring.head, ring'))
      × (ring'.capacity ≡ ring.capacity)
      × IsRing (history ++ record event { sequence_id = ring.head } ∷ []) ring'
unfolding push newest appended overwritten
push-IsRing history ring event v small =
    let next : (ring.head + 1) % u64_mod ≡ ring.head + 1 = omega (arith, v.numbered) in
    elim (Bool-cases (ltb (length ring.buffer) ring.capacity)) [
      | inl room ↦ (
        appended history ring event v,
        ground (arith, next),
        refl,
        appended-IsRing history ring event v (ground arith),
      )
      | inr full ↦
          let slot : (ring.head - 1) % ring.capacity ≡ length history % ring.capacity =
            ap (λ (m : ℕ). m % ring.capacity) (omega (arith, v.numbered)) in
          (
            overwritten history ring event v,
            ground (arith, next, slot, v.positive),
            refl,
            overwritten-IsRing history ring event v (ground arith),
          )
    ]
