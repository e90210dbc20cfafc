-- ===== src/PacketRing/Slots.antt =====
-- crates/net_types/src/ring.rs: the slots in flight, from the oldest to the newest.
use gaxera.Prelude.{
  ℕ, zero, suc, ◌+◌, ◌-◌, ◌%◌, ◌^◌, ◌≤◌, ◌<◌, ◌≡◌, ◌≢◌, ◌↔◌, refl, sym, ap, ◌∙◌, subst, true,
  Option, none, some, List, [], ◌∷◌, ◌++◌, bit_and, ◌==◌, u32_mod, ok, is_error, arith, Bool-cases,
  inl, inr, All,
}
use native.Mathlib.Nat.{add-mod}
use gaxera.Prelude.Low.{bit_and-low, pow_mod-mod, mod_apart}
use gaxera.Prelude.Masks.{positive, pow_mono}
use gaxera.PacketRing.{PacketRingHeader, len, push_slot, pop_slot}

-- `n` slots from the index `i` on, in a ring of `c` slots.
pub slots_from : ℕ → ℕ → ℕ → List ℕ
slots_from c i zero = []
slots_from c i (suc n) = i % c ∷ slots_from c (i + 1) n

pub in_flight : PacketRingHeader → List ℕ
in_flight h = slots_from h.capacity h.consumer_index (len h)

-- A capacity of 2^k slots, indices of 32 bits, and no more slots in flight than there are.
pub record IsRing (k : ℕ) (h : PacketRingHeader) : Type 0 where
  pub power : h.capacity ≡ 2 ^ k
  pub narrow : k < 32
  pub producer : h.producer_index < u32_mod
  pub consumer : h.consumer_index < u32_mod
  pub within : len h ≤ h.capacity

slots_from-append : (c i n : ℕ) → slots_from c i (suc n) ≡ slots_from c i n ++ (i + n) % c ∷ []
unfolding slots_from
slots_from-append c i zero = ap (λ (j : ℕ). j % c ∷ []) (omega arith)
slots_from-append c i (suc n) =
    ap (λ (l : List ℕ). i % c ∷ l)
      (slots_from-append c (i + 1) n
        ∙ ap (λ (j : ℕ). slots_from c (i + 1) n ++ j % c ∷ []) (omega arith))

slots_from-wrapped : (c i j n : ℕ) → i % c ≡ j % c → slots_from c i n ≡ slots_from c j n
unfolding slots_from
slots_from-wrapped c i j zero e = refl
slots_from-wrapped c i j (suc n) e =
    let next : (i + 1) % c ≡ (j + 1) % c =
      add-mod i 1 c ∙ ap (λ (m : ℕ). (m + 1 % c) % c) e ∙ sym (add-mod j 1 c) in
    ap (λ (m : ℕ). m ∷ slots_from c (i + 1) n) e
    ∙ ap (λ (l : List ℕ). j % c ∷ l) (slots_from-wrapped c (i + 1) (j + 1) n next)

-- No slot in flight is the next one.
slots_from-apart : (c i n m : ℕ) → n ≤ m → m < c → All (λ s. s ≢ (i + m) % c) (slots_from c i n)
unfolding slots_from
slots_from-apart c i zero m h l = tt
slots_from-apart c i (suc n) m h l =
    let e : i + 1 + (m - 1) ≡ i + m = omega arith in
    (
      mod_apart c i (i + m) (omega arith) (omega arith),
      subst (λ (t : ℕ). All (λ s. s ≢ t % c) (slots_from c (i + 1) n)) e
          (slots_from-apart c (i + 1) n (m - 1) (omega arith) (omega arith)),
    )

-- The mask of the code gives the slot of an index.
masked :
    (k : ℕ) (h : PacketRingHeader) (index i : ℕ)
    → IsRing k h
    → index ≡ i % u32_mod
    → bit_and index (h.capacity - 1) ≡ i % h.capacity
masked k h index i v e =
    ap (λ (c : ℕ). bit_and index (c - 1)) v.power
    ∙ bit_and-low k index
    ∙ ap (λ (m : ℕ). m % 2 ^ k) e
    ∙ pow_mod-mod k 32 i (omega (arith, v.narrow))
    ∙ ap (λ (c : ℕ). i % c) (sym v.power)

-- Of a ring of 2^k slots, k below 32, with at most that many in flight: a push is refused exactly when
-- all slots are in flight, and then changes nothing; otherwise it puts behind those in flight a slot
-- that is not among them and is a slot of the ring.
pub push_slot_fresh :
    (k : ℕ) (h : PacketRingHeader)
    → IsRing k h
    → ((is_error (push_slot h).0 ≡ true) ↔ (len h ≡ h.capacity))
      × (is_error (push_slot h).0 ≡ true → (push_slot h).1 ≡ h)
      × ((slot : ℕ)
          → (push_slot h).0 ≡ ok slot
          → IsRing k (push_slot h).1
            × (slot < h.capacity)
            × All (λ s. s ≢ slot) (in_flight h)
            × (in_flight (push_slot h).1 ≡ in_flight h ++ slot ∷ []))
unfolding push_slot in_flight
push_slot_fresh k h v =
    let narrow : h.capacity < u32_mod = omega (arith, v.power, pow_mono 32 k v.narrow) in
    let some_slot : 0 < h.capacity = omega (arith, v.power, positive k) in
    let end : h.producer_index ≡ (h.consumer_index + len h) % u32_mod =
      omega (arith, v.producer, v.consumer) in
    let slot_eq = masked k h h.producer_index (h.consumer_index + len h) v end in
    (
      (ground (arith, v.within), ground arith),
      ground arith,
      λ slot got.
          let room : len h < h.capacity = ground arith in
          let h' = record h { producer_index = (h.producer_index + 1) % u32_mod } in
          let longer : len h' ≡ suc (len h) = omega (arith, v.producer, v.consumer) in
          let goes : (push_slot h).1 ≡ h' = ground arith in
          let at : slot ≡ (h.consumer_index + len h) % h.capacity = ground (arith, slot_eq) in
          let valid : IsRing k h' = record {
            power = v.power;
            narrow = v.narrow;
            producer = omega arith;
            consumer = v.consumer;
            within = omega (arith, longer);
          } in
          let line : in_flight h' ≡ in_flight h ++ slot ∷ [] =
            ap (slots_from h.capacity h.consumer_index) longer
            ∙ slots_from-append h.capacity h.consumer_index (len h)
            ∙ ap (λ (s : ℕ). in_flight h ++ s ∷ []) (sym at) in
          (
            subst (IsRing k) (sym goes) valid,
            omega (arith, at),
            subst (λ (t : ℕ). All (λ s. s ≢ t) (in_flight h)) (sym at)
                (slots_from-apart h.capacity h.consumer_index (len h) (len h) (omega arith) room),
            ap in_flight goes ∙ line,
          ),
    )

-- A pop takes the oldest slot in flight, and nothing from a ring with none.
pub pop_slot_oldest :
    (k : ℕ) (h : PacketRingHeader)
    → IsRing k h
    → IsRing k (pop_slot h).1
      × (in_flight h ≡ [] → pop_slot h ≡ (none, h))
      × ((slot : ℕ) (rest : List ℕ)
          → in_flight h ≡ slot ∷ rest
          → ((pop_slot h).0 ≡ some slot) × (in_flight (pop_slot h).1 ≡ rest))
unfolding pop_slot in_flight slots_from
pop_slot_oldest k h v = elim (Bool-cases (h.consumer_index == h.producer_index)) [
  | inl none_left ↦
      let nothing : len h ≡ 0 = ground (arith, v.producer, v.consumer) in
      let stays : pop_slot h ≡ (none, h) = ground arith in
      (
        subst (λ (r : Option ℕ × PacketRingHeader). IsRing k r.1) (sym stays) v,
        (λ e. stays),
        λ slot rest line. absurd (cc (line, ap (slots_from h.capacity h.consumer_index) nothing)),
      )
  | inr some_left ↦
      let n = len h - 1 in
      let one : len h ≡ suc n = ground (arith, v.producer, v.consumer) in
      let h' = record h { consumer_index = (h.consumer_index + 1) % u32_mod } in
      let slot_eq = masked k h h.consumer_index h.consumer_index v (omega (arith, v.consumer)) in
      let goes : pop_slot h ≡ (some (bit_and h.consumer_index (h.capacity - 1)), h') =
        ground arith in
      let fewer : len h' ≡ n = ground (arith, v.producer, v.consumer) in
      let valid : IsRing k h' = record {
        power = v.power;
        narrow = v.narrow;
        producer = v.producer;
        consumer = omega arith;
        within = omega (arith, fewer, one, v.within);
      } in
      let line : in_flight h
          ≡ h.consumer_index % h.capacity ∷ slots_from h.capacity (h.consumer_index + 1) n =
        ap (slots_from h.capacity h.consumer_index) one in
      let wraps : (h.consumer_index + 1) % u32_mod % h.capacity
          ≡ (h.consumer_index + 1) % h.capacity =
        ap (λ (c : ℕ). (h.consumer_index + 1) % u32_mod % c) v.power
        ∙ pow_mod-mod k 32 (h.consumer_index + 1) (omega (arith, v.narrow))
        ∙ ap (λ (c : ℕ). (h.consumer_index + 1) % c) (sym v.power) in
      let rest_line : in_flight h' ≡ slots_from h.capacity (h.consumer_index + 1) n =
        ap (slots_from h.capacity ((h.consumer_index + 1) % u32_mod)) fewer
        ∙ slots_from-wrapped h.capacity ((h.consumer_index + 1) % u32_mod) (h.consumer_index + 1) n
            wraps in
      (
        subst (λ (r : Option ℕ × PacketRingHeader). IsRing k r.1) (sym goes) valid,
        (λ e. absurd (cc (line, e))),
        λ slot rest at.
            let same : h.consumer_index % h.capacity
                  ∷ slots_from h.capacity (h.consumer_index + 1) n
                ≡ slot ∷ rest =
              sym line ∙ at in
            (
              cc (goes, slot_eq, same),
              ap (λ (r : Option ℕ × PacketRingHeader). in_flight r.1) goes ∙ rest_line ∙ cc same,
            ),
      )
]
