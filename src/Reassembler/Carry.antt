-- ===== src/Reassembler/Carry.antt =====
-- One packet's bytes in FrameReassemblerV2, from the time it is stored.
use hv_frame_test.Base.{
  ℕ, ◌+◌, ◌*◌, ◌≤◌, ◌<◌, ◌≡◌, ◌≢◌, ◌∙◌, sym, ap, subst, ◌⊎◌, inl, inr, true, false, arith, get_or,
  ℕ_discrete, dec_lt, lt→leb, get_or-replicate, Bool-cases, leb, count_true_some,
}
use hv_frame_test.Protocol.{RxPacket}
use hv_frame_test.Reassembler.{FrameReassemblerV2, has_packet, push_packet, store, start_new_frame}
use hv_frame_test.Reassembler.Inv.{IsValid, Rejects}
use hv_frame_test.Reassembler.Effect.{Stored, push_packet_lem}
use hv_frame_test.Reassembler.Order.{IsPacket, apart, push_rx}

-- The buffer holds the payload at the packet's place, and the frame's size covers it.
pub record Carries (x : RxPacket) (r : FrameReassemblerV2) : Type 0 where
  pub bytes :
      (i : ℕ)
      → i < x.hdr.payload_size
      → get_or r.frame_buffer (x.hdr.packet_id * r.payload_stride + i) 0 ≡ get_or x.payload i 0
  pub covered : x.hdr.packet_id * r.payload_stride + x.hdr.payload_size ≤ r.frame_size

-- A packet of the same frame as `x`: no longer than the stride, and the same payload under the same
-- number.
pub record IsFellow (stride : ℕ) (x y : RxPacket) : Type 0 where
  pub packet : IsPacket stride y.hdr y.payload
  pub same_count : y.hdr.packet_count ≡ x.hdr.packet_count
  pub same_payload :
      y.hdr.packet_id ≡ x.hdr.packet_id
      → (y.hdr.payload_size ≡ x.hdr.payload_size)
        × ((i : ℕ) → i < x.hdr.payload_size → get_or y.payload i 0 ≡ get_or x.payload i 0)

-- What is stored under the number of `x` are its bytes.
abbrev pub Agrees : RxPacket → FrameReassemblerV2 → Type 0
Agrees x r = has_packet r x.hdr.packet_id ≡ true → Carries x r

-- `x` has a place in the frame.
pub record HasPlace (max_frame_size payload_stride : ℕ) (x : RxPacket) : Type 0 where
  pub in_range : x.hdr.packet_id < x.hdr.packet_count
  pub has_room : x.hdr.packet_id * payload_stride + x.hdr.payload_size ≤ max_frame_size

module _ (r : FrameReassemblerV2) (x y : RxPacket) (f : IsFellow r.payload_stride x y)
    (s : FrameReassemblerV2) (st : Stored r y.hdr y.payload s) where
  stored_own : y.hdr.packet_id ≡ x.hdr.packet_id → Carries x s
  stored_own mine =
      let (size, payload) = f.same_payload mine in
      let place = ap (λ n. n * r.payload_stride) mine in
      let place' = ap (λ n. x.hdr.packet_id * n) st.same_stride in
      record {
        bytes = λ i lt.
            ap (λ n. get_or s.frame_buffer (n + i) 0) (place' ∙ sym place)
            ∙ st.inside (y.hdr.packet_id * r.payload_stride + i) (omega arith, omega (arith, size))
            ∙ ap (λ n. get_or y.payload n 0) (omega arith)
            ∙ payload i lt;
        covered = omega (arith, st.size, size, place, place');
      }

  stored_other :
      y.hdr.packet_id ≢ x.hdr.packet_id
      → x.hdr.payload_size ≤ r.payload_stride
      → Carries x r
      → Carries x s
  stored_other other short c =
      let place = ap (λ n. x.hdr.packet_id * n) st.same_stride in
      record {
        bytes = λ i lt.
            ap (λ n. get_or s.frame_buffer (n + i) 0) place
            ∙ st.outside (x.hdr.packet_id * r.payload_stride + i) (beside i lt)
            ∙ c.bytes i lt;
        covered = omega (arith, st.size, c.covered, place);
      }
    where
      beside :
          (i : ℕ)
          → i < x.hdr.payload_size
          → (x.hdr.packet_id * r.payload_stride + i < y.hdr.packet_id * r.payload_stride)
            ⊎ (y.hdr.packet_id * r.payload_stride + y.hdr.payload_size
                ≤ x.hdr.packet_id * r.payload_stride + i)
      beside i lt = elim (dec_lt x.hdr.packet_id y.hdr.packet_id) [
        | yes below ↦
            inl (omega (arith, apart x.hdr.packet_id y.hdr.packet_id r.payload_stride below))
        | no above ↦ inr (
            omega (
              arith,
              f.packet.short,
              apart y.hdr.packet_id x.hdr.packet_id r.payload_stride (omega (arith, other)),
            ))
      ]

module _ (r : FrameReassemblerV2) (x y : RxPacket) (v : IsValid r)
    (f : IsFellow r.payload_stride x y) where
  -- Nothing that comes later takes a packet's flag away.
  pub push_rx-stays : (j : ℕ) → has_packet r j ≡ true → has_packet (push_rx r y) j ≡ true
  push_rx-stays j there =
      elim (push_packet_lem r y.hdr y.payload y.gap_before v f.packet.fits f.packet.present) [
        | inl (_, st) ↦ ground (arith, st.flag j)
        | inr (_, same) ↦ rw same there
      ]

  -- Neither does it change the packet's bytes.
  pub push_rx-Agrees : x.hdr.payload_size ≤ r.payload_stride → Agrees x r → Agrees x (push_rx r y)
  push_rx-Agrees short a =
      elim (push_packet_lem r y.hdr y.payload y.gap_before v f.packet.fits f.packet.present) [
        | inl (_, st) ↦ λ there. elim (ℕ_discrete y.hdr.packet_id x.hdr.packet_id) [
          | yes mine ↦ stored_own r x y f (push_rx r y) st mine
          | no other ↦
              stored_other r x y f (push_rx r y) st other short
                (a (ground (arith, st.flag x.hdr.packet_id)))
        ]
        | inr (_, same) ↦ rw same a
      ]

  -- A packet that has a place is there once it has been pushed.
  pub push_rx-there :
      y ≡ x
      → r.expected_packet_count ≡ x.hdr.packet_count
      → HasPlace r.max_frame_size r.payload_stride x
      → has_packet (push_rx r y) x.hdr.packet_id ≡ true
  push_rx-there e count place =
      elim (push_packet_lem r y.hdr y.payload y.gap_before v f.packet.fits f.packet.present) [
        | inl (_, st) ↦ ground (arith, st.flag x.hdr.packet_id, ap (λ z. z.hdr.packet_id) e)
        | inr (rejected, same) ↦ rw same (known (subst (λ z. Rejects r z.hdr) e rejected))
      ]
    where
      known : Rejects r x.hdr → has_packet r x.hdr.packet_id ≡ true
      known (inl out) = absurd (omega (arith, count, place.in_range))
      known (inr (inl dup)) =
          unfold has_packet in
          rw (lt→leb r.expected_packet_count x.hdr.packet_id (omega (arith, count, place.in_range)))
            dup
      known (inr (inr big)) = absurd (omega (arith, place.has_room))

pub push_rx-count :
    (r : FrameReassemblerV2) (y : RxPacket)
    → (push_rx r y).expected_packet_count ≡ r.expected_packet_count
unfolding push_packet store
push_rx-count r y = ground arith

-- A new frame has no packet yet.
pub start_new_frame-Agrees :
    (r : FrameReassemblerV2) (x : RxPacket) (frame_id packet_count : ℕ)
    → Agrees x (start_new_frame r frame_id packet_count)
unfolding start_new_frame has_packet
start_new_frame-Agrees r x i n there =
    absurd (ground (arith, get_or-replicate n x.hdr.packet_id false))

-- Where a packet is there, one has been counted.
pub has_packet-received :
    (r : FrameReassemblerV2) (j : ℕ)
    → IsValid r
    → has_packet r j ≡ true
    → 0 < r.received_packets_count
unfolding has_packet
has_packet-received r j v there = elim (Bool-cases (leb r.expected_packet_count j)) [
  | inl out ↦ absurd (cc (rw out at there))
  | inr inside ↦ omega (arith, v.counted, count_true_some r.packet_received j (rw inside at there))
]
