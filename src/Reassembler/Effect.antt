-- ===== src/Reassembler/Effect.antt =====
-- What pushPacket does to each byte, each flag and each counter, on every branch.
use hv_frame_test.Base.{
  count_true-set, count_true-le, length-set, ℕ, ◌+◌, ◌-◌, ◌*◌, ◌≤◌, ◌<◌, max, ◌≡◌, refl, ◌∙◌, ap,
  ◌⊎◌, inl, inr, Bool, true, false, List, arith, ◌==◌, if◌then◌else◌, length, get_or, set, take,
  length-take, get_or-take, get_or-set_self, get_or-set_ne, copy_at_inside, copy_at_outside,
  copy_at,
}
use hv_frame_test.Protocol.{UdpPacketHeader}
use hv_frame_test.Reassembler.{FrameReassemblerV2, store, push_packet, has_packet}
use hv_frame_test.Reassembler.Inv.{
  IsValid, HeaderFits, Accepts, Rejects, push_packet-cases, offset_of_lem, offset_end,
}

-- The byte at `k` comes from the packet.
abbrev Within : FrameReassemblerV2 → UdpPacketHeader → ℕ → Type 0
Within r h k =
    (h.packet_id * r.payload_stride ≤ k) × (k < h.packet_id * r.payload_stride + h.payload_size)

-- It lies before or behind the packet.
abbrev Outside : FrameReassemblerV2 → UdpPacketHeader → ℕ → Type 0
Outside r h k =
    (k < h.packet_id * r.payload_stride) ⊎ (h.packet_id * r.payload_stride + h.payload_size ≤ k)

-- How the object `s` after a stored packet stands to `r` before it.
pub record Stored (r : FrameReassemblerV2) (h : UdpPacketHeader) (p : List ℕ)
    (s : FrameReassemblerV2) : Type 0 where
  pub flag : (j : ℕ) → has_packet s j ≡ (if h.packet_id == j then true else has_packet r j)
  pub inside :
      (k : ℕ)
      → Within r h k
      → get_or s.frame_buffer k 0 ≡ get_or p (k - h.packet_id * r.payload_stride) 0
  pub outside : (k : ℕ) → Outside r h k → get_or s.frame_buffer k 0 ≡ get_or r.frame_buffer k 0
  pub received : s.received_packets_count ≡ r.received_packets_count + 1
  pub size : s.frame_size ≡ max r.frame_size (h.packet_id * r.payload_stride + h.payload_size)
  same_id : s.current_frame_id ≡ r.current_frame_id
  pub same_count : s.expected_packet_count ≡ r.expected_packet_count
  pub same_stride : s.payload_stride ≡ r.payload_stride
  pub same_max : s.max_frame_size ≡ r.max_frame_size

module _ (r : FrameReassemblerV2) (h : UdpPacketHeader) (p : List ℕ) (f : HeaderFits h)
    (v : IsValid r) (a : Accepts r h) where
  store-flag :
      (j : ℕ) → has_packet (store r h p) j ≡ (if h.packet_id == j then true else has_packet r j)
  unfolding store has_packet
  store-flag j = ground (
    arith,
    v.flags,
    a.in_range,
    get_or-set_self r.packet_received h.packet_id true false,
    get_or-set_ne r.packet_received h.packet_id j true false,
  )

  store-inside :
      (k : ℕ)
      → h.payload_size ≤ length p
      → Within r h k
      → get_or (store r h p).frame_buffer k 0 ≡ get_or p (k - h.packet_id * r.payload_stride) 0
  unfolding store
  store-inside k e w =
      rw (offset_of_lem r h.packet_id v.stride_fits f.packet_id_fits) (rw at_k at copied ∙ taken)
    where
      start : ℕ
      start = h.packet_id * r.payload_stride

      i : ℕ
      i = k - start

      at_k : start + i ≡ k
      at_k = omega arith

      taken : get_or (take h.payload_size p) i 0 ≡ get_or p i 0
      taken = get_or-take h.payload_size p i 0 (omega arith)

      copied :
          get_or (copy_at r.frame_buffer start (take h.payload_size p)) (start + i) 0
          ≡ get_or (take h.payload_size p) i 0
      copied =
          copy_at_inside r.frame_buffer start (take h.payload_size p) i
            (omega (arith, v.buffer, a.has_room)) (omega (arith, length-take h.payload_size p))

  store-Outside :
      (k : ℕ) → Outside r h k → get_or (store r h p).frame_buffer k 0 ≡ get_or r.frame_buffer k 0
  unfolding store
  store-Outside k w = rw (offset_of_lem r h.packet_id v.stride_fits f.packet_id_fits) (
      copy_at_outside r.frame_buffer (h.packet_id * r.payload_stride) (take h.payload_size p) k
        (omega (arith, length-take h.payload_size p)))

  store-received : (store r h p).received_packets_count ≡ r.received_packets_count + 1
  unfolding store
  store-received = omega (
    arith,
    v.counted,
    v.flags,
    a.in_range,
    v.count_fits,
    count_true-set r.packet_received h.packet_id (omega (arith, v.flags, a.in_range)) a.is_new,
    count_true-le (set r.packet_received h.packet_id true),
    length-set r.packet_received h.packet_id true,
  )

  store-Stored : h.payload_size ≤ length p → Stored r h p (store r h p)
  store-Stored e = record {
    flag = store-flag;
    inside = λ k. store-inside k e;
    outside = store-Outside;
    received = store-received;
    size = unfold store in ap (max r.frame_size) (offset_end r h v.stride_fits f);
    same_id = unfold store in refl;
    same_count = unfold store in refl;
    same_stride = unfold store in refl;
    same_max = unfold store in refl;
  }

-- In a valid reassembler, for a header whose fields fit and a payload that is there: a packet that
-- is new, in range and fits is stored: its flag is set, its bytes stand at its offset and all
-- others stay, it is counted, and the frame's size covers it. Any other packet changes nothing.
pub push_packet_lem :
    (r : FrameReassemblerV2) (h : UdpPacketHeader) (p : List ℕ) (g : Bool)
    → IsValid r
    → HeaderFits h
    → h.payload_size ≤ length p
    → (Accepts r h × Stored r h p (push_packet r h p g)) ⊎ (Rejects r h × (push_packet r h p g ≡ r))
push_packet_lem r h p g v f e = elim (push_packet-cases r h p g v.stride_fits f) [
  | inl (a, q) ↦ inl (a, rw q (store-Stored r h p f v a e))
  | inr q ↦ inr q
]
