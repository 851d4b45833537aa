-- ===== src/Reassembler/Inv.antt =====
-- The representation invariant of FrameReassemblerV2, and what its size_t arithmetic comes to.
use hv_frame_test.Base.{
  ℕ, ◌+◌, ◌*◌, ◌≤◌, ◌<◌, ◌≡◌, refl, ◌∙◌, ◌⊎◌, inl, inr, Bool, true, false, List, arith, ltb, leb,
  ltb→lt, leb→le, ltb→le, leb→lt, Bool-cases, length, get_or, set, take, count_true, length-set,
  length-copy_at, length-replicate, count_true-set, count_true-replicate, count_true-le, u16_mod,
  u32_mod, add_size,
}
use hv_frame_test.Protocol.{UdpPacketHeader}
use hv_frame_test.Reassembler.{
  FrameReassemblerV2, init, start_new_frame, offset_of, store, push_packet, reset,
}

pub record IsValid (r : FrameReassemblerV2) : Type 0 where
  pub flags : length r.packet_received ≡ r.expected_packet_count
  pub counted : count_true r.packet_received ≡ r.received_packets_count
  pub buffer : length r.frame_buffer ≡ r.max_frame_size
  pub within : r.frame_size ≤ r.max_frame_size
  pub count_fits : r.expected_packet_count < u16_mod
  pub stride_fits : r.payload_stride < u32_mod
  pub clean : r.corrupted_detected ≡ false

-- What the header's field types give.
pub record HeaderFits (h : UdpPacketHeader) : Type 0 where
  pub frame_id_fits : h.frame_id < u32_mod
  pub packet_id_fits : h.packet_id < u16_mod
  pub packet_count_fits : h.packet_count < u16_mod
  pub payload_size_fits : h.payload_size < u32_mod

mul-lt : (a b : ℕ) → a < u16_mod → b < u32_mod → a * b ≤ u16_mod * u32_mod
mul-lt a b p q = grind arith

-- No size_t operation of pushPacket wraps.
pub offset_of_lem :
    (r : FrameReassemblerV2) (pid : ℕ)
    → r.payload_stride < u32_mod
    → pid < u16_mod
    → offset_of r pid ≡ pid * r.payload_stride
offset_of_lem r pid s p = omega (arith, mul-lt pid r.payload_stride p s)

pub offset_end :
    (r : FrameReassemblerV2) (h : UdpPacketHeader)
    → r.payload_stride < u32_mod
    → HeaderFits h
    → add_size (offset_of r h.packet_id) h.payload_size
      ≡ h.packet_id * r.payload_stride + h.payload_size
offset_end r h s f = omega (arith, mul-lt h.packet_id r.payload_stride f.packet_id_fits s)

-- The packet passes the tests of pushPacket.
pub record Accepts (r : FrameReassemblerV2) (h : UdpPacketHeader) : Type 0 where
  pub in_range : h.packet_id < r.expected_packet_count
  pub is_new : get_or r.packet_received h.packet_id false ≡ false
  pub has_room : h.packet_id * r.payload_stride + h.payload_size ≤ r.max_frame_size

-- It fails one of them.
abbrev pub Rejects : FrameReassemblerV2 → UdpPacketHeader → Type 0
Rejects r h =
    (r.expected_packet_count ≤ h.packet_id)
    ⊎ (get_or r.packet_received h.packet_id false ≡ true)
    ⊎ (r.max_frame_size < h.packet_id * r.payload_stride + h.payload_size)

-- pushPacket stores a packet that passes its tests and leaves the object alone on every other.
pub push_packet-cases :
    (r : FrameReassemblerV2) (h : UdpPacketHeader) (p : List ℕ) (g : Bool)
    → r.payload_stride < u32_mod
    → HeaderFits h
    → (Accepts r h × (push_packet r h p g ≡ store r h p))
      ⊎ (Rejects r h × (push_packet r h p g ≡ r))
unfolding push_packet
push_packet-cases r h p g s f = elim (Bool-cases (leb r.expected_packet_count h.packet_id)) [
  | inl out ↦ inr (inl (leb→le _ _ out), rw out)
  | inr inside ↦ elim (Bool-cases (get_or r.packet_received h.packet_id false)) [
    | inl dup ↦ inr (inr (inl dup), rw (inside, dup))
    | inr new ↦
        elim (Bool-cases
          (ltb r.max_frame_size (add_size (offset_of r h.packet_id) h.payload_size))) [
            | inl big ↦
                inr (inr (inr (rw (offset_end r h s f) at (ltb→lt _ _ big))), rw (inside, new, big))
            | inr room ↦ inl (
              record {
                in_range = leb→lt _ _ inside;
                is_new = new;
                has_room = rw (offset_end r h s f) at (ltb→le _ _ room);
              },
              rw (inside, new, room),
            )
          ]
  ]
]

store-IsValid :
    (r : FrameReassemblerV2) (h : UdpPacketHeader) (p : List ℕ)
    → HeaderFits h
    → Accepts r h
    → IsValid r
    → IsValid (store r h p)
unfolding store
store-IsValid r h p f a v = record {
  flags = length-set r.packet_received h.packet_id true ∙ v.flags;
  counted = omega (
    arith,
    count_true-set r.packet_received h.packet_id (omega arith) a.is_new,
    count_true-le r.packet_received,
    count_true-le (set r.packet_received h.packet_id true),
    length-set r.packet_received h.packet_id true,
  );
  buffer = length-copy_at r.frame_buffer _ (take h.payload_size p) ∙ v.buffer;
  within = omega (arith, offset_end r h v.stride_fits f);
  count_fits = v.count_fits;
  stride_fits = v.stride_fits;
  clean = v.clean;
}

-- pushPacket keeps a reassembler valid, for every header whose fields fit.
pub push_packet-IsValid :
    (r : FrameReassemblerV2) (h : UdpPacketHeader) (p : List ℕ) (g : Bool)
    → HeaderFits h
    → IsValid r
    → IsValid (push_packet r h p g)
push_packet-IsValid r h p g f v = elim (push_packet-cases r h p g v.stride_fits f) [
  | inl (a, e) ↦ rw e (store-IsValid r h p f a v)
  | inr (_, e) ↦ rw e v
]

pub start_new_frame-IsValid :
    (r : FrameReassemblerV2) (frame_id packet_count : ℕ)
    → packet_count < u16_mod
    → length r.frame_buffer ≡ r.max_frame_size
    → r.payload_stride < u32_mod
    → IsValid (start_new_frame r frame_id packet_count)
unfolding start_new_frame
start_new_frame-IsValid r i n h b s = record {
  flags = length-replicate n false;
  counted = count_true-replicate n;
  buffer = b;
  within = omega arith;
  count_fits = h;
  stride_fits = s;
  clean = refl;
}

pub init-IsValid : (max stride : ℕ) → stride < u32_mod → IsValid (init max stride)
unfolding init
init-IsValid max stride s = record {
  flags = refl;
  counted = refl;
  buffer = length-replicate max 0;
  within = omega arith;
  count_fits = omega arith;
  stride_fits = s;
  clean = refl;
}

reset-IsValid : (r : FrameReassemblerV2) → IsValid r → IsValid (reset r)
unfolding reset
reset-IsValid r v = record {
  flags = refl;
  counted = refl;
  buffer = v.buffer;
  within = v.within;
  count_fits = omega arith;
  stride_fits = v.stride_fits;
  clean = refl;
}

Accepts-not-Rejects : (r : FrameReassemblerV2) (h : UdpPacketHeader) → Accepts r h → Rejects r h → ⊥
Accepts-not-Rejects r h a (inl out) = absurd (omega (arith, a.in_range))
Accepts-not-Rejects r h a (inr (inl dup)) = cc (a.is_new)
Accepts-not-Rejects r h a (inr (inr big)) = absurd (omega (arith, a.has_room))

module _ (r : FrameReassemblerV2) (h : UdpPacketHeader) (p : List ℕ) (g : Bool)
    (s : r.payload_stride < u32_mod) (f : HeaderFits h) where
  pub push_packet-accepted : Accepts r h → push_packet r h p g ≡ store r h p
  push_packet-accepted a = elim (push_packet-cases r h p g s f) [
    | inl (_, e) ↦ e
    | inr (no_room, e) ↦ absurd (Accepts-not-Rejects r h a no_room)
  ]

  pub push_packet-rejected : Rejects r h → push_packet r h p g ≡ r
  push_packet-rejected no_room = elim (push_packet-cases r h p g s f) [
    | inl (a, _) ↦ absurd (Accepts-not-Rejects r h a no_room)
    | inr (_, e) ↦ e
  ]
