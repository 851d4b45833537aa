-- ===== src/Delivery/Assembly.antt =====
-- FrameReassemblerV2 fed with the packets of a frame, in any order and with duplicates.
use hv_frame_test.Base.{
  ℕ, ◌+◌, ◌-◌, ◌*◌, ◌/◌, ◌≤◌, ◌<◌, min, ◌≡◌, ◌∙◌, sym, ap, ◌⊎◌, inl, inr, true, List, [], ◌∷◌, All,
  arith, length, get_or, take, get_or_ext, get_or-take, length-take, ℕ_discrete, dec_lt, lt→leb,
}
use hv_frame_test.Protocol.{RxPacket}
use hv_frame_test.Reassembler.{FrameReassemblerV2, has_packet}
use hv_frame_test.Reassembler.Inv.{IsValid, HeaderFits, Accepts, Rejects, push_packet-IsValid}
use hv_frame_test.Reassembler.Effect.{Stored, push_packet_lem}
use hv_frame_test.Reassembler.Order.{push_rx}
use hv_frame_test.Reassembler.Sequence.{push_all}

-- How many packets a frame takes.
abbrev pub packets_of : List ℕ → ℕ
packets_of frame = (length frame + 1399) / 1400

-- A packet that carries its part of the frame.
pub record IsPart (frame : List ℕ) (x : RxPacket) : Type 0 where
  pub fits : HeaderFits x.hdr
  pub in_range : x.hdr.packet_id < packets_of frame
  pub size : x.hdr.payload_size ≡ min 1400 (length frame - x.hdr.packet_id * 1400)
  pub present : x.hdr.payload_size ≤ length x.payload
  pub bytes :
      (i : ℕ)
      → i < x.hdr.payload_size
      → get_or x.payload i 0 ≡ get_or frame (x.hdr.packet_id * 1400 + i) 0

-- The reassembler holds the parts of the frame that it has flags for.
pub record Holds (frame : List ℕ) (r : FrameReassemblerV2) : Type 0 where
  pub valid : IsValid r
  pub stride : r.payload_stride ≡ 1400
  pub expected : r.expected_packet_count ≡ packets_of frame
  pub room : length frame ≤ r.max_frame_size
  pub bytes :
      (k : ℕ)
      → k < length frame
      → has_packet r (k / 1400) ≡ true
      → get_or r.frame_buffer k 0 ≡ get_or frame k 0
  pub size_le : r.frame_size ≤ length frame
  pub size_ge : (i : ℕ) → has_packet r i ≡ true → min ((i + 1) * 1400) (length frame) ≤ r.frame_size

module _ (frame : List ℕ) (r : FrameReassemblerV2) (x : RxPacket) (h : Holds frame r)
    (part : IsPart frame x) (a : Accepts r x.hdr) (s : FrameReassemblerV2)
    (stored : Stored r x.hdr x.payload s) (v : IsValid s) where
  start : x.hdr.packet_id * r.payload_stride ≡ x.hdr.packet_id * 1400
  start = ap (λ t. x.hdr.packet_id * t) h.stride

  stored_bytes :
      (k : ℕ)
      → k < length frame
      → has_packet s (k / 1400) ≡ true
      → get_or s.frame_buffer k 0 ≡ get_or frame k 0
  stored_bytes k lt there = elim (ℕ_discrete x.hdr.packet_id (k / 1400)) [
    | yes mine ↦
        stored.inside k (omega (arith, start, part.size), omega (arith, start, part.size))
        ∙ ap (λ t. get_or x.payload (k - t) 0) start
        ∙ part.bytes (k - x.hdr.packet_id * 1400) (omega (arith, part.size))
        ∙ ap (λ t. get_or frame t 0) (omega arith)
    | no other ↦
        stored.outside k (omega (arith, start, part.size))
        ∙ h.bytes k lt (ground (arith, stored.flag (k / 1400)))
  ]

  stored_Holds : Holds frame s
  stored_Holds = record {
    valid = v;
    stride = stored.same_stride ∙ h.stride;
    expected = stored.same_count ∙ h.expected;
    room = omega (arith, stored.same_max, h.room);
    bytes = stored_bytes;
    size_le = omega (arith, stored.size, start, part.size, h.size_le, part.in_range);
    size_ge = sizes;
  }
    where
      sizes : (i : ℕ) → has_packet s i ≡ true → min ((i + 1) * 1400) (length frame) ≤ s.frame_size
      sizes i there = elim (ℕ_discrete x.hdr.packet_id i) [
        | yes mine ↦ omega (arith, stored.size, start, part.size, ap (λ t. t * 1400) mine)
        | no other ↦ omega (arith, stored.size, h.size_ge i (ground (arith, stored.flag i)))
      ]

-- Each part that comes leaves a reassembler that holds what it has, with the part among it.
push_rx-Holds :
    (frame : List ℕ) (r : FrameReassemblerV2) (x : RxPacket)
    → Holds frame r
    → IsPart frame x
    → Holds frame (push_rx r x)
      × (has_packet (push_rx r x) x.hdr.packet_id ≡ true)
      × ((j : ℕ) → has_packet r j ≡ true → has_packet (push_rx r x) j ≡ true)
push_rx-Holds frame r x h part =
    elim (push_packet_lem r x.hdr x.payload x.gap_before h.valid part.fits part.present) [
      | inl (a, stored) ↦ (
        stored_Holds frame r x h part a (push_rx r x) stored
            (push_packet-IsValid r x.hdr x.payload x.gap_before part.fits h.valid),
        ground (arith, stored.flag x.hdr.packet_id),
        λ j there. ground (arith, stored.flag j),
      )
      | inr (rejected, same) ↦ rw same (h, known rejected, λ j there. there)
    ]
  where
    known : Rejects r x.hdr → has_packet r x.hdr.packet_id ≡ true
    known (inl out) = absurd (omega (arith, h.expected, part.in_range))
    known (inr (inl dup)) =
        unfold has_packet in
        rw
          (lt→leb r.expected_packet_count x.hdr.packet_id
            (omega (arith, h.expected, part.in_range)))
          dup
    known (inr (inr big)) =
        absurd
          (omega (arith, h.room, ap (λ t. x.hdr.packet_id * t) h.stride, part.size, part.in_range))

-- A packet with this number is among them.
abbrev pub Covers : ℕ → List RxPacket → Type 0
Covers i [] = ⊥
Covers i (x ∷ xs) = (x.hdr.packet_id ≡ i) ⊎ Covers i xs

Covers-cons :
    (r s t : FrameReassemblerV2) (x : RxPacket) (xs : List RxPacket)
    → has_packet s x.hdr.packet_id ≡ true
    → ((j : ℕ) → has_packet r j ≡ true → has_packet s j ≡ true)
    → ((i : ℕ) → Covers i xs ⊎ (has_packet s i ≡ true) → has_packet t i ≡ true)
    → (i : ℕ) → Covers i (x ∷ xs) ⊎ (has_packet r i ≡ true)
    → has_packet t i ≡ true
Covers-cons r s t x xs own keep later i (inl (inl mine)) =
    later i (inr (ap (has_packet s) (sym mine) ∙ own))
Covers-cons r s t x xs own keep later i (inl (inr others)) = later i (inl others)
Covers-cons r s t x xs own keep later i (inr there) = later i (inr (keep i there))

Covers-nil : (r : FrameReassemblerV2) (i : ℕ) → ⊥ ⊎ (has_packet r i ≡ true) → has_packet r i ≡ true
Covers-nil r i (inl never) = absurd never
Covers-nil r i (inr there) = there

pub push_all-Holds :
    (frame : List ℕ) (r : FrameReassemblerV2) (xs : List RxPacket)
    → Holds frame r
    → All (IsPart frame) xs
    → Holds frame (push_all r xs)
      × ((i : ℕ) → Covers i xs ⊎ (has_packet r i ≡ true) → has_packet (push_all r xs) i ≡ true)
unfolding push_all
push_all-Holds frame r [] h parts = (h, Covers-nil r)
push_all-Holds frame r (x ∷ xs) h parts =
    let now = push_rx-Holds frame r x h parts.0 in
    let later = push_all-Holds frame (push_rx r x) xs now.0 parts.1 in
    (later.0, Covers-cons r (push_rx r x) (push_all (push_rx r x) xs) x xs now.1 now.2 later.1)

-- With every part there the size is the frame's length, and the buffer begins with the frame.
pub full_Holds :
    (frame : List ℕ) (r : FrameReassemblerV2)
    → Holds frame r
    → ((i : ℕ) → i < packets_of frame → has_packet r i ≡ true)
    → (r.frame_size ≡ length frame) × (take (length frame) r.frame_buffer ≡ frame)
full_Holds frame r h all_there = (size, bytes)
  where
    last : ℕ
    last = packets_of frame - 1

    size : r.frame_size ≡ length frame
    size = elim (dec_lt 0 (length frame)) [
      | yes p ↦ omega (arith, h.size_le, h.size_ge last (all_there last (omega arith)))
      | no p ↦ omega (arith, h.size_le)
    ]

    bytes : take (length frame) r.frame_buffer ≡ frame
    bytes = get_or_ext (take (length frame) r.frame_buffer) frame 0 equal_length λ i lt.
        get_or-take (length frame) r.frame_buffer i 0 (within i lt)
        ∙ h.bytes i (within i lt) (all_there (i / 1400) (in_range i (within i lt)))
      where
        equal_length : length (take (length frame) r.frame_buffer) ≡ length frame
        equal_length =
            omega (arith, length-take (length frame) r.frame_buffer, h.valid.buffer, h.room)

        within : (i : ℕ) → i < length (take (length frame) r.frame_buffer) → i < length frame
        within i lt = omega (arith, equal_length)

        in_range : (i : ℕ) → i < length frame → i / 1400 < packets_of frame
        in_range i lt = omega arith
