-- ===== src/Delivery/Whole.antt =====
-- A whole frame out of its packets, in a reassembler that starts with the first of them.
use hv_frame_test.Base.{
  ℕ, ◌*◌, ◌/◌, ◌≤◌, ◌<◌, ◌≡◌, refl, ◌∙◌, ap, inl, true, false, List, All, arith, length, take,
  get_or-replicate, length-replicate,
}
use hv_frame_test.Protocol.{RxPacket}
use hv_frame_test.Reassembler.{
  FrameReassemblerV2, init, start_new_frame, has_packet, is_frame_complete,
}
use hv_frame_test.Reassembler.Inv.{start_new_frame-IsValid}
use hv_frame_test.Reassembler.Status.{is_frame_complete_iff}
use hv_frame_test.Reassembler.Sequence.{push_all}
use hv_frame_test.Delivery.Assembly.{packets_of, IsPart, Holds, Covers, push_all-Holds, full_Holds}

-- The reassembler that FrameReassemblerManager makes for a frame's first packet.
abbrev pub fresh : ℕ → ℕ → List ℕ → FrameReassemblerV2
fresh max_frame_size frame_id frame =
    start_new_frame (init max_frame_size 1400) frame_id (packets_of frame)

fresh-Holds :
    (frame : List ℕ) (max_frame_size frame_id : ℕ)
    → length frame ≤ 65535 * 1400
    → length frame ≤ max_frame_size
    → Holds frame (fresh max_frame_size frame_id frame)
fresh-Holds frame max_frame_size frame_id countable room = record {
  valid =
      start_new_frame-IsValid (init max_frame_size 1400) frame_id (packets_of frame) (omega arith)
        (unfold init in length-replicate max_frame_size 0) (unfold init in omega arith);
  stride = unfold start_new_frame init in refl;
  expected = unfold start_new_frame in refl;
  room = unfold start_new_frame init in room;
  bytes = λ k lt there. absurd (nothing (k / 1400) there);
  size_le = unfold start_new_frame in omega arith;
  size_ge = λ i there. absurd (nothing i there);
}
  where
    nothing : (i : ℕ) → has_packet (fresh max_frame_size frame_id frame) i ≡ true → ⊥
    nothing i there =
        unfold has_packet start_new_frame in
        ground (arith, there, get_or-replicate (packets_of frame) i false)

-- A frame of at most 65535 packets that fits the buffer is put together again from its parts. In
-- whatever order they come, and with whatever duplicates: once every packet number is there, the
-- frame is complete, its size is the frame's length, and the buffer holds its bytes.
pub assemble_lem :
    (frame : List ℕ) (max_frame_size frame_id : ℕ) (xs : List RxPacket)
    → length frame ≤ 65535 * 1400
    → length frame ≤ max_frame_size
    → All (IsPart frame) xs
    → ((i : ℕ) → i < packets_of frame → Covers i xs)
    → let r = push_all (fresh max_frame_size frame_id frame) xs in
      (is_frame_complete r ≡ true)
      × (r.frame_size ≡ length frame)
      × (take r.frame_size r.frame_buffer ≡ frame)
assemble_lem frame max_frame_size frame_id xs countable room parts covers =
    (complete, full.0, ap (λ n. take n r.frame_buffer) full.0 ∙ full.1)
  where
    r : FrameReassemblerV2
    r = push_all (fresh max_frame_size frame_id frame) xs

    holds : Holds frame r
    holds =
        (push_all-Holds frame (fresh max_frame_size frame_id frame) xs
          (fresh-Holds frame max_frame_size frame_id countable room) parts).0

    all_there : (i : ℕ) → i < packets_of frame → has_packet r i ≡ true
    all_there i lt =
        (push_all-Holds frame (fresh max_frame_size frame_id frame) xs
            (fresh-Holds frame max_frame_size frame_id countable room) parts).1
          i (inl (covers i lt))

    complete : is_frame_complete r ≡ true
    complete =
        (is_frame_complete_iff r holds.valid).1
          (λ i lt. all_there i (omega (arith, holds.expected)))

    full : (r.frame_size ≡ length frame) × (take (length frame) r.frame_buffer ≡ frame)
    full = full_Holds frame r holds all_there
