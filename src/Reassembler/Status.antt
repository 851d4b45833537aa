-- ===== src/Reassembler/Status.antt =====
-- The status questions of FrameReassemblerV2 against the packets that are there.
use hv_frame_test.Base.{
  ℕ, ◌<◌, ◌≡◌, ◌↔◌, true, not, arith, length, count_true, count_true_full, count_true_of_all,
  count_true-le, lt→leb,
}
use hv_frame_test.FrameResult.{FrameState}
use hv_frame_test.Reassembler.{
  FrameReassemblerV2, is_frame_complete, has_gap, has_packet, make_result, has_corruption,
}
use hv_frame_test.Reassembler.Inv.{IsValid}

-- Every packet of the frame is there.
abbrev pub AllReceived : FrameReassemblerV2 → Type 0
AllReceived r = (i : ℕ) → i < r.expected_packet_count → has_packet r i ≡ true

-- In a valid reassembler the counter test of isFrameComplete says that every packet of the frame is
-- there.
pub is_frame_complete_iff :
    (r : FrameReassemblerV2) → IsValid r → (is_frame_complete r ≡ true) ↔ AllReceived r
unfolding is_frame_complete has_packet
is_frame_complete_iff r v = (to, from)
  where
    to : is_frame_complete r ≡ true → AllReceived r
    to e i h = rw (lt→leb _ _ h) (
        count_true_full r.packet_received (ground (arith, v.counted, v.flags)) i
          (omega (arith, v.flags)))

    from : AllReceived r → is_frame_complete r ≡ true
    from all = ground (arith, v.counted, v.flags, v.clean, full)
      where
        full : count_true r.packet_received ≡ length r.packet_received
        full = count_true_of_all r.packet_received λ i h.
            let h' : i < r.expected_packet_count = omega (arith, v.flags) in
            rw (lt→leb _ _ h') at (all i h')

-- In a valid reassembler a gap is the opposite of a complete frame, and a result's flags say the
-- same.
make_result-flags :
    (r : FrameReassemblerV2) (s : FrameState)
    → IsValid r
    → ((make_result r s).complete ≡ is_frame_complete r)
      × ((make_result r s).corrupted ≡ not (is_frame_complete r))
      × (has_gap r ≡ not (is_frame_complete r))
unfolding make_result is_frame_complete has_gap has_corruption
make_result-flags r s v =
    ground (arith, v.counted, v.flags, v.clean, count_true-le r.packet_received)
