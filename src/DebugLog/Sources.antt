-- ===== src/DebugLog/Sources.antt =====
-- What the receiver writes to the trace: the parts of main_receiver.cpp and
-- frame_reassembler_manager.cpp that DEBUG_LOG_ENABLE turns on.
use hv_frame_test.Base.{
  ℕ, zero, suc, ◌+◌, ◌%◌, List, [], ◌∷◌, length, if◌then◌else◌, u16_mod, u32_mod,
}
use hv_frame_test.Protocol.{UdpPacketHeader, RxPacket}
use hv_frame_test.FrameResult.{FrameState}
use hv_frame_test.Reassembler.{FrameReassemblerV2, has_packet}
use hv_frame_test.Manager.State.{FrameEntry}
use hv_frame_test.DebugLog.{PacketTraceEntry, DebugLog, blank, rx_packet, trace_packet}

-- TRACE_FLAG_GAP.
abbrev trace_flag_gap : ℕ
trace_flag_gap = 1

-- udp_rx_thread, for each packet. Bit 0 of `flags` is TRACE_FLAG_GAP.
pub rx_entry : UdpPacketHeader → PacketTraceEntry
rx_entry h = record {
  seq = 0;
  frame_id = h.frame_id;
  packet_id = h.packet_id;
  packet_count = h.packet_count;
  payload_size = h.payload_size % u16_mod;
  flags = 1;
}

-- What udp_rx_thread logs of a datagram that it queues.
unfoldable log_rx : DebugLog → List ℕ → RxPacket → DebugLog
unfolding rx_entry rx_packet
log_rx l buf pkt = trace_packet (rx_packet l (length buf % u32_mod)) (rx_entry pkt.hdr)

-- pushPacket of the manager, once the reassembler has the packet. `packet_id` is the number of
-- packets that are there.
unfoldable received_entry : FrameReassemblerV2 → UdpPacketHeader → PacketTraceEntry
received_entry fr h = record blank {
  frame_id = fr.current_frame_id;
  packet_id = fr.received_packets_count % u16_mod;
  packet_count = fr.expected_packet_count % u16_mod;
  payload_size = h.payload_size % u16_mod;
  flags = 3;
}

abbrev pub missing_entry : FrameReassemblerV2 → ℕ → PacketTraceEntry
missing_entry fr i = record blank {
  frame_id = fr.current_frame_id;
  packet_id = i;
  packet_count = fr.expected_packet_count % u16_mod;
  flags = 2;
}

-- The loop of emitFrame over the packets of a partial frame, with the number of rounds to go.
unfoldable pub missing_from : FrameReassemblerV2 → ℕ → ℕ → List PacketTraceEntry
missing_from fr zero i = []
missing_from fr (suc n) i =
    let rest = missing_from fr n (i + 1) in
    if has_packet fr i then rest else missing_entry fr i ∷ rest

-- What emitFrame traces.
unfoldable pub emit_trace : FrameEntry → FrameState → List PacketTraceEntry
unfolding missing_from
emit_trace e FrameState.partial_frame =
    missing_from e.reassembler e.reassembler.expected_packet_count 0
emit_trace e FrameState.receiving = []
emit_trace e FrameState.complete_frame = []
emit_trace e FrameState.emitted = []
