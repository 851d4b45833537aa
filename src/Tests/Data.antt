-- ===== src/Tests/Data.antt =====
-- The inputs that the tests share: a frame of six bytes in two packets, with a stride of four.
use Prim.Native.String.{String}
use hv_frame_test.Base.{refl, Bool, true, false, [], ◌∷◌, arith}
use hv_frame_test.Protocol.{UdpPacketHeader, RxPacket}
use hv_frame_test.Reassembler.{FrameReassemblerV2, init, start_new_frame}
use hv_frame_test.Reassembler.Inv.{IsValid, HeaderFits, start_new_frame-IsValid}

abbrev pub first_header : UdpPacketHeader
first_header = record { frame_id = 7; packet_id = 0; packet_count = 2; payload_size = 4 }

abbrev pub second_header : UdpPacketHeader
second_header = record { frame_id = 7; packet_id = 1; packet_count = 2; payload_size = 2 }

abbrev pub first_packet : RxPacket
first_packet = record { hdr = first_header; payload = 1 ∷ 2 ∷ 3 ∷ 4 ∷ []; gap_before = false }

abbrev pub second_packet : RxPacket
second_packet = record { hdr = second_header; payload = 5 ∷ 6 ∷ []; gap_before = false }

pub first-HeaderFits : HeaderFits first_header
first-HeaderFits = record {
  frame_id_fits = omega arith;
  packet_id_fits = omega arith;
  packet_count_fits = omega arith;
  payload_size_fits = omega arith;
}

pub second-HeaderFits : HeaderFits second_header
second-HeaderFits = record {
  frame_id_fits = omega arith;
  packet_id_fits = omega arith;
  packet_count_fits = omega arith;
  payload_size_fits = omega arith;
}

-- A reassembler of eight bytes that waits for the two packets.
abbrev pub started : FrameReassemblerV2
started = start_new_frame (init 8 4) 7 2

pub started-IsValid : IsValid started
unfolding init
started-IsValid = start_new_frame-IsValid (init 8 4) 7 2 (omega arith) refl (omega arith)

-- Every file can be opened.
abbrev pub opens_all : String → Bool
opens_all name = true
