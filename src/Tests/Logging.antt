-- ===== src/Tests/Logging.antt =====
-- The debug log's trace and the filter of the log.
use hv_frame_test.Base.{
  ℕ, ◌+◌, ◌<◌, ◌≤◌, ◌≡◌, ◌↔◌, true, false, List, [], ◌∷◌, All, Among, arith, length,
}
use hv_frame_test.Base.Bits.{bit}
use hv_frame_test.FrameResult.{FrameState}
use hv_frame_test.Reassembler.{push_packet, has_packet}
use hv_frame_test.Reassembler.Inv.{push_packet-IsValid}
use hv_frame_test.Manager.State.{FrameEntry}
use hv_frame_test.DebugLog.Sources.{emit_trace}
use hv_frame_test.DebugLog.Missing.{IsMissing, packet_ids, emit_trace_lem}
use hv_frame_test.HvDebug
use hv_frame_test.HvDebug.{debug, info, rank, log, frame_module, rx_module}
use hv_frame_test.HvDebug.Filter.{
  Call, sets_level, enables, disables, run, is_on, last_level, log-run_iff,
}
use hv_frame_test.Receiver.Main.{log_setup}
use hv_frame_test.Receiver.Logging.{log-log_setup}
use hv_frame_test.Tests.Data.{first_header, first-HeaderFits, started, started-IsValid}

-- A frame that lacks the second of two packets.
abbrev partial_entry : FrameEntry
partial_entry = record {
  reassembler = push_packet started first_header (1 ∷ 2 ∷ 3 ∷ 4 ∷ []) false;
  first_packet_time = 0;
  last_update = 0;
  queue_drop_at_start = 0;
}

emit_trace_lem_example :
    (length (emit_trace partial_entry FrameState.partial_frame)
        + partial_entry.reassembler.received_packets_count
      ≡ partial_entry.reassembler.expected_packet_count)
    × All (IsMissing partial_entry.reassembler) (emit_trace partial_entry FrameState.partial_frame)
    × ((k : ℕ)
        → k < partial_entry.reassembler.expected_packet_count
        → has_packet partial_entry.reassembler k ≡ false
        → Among k (packet_ids (emit_trace partial_entry FrameState.partial_frame)))
emit_trace_lem_example = emit_trace_lem partial_entry (
    push_packet-IsValid started first_header (1 ∷ 2 ∷ 3 ∷ 4 ∷ []) false first-HeaderFits
      started-IsValid)

abbrev quiet_calls : List Call
quiet_calls = disables 0xFFFFFFFF ∷ enables frame_module ∷ sets_level debug ∷ []

log-run_iff_example :
    (log (run HvDebug.initial quiet_calls) info rx_module "hello" ≡ "hello" ∷ []) ↔ (
      (rank info ≤ rank (last_level info quiet_calls))
      × ((i : ℕ) × (i < 32) × (bit i rx_module ≡ true) × (is_on i true quiet_calls ≡ true)))
log-run_iff_example =
    log-run_iff quiet_calls info rx_module "hello" (omega arith, (omega arith, (tt, tt)))
      (omega arith)

log-log_setup_example : log log_setup debug 8 "queue" ≡ "queue" ∷ []
log-log_setup_example = log-log_setup debug 8 "queue" (omega arith) (omega arith)
