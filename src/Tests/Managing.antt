-- ===== src/Tests/Managing.antt =====
-- A manager that has the first of two packets of frame 7.
use mathlib.Core.List.{Mem}
use hv_frame_test.Base.{
  ◌+◌, ◌<◌, ◌≡◌, ◌≢◌, inl, refl, true, false, some, none, List, [], ◌∷◌, arith, take, replicate,
}
use hv_frame_test.Base.SortedMap.{find, emplace, adjust}
use hv_frame_test.Protocol.{RxPacket}
use hv_frame_test.FrameResult.{FrameState, FrameResult}
use hv_frame_test.Reassembler
use hv_frame_test.Reassembler.Inv.{HeaderFits}
use hv_frame_test.Manager.State.{
  FrameReassemblerManager, FrameEntry, init, new_entry, receive, with_entry, push_packet,
}
use hv_frame_test.Manager.Timers.{poll_timers}
use hv_frame_test.Manager.Flush.{flush_all}
use hv_frame_test.Manager.Inv.{IsValid, push_packet-IsValid}
use hv_frame_test.Manager.Ending.{poll_timers_mislabels}
use hv_frame_test.Manager.Flushing.{flush_all_lem}
use hv_frame_test.Manager.Run.{Call, pushes, polls_timers, flushes, run, run-IsValid}
use hv_frame_test.Manager.Apart.{follow_all}
use hv_frame_test.Manager.Results.{own_results, handed_all, results_in, run_machine}
use hv_frame_test.Manager.Tally.{Tallied, run-Tallied}
use hv_frame_test.Tests.Data.{opens_all}

-- A manager with a handler, for frames of 32 bytes in packets of 16.
abbrev idle : FrameReassemblerManager
idle = record (init 32 16) { has_handler = true }

abbrev packet : RxPacket
packet = record {
  hdr = record { frame_id = 7; packet_id = 0; packet_count = 2; payload_size = 16 };
  payload = replicate 16 9;
  gap_before = false;
}

packet-HeaderFits : HeaderFits packet.hdr
packet-HeaderFits = record {
  frame_id_fits = omega arith;
  packet_id_fits = omega arith;
  packet_count_fits = omega arith;
  payload_size_fits = omega arith;
}

idle-IsValid : IsValid idle
unfolding init
idle-IsValid = record { stride_fits = omega arith; sorted = tt; entries = tt }

abbrev pub entry : FrameEntry
entry = receive packet 1000 (new_entry idle packet.hdr 0 1000)

abbrev pub busy : FrameReassemblerManager
busy = push_packet idle packet 0 1000

busy-IsValid : IsValid busy
busy-IsValid = push_packet-IsValid idle idle-IsValid packet 0 1000 packet-HeaderFits

pub busy_find : find 7 busy.frames ≡ some entry
unfolding find push_packet adjust with_entry emplace init
busy_find = refl

pub busy_handler : busy.has_handler ≡ true
unfolding push_packet
busy_handler = refl

entry_received : entry.reassembler.received_packets_count ≡ 1
unfolding receive new_entry Reassembler.push_packet Reassembler.store Reassembler.start_new_frame
    Reassembler.init init
entry_received = refl

entry_expected : entry.reassembler.expected_packet_count ≡ 2
unfolding receive new_entry Reassembler.push_packet Reassembler.store Reassembler.start_new_frame
    Reassembler.init init
entry_expected = refl

pub entry_size : entry.reassembler.frame_size ≡ 16
unfolding receive new_entry Reassembler.push_packet Reassembler.store Reassembler.start_new_frame
    Reassembler.init init
entry_size = refl

entry_time : entry.last_update ≡ 1000
unfolding receive
entry_time = refl

pub entry_short : entry.reassembler.received_packets_count ≢ entry.reassembler.expected_packet_count
entry_short = omega (arith, entry_received, entry_expected)

pub entry_idle : entry.last_update + 30_000_000 < 30_001_001
entry_idle = omega (arith, entry_time)

abbrev calls : List Call
calls = pushes packet 0 1000 ∷ polls_timers 0 40_000_000 ∷ pushes packet 0 50_000_000 ∷ flushes ∷ []

run-IsValid_example : IsValid (run opens_all idle calls)
run-IsValid_example =
    run-IsValid opens_all idle calls (packet-HeaderFits, (tt, (packet-HeaderFits, (tt, tt))))
      idle-IsValid

run_machine_example :
    (find 7 (run opens_all idle calls).frames ≡ follow_all 32 16 7 none calls)
    × (own_results 7 (results_in opens_all calls idle) ≡ handed_all 32 16 7 none calls)
unfolding init find
run_machine_example =
    run_machine opens_all idle 7 calls (packet-HeaderFits, (tt, (packet-HeaderFits, (tt, tt))))
      idle-IsValid refl

run-Tallied_example :
    Tallied idle.stats (run opens_all idle calls).stats (results_in opens_all calls idle)
run-Tallied_example = run-Tallied opens_all calls idle refl

poll_timers_mislabels_example :
    (r : FrameResult) × Mem r (poll_timers busy 0 30_001_001).1
    × (r.frame_id ≡ 7)
    × (r.state ≡ FrameState.complete_frame)
    × (r.complete ≡ false)
poll_timers_mislabels_example =
    poll_timers_mislabels busy 0 30_001_001 7 entry busy-IsValid busy_handler busy_find entry_short
      (inl entry_idle)

flush_all_lem_example :
    ((flush_all opens_all busy).0.frames ≡ [])
    × Mem
        (record {
          name = "received_partial_frame.bin";
          bytes = take entry.reassembler.frame_size entry.reassembler.frame_buffer;
        })
        (flush_all opens_all busy).1
flush_all_lem_example =
    flush_all_lem opens_all busy 7 entry busy_find (omega (arith, entry_received))
      (omega (arith, entry_size)) refl
