-- ===== src/Tests/Receiving.antt =====
-- The receiver's two threads and the queue between them.
use mathlib.Core.List.{Mem}
use hv_frame_test.Base.{
  ℕ, ◌≡◌, ◌∙◌, ap, inl, refl, true, false, [], ◌∷◌, ◌++◌, arith, length, take, All,
}
use hv_frame_test.Protocol.{UdpPacketHeader, RxPacket}
use hv_frame_test.Protocol.Bytes.{encode_packet_header}
use hv_frame_test.Reassembler.Inv.{HeaderFits}
use hv_frame_test.PacketQueue.{World, act_all, take_from, try_pop, take_front, pop_until}
use hv_frame_test.Receiver.Rx.{queued, overrun, rx_datagram}
use hv_frame_test.Receiver.Bounds.{rx_datagram_lem, rx_datagram_overruns}
use hv_frame_test.Receiver.Worker.{Worker, Round, start, turn, work, feed}
use hv_frame_test.Receiver.Exit.{IsDone, IsQuietRound, work_ends}
use hv_frame_test.Base.SortedMap.{find}
use hv_frame_test.Receiver.Files.{IsFull, fed_worker, full_file, turn-IsFull}
use hv_frame_test.Tests.Managing.{
  busy, busy_find, busy_handler, entry, entry_short, entry_size, entry_idle,
}
use hv_frame_test.Tests.Data.{first_header, first-HeaderFits, opens_all}
use hv_frame_test.Tests.Sending.{sevens, length-sevens}

rx_datagram_lem_example :
    (x : RxPacket) × (rx_datagram (encode_packet_header first_header ++ 1 ∷ 2 ∷ 3 ∷ 4 ∷ [])
      ≡ queued x)
    × (x.hdr ≡ first_header)
    × (length x.payload ≡ 1500)
    × (take 4 x.payload ≡ 1 ∷ 2 ∷ 3 ∷ 4 ∷ [])
rx_datagram_lem_example =
    rx_datagram_lem first_header (1 ∷ 2 ∷ 3 ∷ 4 ∷ []) first-HeaderFits (omega arith) refl
      (omega arith)

-- A header that announces a payload of 1600 bytes.
abbrev large : UdpPacketHeader
large = record { frame_id = 7; packet_id = 0; packet_count = 2; payload_size = 1600 }

large-HeaderFits : HeaderFits large
large-HeaderFits = record {
  frame_id_fits = omega arith;
  packet_id_fits = omega arith;
  packet_count_fits = omega arith;
  payload_size_fits = omega arith;
}

rx_datagram_overruns_example : rx_datagram (encode_packet_header large ++ sevens 1600) ≡ overrun
rx_datagram_overruns_example =
    rx_datagram_overruns large (sevens 1600) large-HeaderFits (omega arith) (omega arith)
      (omega (arith, length-sevens 1600))

-- The worker at its start.
abbrev worker : Worker
worker = start 0

-- The world after the signal, with an empty queue, and two rounds 200 ms apart.
abbrev stopping : World RxPacket
stopping = record { queue = record { capacity = 4; q = []; dropped = 0 }; shutdown = true }

abbrev quiet_round : ℕ → Round
quiet_round time = record {
  while_waiting = [];
  before_push = [];
  push_time = time;
  timer_time = time;
  before_timers = [];
  poll_time = time;
  before_check = [];
  before_empty = [];
  after_check = [];
  mark_time = time;
  check_time = time;
}

quiet_round-IsQuietRound : (time : ℕ) → IsQuietRound (quiet_round time)
quiet_round-IsQuietRound time = record {
  waiting = tt;
  pushing = tt;
  polling = tt;
  checking = tt;
  testing = tt;
  leaving = tt;
}

stopping-IsDone : IsDone stopping
stopping-IsDone = record { stopping = refl; drained = refl }

work_ends_example :
    (work opens_all worker stopping (quiet_round 1_000_000 ∷ quiet_round 201_000_000 ∷ [])).leaves
    ≡ true
unfolding start
work_ends_example =
    work_ends opens_all worker stopping (quiet_round 1_000_000) (quiet_round 201_000_000)
      stopping-IsDone (quiet_round-IsQuietRound 1_000_000) (quiet_round-IsQuietRound 201_000_000)
      (omega arith) (omega arith) (omega arith)

-- The manager has one of the two packets of frame 7, and no other packet comes for 30 ms.
abbrev idle_world : World RxPacket
idle_world = record { queue = record { capacity = 4; q = []; dropped = 0 }; shutdown = false }

abbrev holder : Worker
holder = record { manager = busy; last_timer = 1_000; reminder_start = 0 }

fed_holder : fed_worker holder idle_world (quiet_round 30_001_001) ≡ holder
unfolding feed pop_until act_all take_from try_pop take_front
fed_holder = refl

turn-IsFull_example :
    Mem (full_file entry) (turn opens_all holder idle_world (quiet_round 30_001_001)).writes
    × All IsFull (turn opens_all holder idle_world (quiet_round 30_001_001)).writes
turn-IsFull_example =
    turn-IsFull opens_all (λ name. refl) 7 entry entry_short (omega (arith, entry_size)) holder
      idle_world (quiet_round 30_001_001)
      (ap (λ k. k.manager.has_handler) fed_holder ∙ busy_handler)
      (ap (λ k. find 7 k.manager.frames) fed_holder ∙ busy_find) (inl entry_idle) (omega arith)
