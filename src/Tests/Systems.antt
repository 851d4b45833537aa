-- ===== src/Tests/Systems.antt =====
-- The receiver's threads as one system: a packet on its way, and a way to the end.
use hv_frame_test.Base.{
  ℕ, ◌+◌, ◌*◌, ◌≤◌, ◌⊎◌, ◌<◌, ◌≡◌, refl, true, some, List, [], ◌∷◌, ◌++◌, All, arith, length,
  if◌then◌else◌,
}
use hv_frame_test.Protocol.{RxPacket}
use hv_frame_test.Protocol.Bytes.{encode_packet_header}
use hv_frame_test.PacketQueue.{make, push, take_from, try_pop, take_front}
use hv_frame_test.Manager.Flush.{flush_all}
use hv_frame_test.Receiver.Rx.{rx_datagram, queued}
use hv_frame_test.Receiver.Bounds.{rx_datagram_lem}
use hv_frame_test.Receiver.Fits.{IsBytes}
use hv_frame_test.Receiver.Worker.{start, feed, run_timers, check_exit, mark}
use hv_frame_test.System.State.{
  System, at_head, polling, pushing, rx_finished, at_pop, at_timers, at_flag, at_queue, leaving,
  worker_finished, ruined, returned, world, launch,
}
use hv_frame_test.System.Steps.{
  Event, accepted, fed, silent, push_event, popped, Move, rx_stops, rx_polls, rx_idles, rx_takes,
  rx_pushes, pops, feeds, skips, polls_timers, is_told, checks, flushes, main_sees, main_joins_rx,
  main_joins_worker, moves, signals, Reach, launched, later, Way, here, and_then,
}
use hv_frame_test.System.Channel.{
  ChannelStep, underway, accepted_in, fed_in, Step-Channel, Reach-fifo,
}
use hv_frame_test.Manager.Run.{Call, CallFits, run, pushed_in}
use hv_frame_test.System.Calls.{Reach-run}
use hv_frame_test.Receiver.Outputs.{written_in}
use hv_frame_test.System.Safe.{QueueSafe, Reach-QueueSafe}
use hv_frame_test.System.Fits.{Sound, Reach-Sound}
use hv_frame_test.System.End.{returned_lem}
use hv_frame_test.System.Late.{stranded}
use hv_frame_test.System.Ending.{moves_in, CanMove, must_end}
use hv_frame_test.Tests.Data.{second_header, second-HeaderFits, opens_all}

abbrev pub datagram : List ℕ
datagram = encode_packet_header second_header ++ 5 ∷ 6 ∷ []

pub datagram-IsBytes : IsBytes datagram
unfolding encode_packet_header
datagram-IsBytes = ground arith

-- The packet that the receiving thread makes of it.
pub arrival :
    (x : RxPacket) × (rx_datagram datagram ≡ queued x)
    × (x.hdr ≡ second_header)
    × (length x.payload ≡ 1500)
arrival =
    let r =
      rx_datagram_lem second_header (5 ∷ 6 ∷ []) second-HeaderFits (omega arith) refl
        (omega arith) in
    (r.0, r.1, r.2, r.3)

abbrev pub x : RxPacket
x = arrival.0

-- The receiving thread takes the datagram and pushes its packet; the worker pops it.
abbrev polls : System
polls = record (launch 0) { rx = polling }

abbrev takes : System
takes = record polls { rx = pushing x }

abbrev pushed : System
pushed = record takes { queue = (push takes.queue x).0; rx = at_head }

abbrev pub holding : System
holding = popped pushed

pushed_event : push_event x (push takes.queue x).1 ≡ accepted x
unfolding push make
pushed_event = refl

abbrev pub trace : List Event
trace = silent ∷ silent ∷ push_event x (push takes.queue x).1 ∷ silent ∷ []

pub Reach-holding : Reach opens_all trace holding
unfolding push make
Reach-holding =
    later
      (later
        (later (later (launched 0) (moves (rx_polls refl refl)))
          (moves (rx_takes datagram x refl datagram-IsBytes arrival.1)))
        (moves (rx_pushes x refl)))
      (moves (pops refl refl))

abbrev pub fed_state : System
fed_state = record holding {
  worker = feed holding.worker (some x) (world holding) 7;
  pc = at_timers;
}

pub feeds-Move : Move opens_all holding (fed x) fed_state
unfolding push make take_from try_pop take_front
feeds-Move = feeds x 7 refl

Step-Channel_example :
    ChannelStep holding.queue.capacity (underway holding) (fed x) (underway fed_state)
Step-Channel_example = Step-Channel opens_all (moves feeds-Move)

Reach-fifo_example : fed_in trace ++ underway holding ≡ accepted_in trace
Reach-fifo_example = Reach-fifo opens_all Reach-holding

Reach-run_example :
    (cs : List Call) × (fed_state.worker.manager ≡ run opens_all (start 0).manager cs)
    × (pushed_in cs ≡ fed_in (trace ++ fed x ∷ []))
    × (fed_state.writes ≡ written_in opens_all cs (start 0).manager)
    × All CallFits cs
Reach-run_example = Reach-run opens_all (later Reach-holding (moves feeds-Move))

Reach-QueueSafe_example : QueueSafe trace holding.queue
Reach-QueueSafe_example = Reach-QueueSafe opens_all Reach-holding

Reach-Sound_example : Sound holding
Reach-Sound_example = Reach-Sound opens_all Reach-holding

-- The signal comes while the receiving thread waits in poll; the worker finds nothing to do.
abbrev told : System
told = record polls { shutdown = true }

abbrev timed : System
timed = record (popped told) { pc = at_timers }

abbrev flagged : System
flagged = record timed {
  worker = (run_timers opens_all timed.worker (world timed) 0 0).0;
  writes = timed.writes ++ (run_timers opens_all timed.worker (world timed) 0 0).1;
  pc = at_flag;
}

abbrev asks : System
asks = record flagged { pc = at_queue }

abbrev outgoing : System
outgoing = record asks {
  worker = (check_exit asks.worker (world asks) 1 100_000_002).0;
  pc = if (check_exit asks.worker (world asks) 1 100_000_002).1 then leaving else at_pop;
}

outgoing_pc : outgoing.pc ≡ leaving
unfolding run_timers check_exit mark make take_from try_pop take_front start
outgoing_pc = refl

Reach-outgoing :
    Reach opens_all (silent ∷ silent ∷ silent ∷ silent ∷ silent ∷ silent ∷ silent ∷ []) outgoing
unfolding make take_from try_pop take_front
Reach-outgoing =
    later
      (later
        (later
          (later
            (later (later (later (launched 0) (moves (rx_polls refl refl))) signals)
              (moves (pops refl refl)))
            (moves (skips refl)))
          (moves (polls_timers 0 0 refl)))
        (moves (is_told refl refl)))
      (moves (checks 1 100_000_002 refl))

outgoing_room : length outgoing.queue.q < outgoing.queue.capacity
unfolding make take_from try_pop take_front
outgoing_room = omega arith

stranded_example :
    (trace' : List Event) × (t : System) × Reach opens_all trace' t
    × (t.main ≡ returned)
    × (t.queue.q ≡ outgoing.queue.q ++ x ∷ [])
stranded_example =
    stranded opens_all (silent ∷ silent ∷ silent ∷ silent ∷ silent ∷ silent ∷ silent ∷ []) outgoing
      datagram x Reach-outgoing refl outgoing_pc refl refl outgoing_room datagram-IsBytes arrival.1

-- A worker whose reminder is set, and which looks at the clock more than 100 ms later.
abbrev reminded : System
reminded = record asks { worker = record asks.worker { reminder_start = 1 } }

abbrev patient : System
patient = record reminded {
  worker = (check_exit reminded.worker (world reminded) 90_000_000 100_000_002).0;
  pc =
      if (check_exit reminded.worker (world reminded) 90_000_000 100_000_002).1
      then leaving
      else at_pop;
}

patient_pc : patient.pc ≡ leaving
unfolding check_exit mark make take_from try_pop take_front
patient_pc = refl

abbrev flushed : System
flushed = record patient {
  worker = record patient.worker { manager = (flush_all opens_all patient.worker.manager).0 };
  writes = patient.writes ++ (flush_all opens_all patient.worker.manager).1;
  pc = worker_finished;
}

abbrev way_out : Way opens_all reminded (([] ++ silent ∷ []) ++ silent ∷ []) flushed
way_out =
    and_then (and_then here (moves (checks 90_000_000 100_000_002 refl)))
      (moves (flushes patient_pc))

must_end_example :
    (moves_in opens_all way_out ≤ 17 + 5 * length reminded.queue.q)
    × ((flushed.rx ≡ ruined) ⊎ (flushed.main ≡ returned) ⊎ CanMove opens_all flushed)
must_end_example = must_end opens_all way_out refl (omega arith) ((tt, omega arith), tt)

-- From there to the end, with nothing more from the socket.
abbrev ended : System
ended = record outgoing {
  rx = rx_finished;
  worker = record outgoing.worker { manager = (flush_all opens_all outgoing.worker.manager).0 };
  writes = outgoing.writes ++ (flush_all opens_all outgoing.worker.manager).1;
  pc = worker_finished;
  main = returned;
}

abbrev whole_trace : List Event
whole_trace =
    (silent ∷ silent ∷ silent ∷ silent ∷ silent ∷ silent ∷ silent ∷ [])
    ++ silent ∷ silent ∷ silent ∷ silent ∷ silent ∷ silent ∷ []

Reach-ended : Reach opens_all whole_trace ended
Reach-ended =
    later
      (later
        (later
          (later (later (later Reach-outgoing (moves (rx_idles refl))) (moves (rx_stops refl refl)))
            (moves (flushes outgoing_pc)))
          (moves (main_sees refl refl)))
        (moves (main_joins_rx refl refl)))
      (moves (main_joins_worker refl refl))

returned_lem_example :
    (ended.shutdown ≡ true)
    × (ended.rx ≡ rx_finished)
    × (ended.pc ≡ worker_finished)
    × (ended.worker.manager.frames ≡ [])
    × (fed_in whole_trace ++ ended.queue.q ≡ accepted_in whole_trace)
returned_lem_example = returned_lem opens_all Reach-ended refl
