-- ===== src/Tests/Passing.antt =====
-- A whole run of the receiver, with one datagram on the way.
use hv_frame_test.Base.{ℕ, ◌≡◌, refl, true, some, List, [], ◌∷◌, ◌++◌, if◌then◌else◌}
use hv_frame_test.Protocol.{RxPacket}
use hv_frame_test.PacketQueue.{make, push, take_from, try_pop, take_front}
use hv_frame_test.Manager.Flush.{flush_all}
use hv_frame_test.Receiver.Rx.{rx_datagram, queued}
use hv_frame_test.Receiver.Fits.{IsBytes}
use hv_frame_test.Receiver.Worker.{start, feed, run_timers, check_exit, mark}
use hv_frame_test.System.State.{
  System, at_head, pushing, rx_finished, at_queue, leaving, at_pop, at_timers, worker_finished,
  returned, world, launch,
}
use hv_frame_test.System.Steps.{
  Event, fed, silent, push_event, popped, rx_polls, rx_takes, rx_pushes, pops, feeds, rx_stops,
  polls_timers, is_told, checks, flushes, main_sees, main_joins_rx, main_joins_worker, moves,
  signals, Reach, launched, later,
}
use hv_frame_test.System.Channel.{accepted_in, fed_in}
use hv_frame_test.Tests.Data.{opens_all}

module _ (x : RxPacket) where
  abbrev took : System
  took = record (launch 0) { rx = pushing x }

  abbrev holding : System
  holding = popped (record took { queue = (push took.queue x).0; rx = at_head })

  -- The worker has it; the signal comes, and the receiving thread stops.
  abbrev stopped : System
  stopped = record holding {
    worker = feed holding.worker (some x) (world holding) 7;
    pc = at_timers;
    shutdown = true;
    rx = rx_finished;
  }

  abbrev timed : System
  timed = record stopped {
    worker = (run_timers opens_all stopped.worker (world stopped) 7 7).0;
    writes = stopped.writes ++ (run_timers opens_all stopped.worker (world stopped) 7 7).1;
    pc = at_queue;
  }

  abbrev outgoing : System
  outgoing = record timed {
    worker = (check_exit timed.worker (world timed) 8 100_000_009).0;
    pc = if (check_exit timed.worker (world timed) 8 100_000_009).1 then leaving else at_pop;
  }

  outgoing_pc : outgoing.pc ≡ leaving
  unfolding run_timers check_exit mark make push take_from try_pop take_front start feed
  outgoing_pc = refl

  abbrev pub ended : System
  ended = record outgoing {
    worker = record outgoing.worker { manager = (flush_all opens_all outgoing.worker.manager).0 };
    writes = outgoing.writes ++ (flush_all opens_all outgoing.worker.manager).1;
    pc = worker_finished;
    main = returned;
  }

  abbrev held_trace : List Event
  held_trace = silent ∷ silent ∷ push_event x (push took.queue x).1 ∷ silent ∷ []

  abbrev out_trace : List Event
  out_trace =
      (((((held_trace ++ fed x ∷ []) ++ silent ∷ []) ++ silent ∷ []) ++ silent ∷ []) ++ silent ∷ [])
      ++ silent ∷ []

  abbrev pub whole_trace : List Event
  whole_trace = (((out_trace ++ silent ∷ []) ++ silent ∷ []) ++ silent ∷ []) ++ silent ∷ []

  pub whole_trace-accepted : accepted_in whole_trace ≡ x ∷ []
  unfolding push make
  whole_trace-accepted = refl

  pub whole_trace-fed : fed_in whole_trace ≡ x ∷ []
  unfolding push make
  whole_trace-fed = refl

module _ (bytes : List ℕ) (x : RxPacket) (is_bytes : IsBytes bytes)
    (arrives : rx_datagram bytes ≡ queued x) where
  Reach-holding : Reach opens_all (held_trace x) (holding x)
  unfolding push make
  Reach-holding =
      later
        (later
          (later (later (launched 0) (moves (rx_polls refl refl)))
            (moves (rx_takes bytes x refl is_bytes arrives)))
          (moves (rx_pushes x refl)))
        (moves (pops refl refl))

  Reach-outgoing : Reach opens_all (out_trace x) (outgoing x)
  unfolding push make take_from try_pop take_front
  Reach-outgoing =
      later
        (later
          (later
            (later (later (later Reach-holding (moves (feeds x 7 refl))) signals)
              (moves (rx_stops refl refl)))
            (moves (polls_timers 7 7 refl)))
          (moves (is_told refl refl)))
        (moves (checks 8 100_000_009 refl))

  pub Reach-ended : Reach opens_all (whole_trace x) (ended x)
  Reach-ended =
      later
        (later
          (later (later Reach-outgoing (moves (flushes (outgoing_pc x))))
            (moves (main_sees refl refl)))
          (moves (main_joins_rx refl refl)))
        (moves (main_joins_worker refl refl))
