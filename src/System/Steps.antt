-- ===== src/System/Steps.antt =====
-- The moves of the threads, and the runs that they make.
use Prim.Native.String.{String}
use hv_frame_test.Base.{ℕ, ◌≡◌, Bool, true, false, some, none, List, [], ◌∷◌, ◌++◌, if◌then◌else◌}
use hv_frame_test.Protocol.{RxPacket}
use hv_frame_test.PacketQueue.{push, must_wait, take_from}
use hv_frame_test.Manager.Flush.{flush_all}
use hv_frame_test.Receiver.Rx.{ignored, queued, overrun, rx_datagram}
use hv_frame_test.Receiver.Fits.{IsBytes}
use hv_frame_test.Receiver.Worker.{feed, run_timers, check_exit}
use hv_frame_test.System.State.{
  System, at_head, polling, pushing, rx_finished, ruined, at_pop, in_wait, got, at_timers, at_flag,
  at_queue, leaving, worker_finished, sleeping, joining_rx, joining_worker, returned, world, launch,
}

-- A packet that the queue takes or drops, one that the manager gets, or nothing of the kind.
pub data Event : Type 0 where
  accepted refused fed : RxPacket → Event
  silent : Event

abbrev pub push_event : RxPacket → Bool → Event
push_event x true = accepted x
push_event x false = refused x

-- The end of pop_until.
abbrev pub popped : System → System
popped s = record s { queue = (take_from (world s)).0.queue; pc = got (take_from (world s)).1 }

-- One move of a thread, a call on the queue or a reading of the flag at a time.
pub data Move (can_open : String → Bool) (s : System) : Event → System → Type 0 where
  rx_stops :
      s.rx ≡ at_head → s.shutdown ≡ true → Move can_open s silent (record s { rx = rx_finished })
  rx_polls :
      s.rx ≡ at_head → s.shutdown ≡ false → Move can_open s silent (record s { rx = polling })
  -- poll has run out of time or met a signal, an event that is not POLLIN, or an error of recvfrom
  rx_idles : s.rx ≡ polling → Move can_open s silent (record s { rx = at_head })
  -- another error of poll
  rx_breaks : s.rx ≡ polling → Move can_open s silent (record s { rx = rx_finished })
  rx_ignores :
      (bytes : List ℕ)
      → s.rx ≡ polling
      → rx_datagram bytes ≡ ignored
      → Move can_open s silent (record s { rx = at_head })
  rx_takes :
      (bytes : List ℕ) (x : RxPacket)
      → s.rx ≡ polling
      → IsBytes bytes
      → rx_datagram bytes ≡ queued x
      → Move can_open s silent (record s { rx = pushing x })
  rx_ruins :
      (bytes : List ℕ)
      → s.rx ≡ polling
      → rx_datagram bytes ≡ overrun
      → Move can_open s silent (record s { rx = ruined })
  rx_pushes :
      (x : RxPacket)
      → s.rx ≡ pushing x
      → Move can_open s
          (push_event x (push s.queue x).1)
          (record s { queue = (push s.queue x).0; rx = at_head })
  waits :
      s.pc ≡ at_pop
      → must_wait (world s) ≡ true
      → Move can_open s silent (record s { pc = in_wait })
  pops : s.pc ≡ at_pop → must_wait (world s) ≡ false → Move can_open s silent (popped s)
  -- notified, at the end of the time, or for no reason
  wakes : s.pc ≡ in_wait → Move can_open s silent (popped s)
  feeds :
      (x : RxPacket) (now : ℕ)
      → s.pc ≡ got (some x)
      → Move can_open s
          (fed x)
          (record s { worker = feed s.worker (some x) (world s) now; pc = at_timers })
  skips : s.pc ≡ got none → Move can_open s silent (record s { pc = at_timers })
  polls_timers :
      (now poll_time : ℕ)
      → s.pc ≡ at_timers
      → Move can_open s silent (record s {
        worker = (run_timers can_open s.worker (world s) now poll_time).0;
        writes = s.writes ++ (run_timers can_open s.worker (world s) now poll_time).1;
        pc = at_flag;
      })
  goes_on : s.pc ≡ at_flag → s.shutdown ≡ false → Move can_open s silent (record s { pc = at_pop })
  is_told : s.pc ≡ at_flag → s.shutdown ≡ true → Move can_open s silent (record s { pc = at_queue })
  checks :
      (mark_time check_time : ℕ)
      → s.pc ≡ at_queue
      → Move can_open s silent (record s {
        worker = (check_exit s.worker (world s) mark_time check_time).0;
        pc = if (check_exit s.worker (world s) mark_time check_time).1 then leaving else at_pop;
      })
  flushes :
      s.pc ≡ leaving
      → Move can_open s silent (record s {
        worker = record s.worker { manager = (flush_all can_open s.worker.manager).0 };
        writes = s.writes ++ (flush_all can_open s.worker.manager).1;
        pc = worker_finished;
      })
  main_sees :
      s.main ≡ sleeping
      → s.shutdown ≡ true
      → Move can_open s silent (record s { main = joining_rx })
  main_joins_rx :
      s.main ≡ joining_rx
      → s.rx ≡ rx_finished
      → Move can_open s silent (record s { main = joining_worker })
  main_joins_worker :
      s.main ≡ joining_worker
      → s.pc ≡ worker_finished
      → Move can_open s silent (record s { main = returned })

-- A thread moves, or the signal handler sets the flag.
pub data Step (can_open : String → Bool) (s : System) : Event → System → Type 0 where
  moves : {e : Event} {t : System} → Move can_open s e t → Step can_open s e t
  signals : Step can_open s silent (record s { shutdown = true })

-- The states that the program reaches, with the events on the way, in order.
pub data Reach (can_open : String → Bool) : List Event → System → Type 0 where
  launched : (now : ℕ) → Reach can_open [] (launch now)
  later :
      {trace : List Event} {e : Event} {s t : System}
      → Reach can_open trace s
      → Step can_open s e t
      → Reach can_open (trace ++ e ∷ []) t

-- A way from one state to another, with the events on it, in order.
pub data Way (can_open : String → Bool) (s : System) : List Event → System → Type 0 where
  here : Way can_open s [] s
  and_then :
      {es : List Event} {e : Event} {t u : System}
      → Way can_open s es t
      → Step can_open t e u
      → Way can_open s (es ++ e ∷ []) u
