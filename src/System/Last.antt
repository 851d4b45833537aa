-- ===== src/System/Last.antt =====
-- How much the receiver can leave in the queue.
use Prim.Native.String.{String}
use hv_frame_test.Base.{
  ℕ, ◌+◌, ◌≤◌, ◌≡◌, refl, ap, subst, Bool, true, false, List, [], ◌∷◌, ◌++◌, arith, length,
  length-append, if◌then◌else◌, inl, inr,
}
use hv_frame_test.Protocol.{RxPacket}
use hv_frame_test.PacketQueue.{PacketQueue, push}
use hv_frame_test.PacketQueue.Fifo.{push_lem}
use hv_frame_test.Receiver.Worker.{check_exit}
use hv_frame_test.Receiver.Exit.{check_exit-IsDone}
use hv_frame_test.System.State.{
  System, RxPc, WorkerPc, at_head, polling, pushing, rx_finished, ruined, at_pop, in_wait, got,
  at_timers, at_flag, at_queue, leaving, worker_finished, returned, world,
}
use hv_frame_test.System.Steps.{
  Event, Move, rx_stops, rx_polls, rx_idles, rx_breaks, rx_ignores, rx_takes, rx_ruins, rx_pushes,
  waits, pops, wakes, feeds, skips, polls_timers, goes_on, is_told, checks, flushes, main_sees,
  main_joins_rx, main_joins_worker, Step, moves, signals, Reach, launched, later,
}
use hv_frame_test.System.Channel.{accepted_in, fed_in}
use hv_frame_test.System.End.{returned_lem}

-- How many packets the receiving thread may still push once the flag is set.
abbrev may_push : RxPc → ℕ
may_push at_head = 0
may_push polling = 1
may_push (pushing x) = 1
may_push rx_finished = 0
may_push ruined = 0

may_push-le : (p : RxPc) → may_push p ≤ 1
may_push-le at_head = omega arith
may_push-le polling = omega arith
may_push-le (pushing x) = omega arith
may_push-le rx_finished = omega arith
may_push-le ruined = omega arith

-- Behind its last look at the queue the worker leaves one packet at most.
abbrev AtMostOne : WorkerPc → Bool → RxPc → List RxPacket → Type 0
AtMostOne leaving shutdown rx q = (shutdown ≡ true) × (may_push rx + length q ≤ 1)
AtMostOne worker_finished shutdown rx q = (shutdown ≡ true) × (may_push rx + length q ≤ 1)
AtMostOne at_pop shutdown rx q = Unit
AtMostOne in_wait shutdown rx q = Unit
AtMostOne (got o) shutdown rx q = Unit
AtMostOne at_timers shutdown rx q = Unit
AtMostOne at_flag shutdown rx q = Unit
AtMostOne at_queue shutdown rx q = Unit

abbrev Leaves : System → Type 0
Leaves s = AtMostOne s.pc s.shutdown s.rx s.queue.q

-- The receiving thread, or the signal handler, moves.
others_move :
    (p : WorkerPc) (shutdown shutdown' : Bool) (rx rx' : RxPc) (q q' : List RxPacket)
    → (shutdown ≡ true → shutdown' ≡ true)
    → (shutdown ≡ true → may_push rx' + length q' ≤ may_push rx + length q)
    → AtMostOne p shutdown rx q
    → AtMostOne p shutdown' rx' q'
others_move leaving sh sh' rx rx' q q' on le (e, h) = (on e, omega (arith, le e))
others_move worker_finished sh sh' rx rx' q q' on le (e, h) = (on e, omega (arith, le e))
others_move at_pop sh sh' rx rx' q q' on le h = tt
others_move in_wait sh sh' rx rx' q q' on le h = tt
others_move (got o) sh sh' rx rx' q q' on le h = tt
others_move at_timers sh sh' rx rx' q q' on le h = tt
others_move at_flag sh sh' rx rx' q q' on le h = tt
others_move at_queue sh sh' rx rx' q q' on le h = tt

rx_moves :
    (s : System) (p : RxPc)
    → (s.shutdown ≡ true → may_push p ≤ may_push s.rx)
    → Leaves s
    → Leaves (record s { rx = p })
rx_moves s p le h =
    others_move s.pc s.shutdown s.shutdown s.rx p s.queue.q s.queue.q (λ e. e)
      (λ e. omega (arith, le e)) h

length-push : (q : PacketQueue RxPacket) (x : RxPacket) → length (push q x).0.q ≤ length q.q + 1
length-push q x = elim (push_lem q x) [
  | inl (_, e) ↦ rw e (omega (arith, length-append q.q (x ∷ [])))
  | inr (_, e) ↦ rw e (omega arith)
]

checked-AtMostOne :
    (leaves shutdown : Bool) (rx : RxPc) (q : List RxPacket)
    → (leaves ≡ true → (shutdown ≡ true) × (q ≡ []))
    → AtMostOne (if leaves then leaving else at_pop) shutdown rx q
checked-AtMostOne true shutdown rx q h =
    ((h refl).0, omega (arith, may_push-le rx, ap length (h refl).1))
checked-AtMostOne false shutdown rx q h = tt

module _ (can_open : String → Bool) where
  Move-Leaves : {s t : System} {e : Event} → Move can_open s e t → Leaves s → Leaves t
  Move-Leaves {s} (rx_stops a b) h = rx_moves s rx_finished (λ e. omega arith) h
  Move-Leaves {s} (rx_polls a b) h = rx_moves s polling (λ e. absurd (cc)) h
  Move-Leaves {s} (rx_idles a) h = rx_moves s at_head (λ e. omega arith) h
  Move-Leaves {s} (rx_breaks a) h = rx_moves s rx_finished (λ e. omega arith) h
  Move-Leaves {s} (rx_ignores bytes a b) h = rx_moves s at_head (λ e. omega arith) h
  Move-Leaves {s} (rx_takes bytes x a b c) h =
      rx_moves s (pushing x) (λ e. omega (arith, ap may_push a)) h
  Move-Leaves {s} (rx_ruins bytes a b) h = rx_moves s ruined (λ e. omega arith) h
  Move-Leaves {s} (rx_pushes x a) h =
      others_move s.pc s.shutdown s.shutdown s.rx at_head s.queue.q (push s.queue x).0.q (λ e. e)
        (λ e. omega (arith, ap may_push a, length-push s.queue x)) h
  Move-Leaves (waits a b) h = tt
  Move-Leaves (pops a b) h = tt
  Move-Leaves (wakes a) h = tt
  Move-Leaves (feeds x now a) h = tt
  Move-Leaves (skips a) h = tt
  Move-Leaves (polls_timers now poll_time a) h = tt
  Move-Leaves (goes_on a b) h = tt
  Move-Leaves (is_told a b) h = tt
  Move-Leaves {s} (checks mark_time check_time a) h =
      checked-AtMostOne (check_exit s.worker (world s) mark_time check_time).1 s.shutdown s.rx
        s.queue.q
        (λ e.
          let d = check_exit-IsDone s.worker (world s) mark_time check_time e in
          (d.stopping, d.drained))
  Move-Leaves {s} (flushes a) h = subst (λ p. AtMostOne p s.shutdown s.rx s.queue.q) a h
  Move-Leaves (main_sees a b) h = h
  Move-Leaves (main_joins_rx a b) h = h
  Move-Leaves (main_joins_worker a b) h = h

  Step-Leaves : {s t : System} {e : Event} → Step can_open s e t → Leaves s → Leaves t
  Step-Leaves (moves m) h = Move-Leaves m h
  Step-Leaves {s} signals h =
      others_move s.pc s.shutdown true s.rx s.rx s.queue.q s.queue.q (λ e. refl) (λ e. omega arith)
        h

  Reach-Leaves : {trace : List Event} {s : System} → Reach can_open trace s → Leaves s
  Reach-Leaves (launched now) = tt
  Reach-Leaves (later r st) = Step-Leaves st (Reach-Leaves r)

  pub left_few :
      {trace : List Event} {s : System}
      → Reach can_open trace s
      → s.main ≡ returned
      → length s.queue.q ≤ 1
  left_few {s = s} r e =
      let (_, _, pc_end, _, _) = returned_lem can_open r e in
      let (_, few) = subst (λ p. AtMostOne p s.shutdown s.rx s.queue.q) pc_end (Reach-Leaves r) in
      omega arith

  -- When main has returned, the manager has got every packet that the queue took, in order, but for
  -- one at the end at most: however the threads are interleaved, no more than one can be stranded
  -- in the queue.
  pub all_but_one :
      {trace : List Event} {s : System}
      → Reach can_open trace s
      → s.main ≡ returned
      → (last : List RxPacket) × (length last ≤ 1) × (fed_in trace ++ last ≡ accepted_in trace)
  all_but_one {s = s} r e =
      let (_, _, _, _, all) = returned_lem can_open r e in (s.queue.q, left_few r e, all)
