-- ===== src/System/End.antt =====
-- How the receiver comes to its end.
use Prim.Native.String.{String}
use hv_frame_test.Base.{
  ◌≡◌, ◌≢◌, refl, ◌∙◌, sym, ap, subst, Bool, true, false, List, [], ◌++◌, ◌⊎◌, inl, inr,
  if◌then◌else◌,
}
use hv_frame_test.Manager.State.{FrameReassemblerManager}
use hv_frame_test.Manager.Flush.{flush_all}
use hv_frame_test.Receiver.Worker.{check_exit}
use hv_frame_test.System.State.{
  System, RxPc, WorkerPc, MainPc, at_head, polling, pushing, rx_finished, ruined, at_pop, in_wait,
  got, at_timers, at_flag, at_queue, leaving, worker_finished, sleeping, joining_rx, joining_worker,
  returned, world,
}
use hv_frame_test.System.Steps.{
  Event, Move, rx_stops, rx_polls, rx_idles, rx_breaks, rx_ignores, rx_takes, rx_ruins, rx_pushes,
  waits, pops, wakes, feeds, skips, polls_timers, goes_on, is_told, checks, flushes, main_sees,
  main_joins_rx, main_joins_worker, Step, moves, signals, Reach, launched, later,
}
use hv_frame_test.System.Channel.{in_hand, accepted_in, fed_in, Reach-fifo}

-- Once the worker has seen the flag it is set, and at its end the manager is empty.
abbrev WorkerStage : WorkerPc → Bool → FrameReassemblerManager → Type 0
WorkerStage at_queue shutdown m = shutdown ≡ true
WorkerStage leaving shutdown m = shutdown ≡ true
WorkerStage worker_finished shutdown m = (shutdown ≡ true) × (m.frames ≡ [])
WorkerStage at_pop shutdown m = Unit
WorkerStage in_wait shutdown m = Unit
WorkerStage (got o) shutdown m = Unit
WorkerStage at_timers shutdown m = Unit
WorkerStage at_flag shutdown m = Unit

-- main joins a thread that has ended.
abbrev MainStage : MainPc → Bool → RxPc → WorkerPc → Type 0
MainStage sleeping shutdown rx pc = Unit
MainStage joining_rx shutdown rx pc = shutdown ≡ true
MainStage joining_worker shutdown rx pc = (shutdown ≡ true) × (rx ≡ rx_finished)
MainStage returned shutdown rx pc = (shutdown ≡ true) × (rx ≡ rx_finished) × (pc ≡ worker_finished)

record Staged (s : System) : Type 0 where
  worker_stage : WorkerStage s.pc s.shutdown s.worker.manager
  main_stage : MainStage s.main s.shutdown s.rx s.pc

-- A thread that moves has not ended.
main_stays :
    (m : MainPc) (shutdown : Bool) (rx rx' : RxPc) (pc pc' : WorkerPc)
    → (rx' ≡ rx) ⊎ (rx ≢ rx_finished)
    → (pc' ≡ pc) ⊎ (pc ≢ worker_finished)
    → MainStage m shutdown rx pc
    → MainStage m shutdown rx' pc'
main_stays sleeping shutdown rx rx' pc pc' r p st = tt
main_stays joining_rx shutdown rx rx' pc pc' r p st = st
main_stays joining_worker shutdown rx rx' pc pc' (inl r) p st = (st.0, r ∙ st.1)
main_stays joining_worker shutdown rx rx' pc pc' (inr r) p st = absurd (r st.1)
main_stays returned shutdown rx rx' pc pc' (inl r) (inl p) st = (st.0, r ∙ st.1, p ∙ st.2)
main_stays returned shutdown rx rx' pc pc' (inl r) (inr p) st = absurd (p st.2)
main_stays returned shutdown rx rx' pc pc' (inr r) p st = absurd (r st.1)

rx_moves : (s : System) (p : RxPc) → s.rx ≢ rx_finished → Staged s → Staged (record s { rx = p })
rx_moves s p ne st = record {
  worker_stage = st.worker_stage;
  main_stage = main_stays s.main s.shutdown s.rx p s.pc s.pc (inr ne) (inl refl) st.main_stage;
}

worker_moves :
    (s t : System)
    → s.pc ≢ worker_finished
    → t.shutdown ≡ s.shutdown
    → t.rx ≡ s.rx
    → t.main ≡ s.main
    → WorkerStage t.pc t.shutdown t.worker.manager
    → Staged s
    → Staged t
worker_moves s t ne sh r m w st = record {
  worker_stage = w;
  main_stage =
      rw (sh, r, m)
        (main_stays s.main s.shutdown s.rx s.rx s.pc t.pc (inl refl) (inr ne) st.main_stage);
}

checked_stage :
    (leaves shutdown : Bool) (m : FrameReassemblerManager)
    → shutdown ≡ true
    → WorkerStage (if leaves then leaving else at_pop) shutdown m
checked_stage true shutdown m e = e
checked_stage false shutdown m e = tt

signalled_worker :
    (p : WorkerPc) (b : Bool) (m : FrameReassemblerManager)
    → WorkerStage p b m
    → WorkerStage p true m
signalled_worker at_queue b m st = refl
signalled_worker leaving b m st = refl
signalled_worker worker_finished b m st = (refl, st.1)
signalled_worker at_pop b m st = tt
signalled_worker in_wait b m st = tt
signalled_worker (got o) b m st = tt
signalled_worker at_timers b m st = tt
signalled_worker at_flag b m st = tt

signalled_main :
    (m : MainPc) (b : Bool) (rx : RxPc) (pc : WorkerPc)
    → MainStage m b rx pc
    → MainStage m true rx pc
signalled_main sleeping b rx pc st = tt
signalled_main joining_rx b rx pc st = refl
signalled_main joining_worker b rx pc st = (refl, st.1)
signalled_main returned b rx pc st = (refl, st.1, st.2)

module _ (can_open : String → Bool) where
  Move-Staged : {s t : System} {e : Event} → Move can_open s e t → Staged s → Staged t
  Move-Staged {s} (rx_stops a b) st = rx_moves s rx_finished (λ e. cc) st
  Move-Staged {s} (rx_polls a b) st = rx_moves s polling (λ e. cc) st
  Move-Staged {s} (rx_idles a) st = rx_moves s at_head (λ e. cc) st
  Move-Staged {s} (rx_breaks a) st = rx_moves s rx_finished (λ e. cc) st
  Move-Staged {s} (rx_ignores bytes a b) st = rx_moves s at_head (λ e. cc) st
  Move-Staged {s} (rx_takes bytes x a b c) st = rx_moves s (pushing x) (λ e. cc) st
  Move-Staged {s} (rx_ruins bytes a b) st = rx_moves s ruined (λ e. cc) st
  Move-Staged {s} (rx_pushes x a) st = record {
    worker_stage = st.worker_stage;
    main_stage = (rx_moves s at_head (λ e. cc) st).main_stage;
  }
  Move-Staged {s} (waits a b) st = worker_moves s _ (λ e. cc) refl refl refl tt st
  Move-Staged {s} (pops a b) st = worker_moves s _ (λ e. cc) refl refl refl tt st
  Move-Staged {s} (wakes a) st = worker_moves s _ (λ e. cc) refl refl refl tt st
  Move-Staged {s} (feeds x now a) st = worker_moves s _ (λ e. cc) refl refl refl tt st
  Move-Staged {s} (skips a) st = worker_moves s _ (λ e. cc) refl refl refl tt st
  Move-Staged {s} (polls_timers now poll_time a) st =
      worker_moves s _ (λ e. cc) refl refl refl tt st
  Move-Staged {s} (goes_on a b) st = worker_moves s _ (λ e. cc) refl refl refl tt st
  Move-Staged {s} (is_told a b) st = worker_moves s _ (λ e. cc) refl refl refl b st
  Move-Staged {s} (checks mark_time check_time a) st =
      worker_moves s _ (λ e. cc) refl refl refl
        (checked_stage (check_exit s.worker (world s) mark_time check_time).1 s.shutdown _
          (subst (λ p. WorkerStage p s.shutdown s.worker.manager) a st.worker_stage))
        st
  Move-Staged {s} (flushes a) st =
      worker_moves s _ (λ e. cc) refl refl refl
        (
          subst (λ p. WorkerStage p s.shutdown s.worker.manager) a st.worker_stage,
          unfold flush_all in refl,
        )
        st
  Move-Staged {s} (main_sees a b) st = record { worker_stage = st.worker_stage; main_stage = b }
  Move-Staged {s} (main_joins_rx a b) st = record {
    worker_stage = st.worker_stage;
    main_stage = (subst (λ m. MainStage m s.shutdown s.rx s.pc) a st.main_stage, b);
  }
  Move-Staged {s} (main_joins_worker a b) st =
      let (on, ended) = subst (λ m. MainStage m s.shutdown s.rx s.pc) a st.main_stage in
      record { worker_stage = st.worker_stage; main_stage = (on, ended, b) }

  Step-Staged : {s t : System} {e : Event} → Step can_open s e t → Staged s → Staged t
  Step-Staged (moves m) st = Move-Staged m st
  Step-Staged {s} signals st = record {
    worker_stage = signalled_worker s.pc s.shutdown s.worker.manager st.worker_stage;
    main_stage = signalled_main s.main s.shutdown s.rx s.pc st.main_stage;
  }

  Reach-Staged : {trace : List Event} {s : System} → Reach can_open trace s → Staged s
  Reach-Staged (launched now) = record { worker_stage = tt; main_stage = tt }
  Reach-Staged (later r st) = Step-Staged st (Reach-Staged r)

  -- When main has returned, the flag is set, both threads have ended, the manager holds no frame,
  -- and the packets that the manager got, followed by those that are left in the queue, are the
  -- packets that the queue took, in order.
  pub returned_lem :
      {trace : List Event} {s : System}
      → Reach can_open trace s
      → s.main ≡ returned
      → (s.shutdown ≡ true)
        × (s.rx ≡ rx_finished)
        × (s.pc ≡ worker_finished)
        × (s.worker.manager.frames ≡ [])
        × (fed_in trace ++ s.queue.q ≡ accepted_in trace)
  returned_lem {trace} {s} r e =
      let st = Reach-Staged r in
      let (on, rx_end, pc_end) = subst (λ m. MainStage m s.shutdown s.rx s.pc) e st.main_stage in
      (
        on,
        rx_end,
        pc_end,
        (subst (λ p. WorkerStage p s.shutdown s.worker.manager) pc_end st.worker_stage).1,
        sym (ap (λ p. fed_in trace ++ (in_hand p ++ s.queue.q)) pc_end) ∙ Reach-fifo can_open r,
      )
