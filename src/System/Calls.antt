-- ===== src/System/Calls.antt =====
-- The manager that the threads work on, as a sequence of calls of its methods.
use Prim.Native.String.{String}
use mathlib.Core.List.{append-nil, append_assoc}
use hv_frame_test.Base.{
  ℕ, ◌+◌, ◌≡◌, refl, ◌∙◌, sym, ap, ap₂, Bool, true, false, List, [], ◌∷◌, ◌++◌, ◌⊎◌, inl, inr, leb,
  subst, All, All-snoc, Bool-cases,
}
use hv_frame_test.Protocol.{RxPacket}
use hv_frame_test.PacketQueue.{World, push}
use hv_frame_test.Manager.State.{FrameReassemblerManager}
use hv_frame_test.Manager.Run.{
  Call, pushes, polls_timers, flushes, step, run, CallFits, pushed_by, pushed_in,
}
use hv_frame_test.Receiver.Worker.{Worker, start, feed, run_timers}
use hv_frame_test.Receiver.Sound.{check_exit-manager}
use hv_frame_test.System.State.{System, world}
use hv_frame_test.System.Steps.{
  Event, silent, push_event, Move, rx_stops, rx_polls, rx_idles, rx_breaks, rx_ignores, rx_takes,
  rx_ruins, rx_pushes, waits, pops, wakes, feeds, skips, polls_timers, goes_on, is_told, checks,
  flushes, main_sees, main_joins_rx, main_joins_worker, Step, moves, signals, Reach, launched,
  later,
}
use hv_frame_test.System.Channel.{in_hand, fed_by, fed_in, fed_in-snoc}
use hv_frame_test.System.Fits.{Sound, AllFit, Reach-Sound}
use hv_frame_test.Writer.{FileWrite}
use hv_frame_test.Receiver.Outputs.{written_by, written_in}

pushed_in-snoc :
    (cs : List Call) (c : Call) → pushed_in (cs ++ c ∷ []) ≡ pushed_in cs ++ pushed_by c
pushed_in-snoc [] c = append-nil (pushed_by c)
pushed_in-snoc (d ∷ cs) c =
    ap (λ l. pushed_by d ++ l) (pushed_in-snoc cs c)
    ∙ sym (append_assoc (pushed_by d) (pushed_in cs) (pushed_by c))

push_event-fed : (x : RxPacket) (b : Bool) → fed_by (push_event x b) ≡ []
push_event-fed x true = refl
push_event-fed x false = refl

module _ (can_open : String → Bool) where
  -- A move leaves the manager and the files as they are, or calls one method.
  Calls :
      FrameReassemblerManager
      → List FileWrite
      → Event
      → FrameReassemblerManager
      → List FileWrite
      → Type 0
  Calls m ws e m' ws' =
      ((m' ≡ m) × (fed_by e ≡ []) × (ws' ≡ ws))
      ⊎ ((c : Call) × (m' ≡ step can_open m c)
          × (pushed_by c ≡ fed_by e)
          × (ws' ≡ ws ++ written_by can_open m c)
          × CallFits c)

  timers-Calls :
      (k : Worker) (w : World RxPacket) (ws : List FileWrite) (now poll_time : ℕ)
      → let (k', new) = run_timers can_open k w now poll_time in
        Calls k.manager ws silent k'.manager (ws ++ new)
  unfolding Calls run_timers step
  timers-Calls k w ws now poll_time = elim (Bool-cases (leb (k.last_timer + 5_000_000) now)) [
    | inl e ↦ rw e (inr (polls_timers w.queue.dropped poll_time, refl, refl, refl, tt))
    | inr e ↦ rw e (inl (refl, refl, append-nil ws))
  ]

  Move-Calls :
      {s t : System} {e : Event}
      → Move can_open s e t
      → Sound s
      → Calls s.worker.manager s.writes e t.worker.manager t.writes
  unfolding Calls feed step
  Move-Calls (rx_stops a b) v = inl (refl, refl, refl)
  Move-Calls (rx_polls a b) v = inl (refl, refl, refl)
  Move-Calls (rx_idles a) v = inl (refl, refl, refl)
  Move-Calls (rx_breaks a) v = inl (refl, refl, refl)
  Move-Calls (rx_ignores bytes a b) v = inl (refl, refl, refl)
  Move-Calls (rx_takes bytes x a b c) v = inl (refl, refl, refl)
  Move-Calls (rx_ruins bytes a b) v = inl (refl, refl, refl)
  Move-Calls {s} (rx_pushes x a) v = inl (refl, push_event-fed x (push s.queue x).1, refl)
  Move-Calls (waits a b) v = inl (refl, refl, refl)
  Move-Calls (pops a b) v = inl (refl, refl, refl)
  Move-Calls (wakes a) v = inl (refl, refl, refl)
  Move-Calls {s} (feeds x now a) v = inr (
    pushes x s.queue.dropped now,
    refl,
    refl,
    sym (append-nil s.writes),
    (subst (λ p. AllFit (in_hand p)) a v.in_hand_fits).0,
  )
  Move-Calls (skips a) v = inl (refl, refl, refl)
  Move-Calls {s} (polls_timers now poll_time a) v =
      timers-Calls s.worker (world s) s.writes now poll_time
  Move-Calls (goes_on a b) v = inl (refl, refl, refl)
  Move-Calls (is_told a b) v = inl (refl, refl, refl)
  Move-Calls {s} (checks mark_time check_time a) v =
      inl (check_exit-manager can_open s.worker (world s) mark_time check_time, refl, refl)
  Move-Calls (flushes a) v = inr (Call.flushes, refl, refl, refl, tt)
  Move-Calls (main_sees a b) v = inl (refl, refl, refl)
  Move-Calls (main_joins_rx a b) v = inl (refl, refl, refl)
  Move-Calls (main_joins_worker a b) v = inl (refl, refl, refl)

  Step-Calls :
      {s t : System} {e : Event}
      → Step can_open s e t
      → Sound s
      → Calls s.worker.manager s.writes e t.worker.manager t.writes
  Step-Calls (moves m) v = Move-Calls m v
  Step-Calls signals v = unfold Calls in inl (refl, refl, refl)

  run-snoc :
      (cs : List Call) (m : FrameReassemblerManager) (c : Call)
      → run can_open m (cs ++ c ∷ []) ≡ step can_open (run can_open m cs) c
  unfolding run
  run-snoc [] m c = refl
  run-snoc (d ∷ cs) m c = run-snoc cs (step can_open m d) c

  written_in-snoc :
      (cs : List Call) (m : FrameReassemblerManager) (c : Call)
      → written_in can_open (cs ++ c ∷ []) m
        ≡ written_in can_open cs m ++ written_by can_open (run can_open m cs) c
  unfolding run written_in
  written_in-snoc [] m c = append-nil (written_by can_open m c)
  written_in-snoc (d ∷ cs) m c =
      ap (λ l. written_by can_open m d ++ l) (written_in-snoc cs (step can_open m d) c)
      ∙ sym (append_assoc (written_by can_open m d) _ _)

  -- What the calls make of the manager as it is started.
  record Made (trace : List Event) (s : System) (cs : List Call) : Type 0 where
    manager : s.worker.manager ≡ run can_open (start 0).manager cs
    pushed : pushed_in cs ≡ fed_in trace
    written : s.writes ≡ written_in can_open cs (start 0).manager
    fits : All CallFits cs

  later-Made :
      (trace : List Event) (e : Event) (s t : System) (cs : List Call)
      → Calls s.worker.manager s.writes e t.worker.manager t.writes
      → Made trace s cs
      → (cs' : List Call) × Made (trace ++ e ∷ []) t cs'
  unfolding Calls
  later-Made trace e s t cs (inl (same, none_fed, none_written)) made = (
    cs,
    record {
      manager = same ∙ made.manager;
      pushed =
          made.pushed
          ∙ sym (
              fed_in-snoc trace e
              ∙ ap (λ l. fed_in trace ++ l) none_fed
              ∙ append-nil (fed_in trace));
      written = none_written ∙ made.written;
      fits = made.fits;
    },
  )
  later-Made trace e s t cs (inr (c, stepped, fed_c, written_c, fits_c)) made = (
    cs ++ c ∷ [],
    record {
      manager = stepped ∙ ap (λ n. step can_open n c) made.manager ∙ sym (run-snoc cs _ c);
      pushed =
          pushed_in-snoc cs c
          ∙ ap₂ (λ xs ys. xs ++ ys) made.pushed fed_c
          ∙ sym (fed_in-snoc trace e);
      written =
          written_c
          ∙ ap₂ (λ ws m. ws ++ written_by can_open m c) made.written made.manager
          ∙ sym (written_in-snoc cs _ c);
      fits = All-snoc CallFits cs c made.fits fits_c;
    },
  )

  Reach-Made :
      {trace : List Event} {s : System}
      → Reach can_open trace s
      → (cs : List Call) × Made trace s cs
  unfolding start
  Reach-Made (launched now) = (
    [],
    record {
      manager = unfold run in refl;
      pushed = refl;
      written = unfold written_in in refl;
      fits = tt;
    },
  )
  Reach-Made (later {trace} {e} {s} {t} r st) =
      let (cs, made) = Reach-Made r in
      later-Made trace e s t cs (Step-Calls st (Reach-Sound can_open r)) made

  -- In every interleaving of the threads the worker's manager is what some sequence of calls of the
  -- manager's methods makes of the manager as it is started; the packets that these calls push are
  -- those that the worker has taken from the queue and handed over, in order, and have header
  -- fields that fit; and the files that have been written are those that the calls write, in the
  -- methods or by onFrameDone, in order.
  pub Reach-run :
      {trace : List Event} {s : System}
      → Reach can_open trace s
      → (cs : List Call) × (s.worker.manager ≡ run can_open (start 0).manager cs)
        × (pushed_in cs ≡ fed_in trace)
        × (s.writes ≡ written_in can_open cs (start 0).manager)
        × All CallFits cs
  Reach-run r =
      let (cs, made) = Reach-Made r in (cs, made.manager, made.pushed, made.written, made.fits)
