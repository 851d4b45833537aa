-- ===== src/System/Ending.antt =====
-- The receiver comes to its end: how many moves are left, and that there is always one.
use Prim.Native.String.{String}
use hv_frame_test.Base.{
  ℕ, ◌+◌, ◌*◌, ◌≤◌, ◌≡◌, ◌≢◌, refl, ◌∙◌, sym, subst, Bool, true, some, none, List, ◌⊎◌, inl, inr,
  arith, length,
}
use hv_frame_test.System.State.{
  System, RxPc, at_head, polling, pushing, rx_finished, ruined, WorkerPc, at_pop, in_wait, got,
  at_timers, at_flag, at_queue, leaving, worker_finished, MainPc, sleeping, joining_rx,
  joining_worker, returned,
}
use hv_frame_test.System.Steps.{
  Event, rx_stops, rx_idles, rx_pushes, pops, wakes, feeds, skips, polls_timers, is_told, checks,
  flushes, main_sees, main_joins_rx, main_joins_worker, Step, moves, Way, here, and_then,
}
use hv_frame_test.System.Costs.{
  rx_cost, worker_cost, main_cost, IsLate, move_count, Pays, Step-Pays, must_not_wait,
}

module _ (can_open : String → Bool) where
  -- Every look at the clock for the exit is more than 100 ms past the reminder.
  abbrev pub AllLate : ℕ → {s t : System} {es : List Event} → Way can_open s es t → Type 0
  AllLate reminder here = Unit
  AllLate reminder (and_then w st) = AllLate reminder w × IsLate can_open reminder st

  -- The moves of the threads.
  abbrev pub moves_in : {s t : System} {es : List Event} → Way can_open s es t → ℕ
  moves_in here = 0
  moves_in (and_then w st) = moves_in w + move_count can_open st

  Way-Pays :
      {s t : System} {es : List Event} (w : Way can_open s es t)
      → s.shutdown ≡ true
      → s.worker.reminder_start ≢ 0
      → AllLate s.worker.reminder_start w
      → Pays s t (moves_in w)
  Way-Pays {s} here on set late = record { told = on; same_reminder = refl; paid = omega arith }
  Way-Pays {s} (and_then w st) on set late =
      let before = Way-Pays w on set late.0 in
      let last =
        Step-Pays can_open st before.told (λ e. set (sym before.same_reminder ∙ e))
          (subst (λ r. IsLate can_open r st) (sym before.same_reminder) late.1) in
      record {
        told = last.told;
        same_reminder = last.same_reminder ∙ before.same_reminder;
        paid = omega (arith, before.paid, last.paid);
      }

  rx_bound : (p : RxPc) → rx_cost p ≤ 8
  rx_bound polling = omega arith
  rx_bound (pushing x) = omega arith
  rx_bound at_head = omega arith
  rx_bound rx_finished = omega arith
  rx_bound ruined = omega arith

  worker_bound : (p : WorkerPc) (n : ℕ) → worker_cost p n ≤ 6 + 5 * n
  worker_bound at_pop n = omega arith
  worker_bound in_wait n = omega arith
  worker_bound (got o) n = omega arith
  worker_bound at_timers n = omega arith
  worker_bound at_flag n = omega arith
  worker_bound at_queue n = omega arith
  worker_bound leaving n = omega arith
  worker_bound worker_finished n = omega arith

  main_bound : (p : MainPc) → main_cost p ≤ 3
  main_bound sleeping = omega arith
  main_bound joining_rx = omega arith
  main_bound joining_worker = omega arith
  main_bound returned = omega arith

  -- A thread can move, and if it looks at the clock, it is late.
  abbrev pub CanMove : System → Type 0
  CanMove s =
      (e : Event) × (t : System) × (st : Step can_open s e t) × (move_count can_open st ≡ 1)
      × IsLate can_open s.worker.reminder_start st

  main_moves :
      (s : System) (p : MainPc)
      → s.main ≡ p
      → s.shutdown ≡ true
      → s.rx ≡ rx_finished
      → s.pc ≡ worker_finished
      → (s.main ≡ returned) ⊎ CanMove s
  main_moves s returned at on r p = inl at
  main_moves s joining_worker at on r p = inr (_, _, moves (main_joins_worker at p), refl, tt)
  main_moves s joining_rx at on r p = inr (_, _, moves (main_joins_rx at r), refl, tt)
  main_moves s sleeping at on r p = inr (_, _, moves (main_sees at on), refl, tt)

  worker_moves :
      (s : System) (p : WorkerPc)
      → s.pc ≡ p
      → s.shutdown ≡ true
      → (s.pc ≡ worker_finished) ⊎ CanMove s
  worker_moves s at_pop at on = inr (_, _, moves (pops at (must_not_wait s on)), refl, tt)
  worker_moves s in_wait at on = inr (_, _, moves (wakes at), refl, tt)
  worker_moves s (got none) at on = inr (_, _, moves (skips at), refl, tt)
  worker_moves s (got (some x)) at on = inr (_, _, moves (feeds x 0 at), refl, tt)
  worker_moves s at_timers at on = inr (_, _, moves (polls_timers 0 0 at), refl, tt)
  worker_moves s at_flag at on = inr (_, _, moves (is_told at on), refl, tt)
  worker_moves s at_queue at on =
      inr (_, _, moves (checks 0 (s.worker.reminder_start + 100_000_001) at), refl, omega arith)
  worker_moves s leaving at on = inr (_, _, moves (flushes at), refl, tt)
  worker_moves s worker_finished at on = inl at

  moves_on :
      (s : System) (p : RxPc)
      → s.rx ≡ p
      → s.shutdown ≡ true
      → (s.rx ≡ ruined) ⊎ (s.main ≡ returned) ⊎ CanMove s
  moves_on s at_head at on = inr (inr (_, _, moves (rx_stops at on), refl, tt))
  moves_on s polling at on = inr (inr (_, _, moves (rx_idles at), refl, tt))
  moves_on s (pushing x) at on = inr (inr (_, _, moves (rx_pushes x at), refl, tt))
  moves_on s ruined at on = inl at
  moves_on s rx_finished at on = elim (worker_moves s s.pc refl on) [
    | inl p ↦ inr (main_moves s s.main refl on at p)
    | inr m ↦ inr (inr m)
  ]

  -- The receiver comes to its end. Start where the shutdown flag and the worker's reminder are set,
  -- and let each further look of the worker at the clock, for its exit, be more than 100 ms past
  -- that reminder. However the threads are interleaved, and whatever still comes from the socket,
  -- they make at most 17 moves and 5 more for each packet in the queue. Nor do they stop short:
  -- wherever such a run has come to, main has returned, or the receiving thread has written past a
  -- packet's end, or a thread can make a move, one that looks at the clock late enough if it looks
  -- at it for the exit.
  pub must_end :
      {s t : System} {es : List Event} (w : Way can_open s es t)
      → s.shutdown ≡ true
      → s.worker.reminder_start ≢ 0
      → AllLate s.worker.reminder_start w
      → (moves_in w ≤ 17 + 5 * length s.queue.q)
        × ((t.rx ≡ ruined) ⊎ (t.main ≡ returned) ⊎ CanMove t)
  must_end {s} {t} w on set late =
      let p = Way-Pays w on set late in
      (
        omega
            (arith, p.paid, rx_bound s.rx, worker_bound s.pc (length s.queue.q), main_bound s.main),
        moves_on t t.rx refl p.told,
      )
