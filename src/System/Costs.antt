-- ===== src/System/Costs.antt =====
-- What each move costs once the worker's 100 ms are over.
use Prim.Native.String.{String}
use hv_frame_test.Base.{
  ℕ, ◌+◌, ◌-◌, ◌*◌, ◌<◌, ◌≤◌, ◌≡◌, ◌≢◌, refl, ◌∙◌, ap, ap₂, Bool, true, false, some, List, [], ◌∷◌,
  inl, inr, arith, length, length-append, if◌then◌else◌, Bool-cases, lt→ltb, ne→==,
}
use hv_frame_test.Protocol.{RxPacket}
use hv_frame_test.PacketQueue.{World, push, take_from, must_wait, is_nil}
use hv_frame_test.PacketQueue.Fifo.{push_lem, try_pop_lem}
use hv_frame_test.Receiver.Worker.{Worker, check_exit, mark}
use hv_frame_test.Receiver.Exit.{reminder-feed, reminder-run_timers}
use hv_frame_test.System.State.{
  System, RxPc, at_head, polling, pushing, rx_finished, ruined, WorkerPc, at_pop, in_wait, got,
  at_timers, at_flag, at_queue, leaving, worker_finished, MainPc, sleeping, joining_rx,
  joining_worker, returned, world,
}
use hv_frame_test.System.Steps.{
  Event, popped, rx_stops, rx_polls, rx_idles, rx_breaks, rx_ignores, rx_takes, rx_ruins, rx_pushes,
  waits, pops, wakes, feeds, skips, polls_timers, goes_on, is_told, checks, flushes, main_sees,
  main_joins_rx, main_joins_worker, Step, moves, signals,
}

-- Moves that are left to each thread once the worker is out of patience; the receiving thread's
-- count for what its packet costs the worker, too.
abbrev pub rx_cost : RxPc → ℕ
rx_cost polling = 8
rx_cost (pushing x) = 7
rx_cost at_head = 1
rx_cost rx_finished = 0
rx_cost ruined = 0

abbrev pub worker_cost : WorkerPc → ℕ → ℕ
worker_cost at_pop n = 6 + 5 * (n - 1)
worker_cost in_wait n = 6 + 5 * (n - 1)
worker_cost (got o) n = 5 + 5 * n
worker_cost at_timers n = 4 + 5 * n
worker_cost at_flag n = 3 + 5 * n
worker_cost at_queue n = 2 + 5 * n
worker_cost leaving n = 1
worker_cost worker_finished n = 0

abbrev pub main_cost : MainPc → ℕ
main_cost sleeping = 3
main_cost joining_rx = 2
main_cost joining_worker = 1
main_cost returned = 0

abbrev pub cost : System → ℕ
cost s = rx_cost s.rx + worker_cost s.pc (length s.queue.q) + main_cost s.main

-- The clock is past the worker's 100 ms in this step: a look at it for the exit says so.
module _ (can_open : String → Bool) where
  abbrev pub IsLate : ℕ → {s t : System} {e : Event} → Step can_open s e t → Type 0
  IsLate reminder (moves (checks mark_time check_time a)) = reminder + 100_000_000 < check_time
  IsLate reminder other = Unit

  abbrev pub move_count : {s t : System} {e : Event} → Step can_open s e t → ℕ
  move_count (moves m) = 1
  move_count signals = 0

-- One more packet in the queue.
worker_cost_push : (p : WorkerPc) (n : ℕ) → worker_cost p (n + 1) ≤ worker_cost p n + 5
worker_cost_push at_pop n = omega arith
worker_cost_push in_wait n = omega arith
worker_cost_push (got o) n = omega arith
worker_cost_push at_timers n = omega arith
worker_cost_push at_flag n = omega arith
worker_cost_push at_queue n = omega arith
worker_cost_push leaving n = omega arith
worker_cost_push worker_finished n = omega arith

pushed_cost :
    (s : System) (x : RxPacket)
    → worker_cost s.pc (length (push s.queue x).0.q) ≤ worker_cost s.pc (length s.queue.q) + 5
pushed_cost s x = elim (push_lem s.queue x) [
  | inl (_, e) ↦ rw (e, length-append s.queue.q (x ∷ [])) (worker_cost_push s.pc (length s.queue.q))
  | inr (_, e) ↦ rw e (omega arith)
]

popped_cost :
    (s : System)
    → 1 + worker_cost (popped s).pc (length (popped s).queue.q) ≤ 6 + 5 * (length s.queue.q - 1)
unfolding take_from
popped_cost s = elim (try_pop_lem s.queue) [
  | inl (empty, e) ↦ rw (e, empty) (omega arith)
  | inr (x, rest, front, e) ↦ rw (e, front) (omega arith)
]

pub must_not_wait : (s : System) → s.shutdown ≡ true → must_wait (world s) ≡ false
must_not_wait s on = elim (Bool-cases (is_nil s.queue.q)) [
  | inl e ↦ rw (e, on) refl
  | inr e ↦ rw e refl
]

-- What the test for the exit comes to when the flag is set and the time is up.
module _ (k : Worker) (w : World RxPacket) (mark_time check_time : ℕ) (on : w.shutdown ≡ true)
    (set : k.reminder_start ≢ 0) (late : k.reminder_start + 100_000_000 < check_time) where
  check_exit-out :
      w.queue.q ≡ []
      → ((check_exit k w mark_time check_time).1 ≡ true)
        × ((check_exit k w mark_time check_time).0.reminder_start ≡ k.reminder_start)
  unfolding check_exit mark
  check_exit-out empty =
      rw (on, empty, ne→== k.reminder_start 0 set)
        (lt→ltb (k.reminder_start + 100_000_000) check_time late, refl)

  check_exit-on :
      (x : RxPacket) (rest : List RxPacket)
      → w.queue.q ≡ x ∷ rest
      → ((check_exit k w mark_time check_time).1 ≡ false)
        × ((check_exit k w mark_time check_time).0.reminder_start ≡ k.reminder_start)
  unfolding check_exit
  check_exit-on x rest front = rw (on, front) (refl, refl)

-- From s to t the flag stays set and the reminder stays; what the step costs is paid.
pub record Pays (s t : System) (count : ℕ) : Type 0 where
  pub told : t.shutdown ≡ true
  pub same_reminder : t.worker.reminder_start ≡ s.worker.reminder_start
  pub paid : count + cost t ≤ cost s

module _ (can_open : String → Bool) where
  rx-Pays :
      (s t : System) {p : RxPc}
      → s.shutdown ≡ true
      → s.rx ≡ p
      → t.shutdown ≡ s.shutdown
      → t.worker ≡ s.worker
      → t.main ≡ s.main
      → 1 + rx_cost t.rx + worker_cost t.pc (length t.queue.q)
        ≤ rx_cost p + worker_cost s.pc (length s.queue.q)
      → Pays s t 1
  rx-Pays s t on a e f g le = record {
    told = e ∙ on;
    same_reminder = ap (λ k. k.reminder_start) f;
    paid = omega (arith, le, ap rx_cost a, ap main_cost g);
  }

  worker-Pays :
      (s t : System) {p : WorkerPc}
      → s.shutdown ≡ true
      → s.pc ≡ p
      → t.shutdown ≡ s.shutdown
      → t.rx ≡ s.rx
      → t.main ≡ s.main
      → t.worker.reminder_start ≡ s.worker.reminder_start
      → 1 + worker_cost t.pc (length t.queue.q) ≤ worker_cost p (length s.queue.q)
      → Pays s t 1
  worker-Pays s t on a e f g r le = record {
    told = e ∙ on;
    same_reminder = r;
    paid =
        omega
          (arith, le, ap (λ q. worker_cost q (length s.queue.q)) a, ap rx_cost f, ap main_cost g);
  }

  main-Pays :
      (s t : System) {p : MainPc}
      → s.shutdown ≡ true
      → s.main ≡ p
      → t.shutdown ≡ s.shutdown
      → t.worker ≡ s.worker
      → t.rx ≡ s.rx
      → t.pc ≡ s.pc
      → t.queue ≡ s.queue
      → 1 + main_cost t.main ≤ main_cost p
      → Pays s t 1
  main-Pays s t on a e w f g q le = record {
    told = e ∙ on;
    same_reminder = ap (λ k. k.reminder_start) w;
    paid =
        omega (arith, le, ap main_cost a, ap rx_cost f, ap₂ worker_cost g (ap (λ c. length c.q) q));
  }

  checks-Pays :
      (s : System) (mark_time check_time : ℕ) (a : s.pc ≡ at_queue)
      → s.shutdown ≡ true
      → s.worker.reminder_start ≢ 0
      → s.worker.reminder_start + 100_000_000 < check_time
      → (q : List RxPacket) → s.queue.q ≡ q
      → Pays s
          (record s {
            worker = (check_exit s.worker (world s) mark_time check_time).0;
            pc = if (check_exit s.worker (world s) mark_time check_time).1 then leaving else at_pop;
          })
          1
  checks-Pays s mark_time check_time a on set late [] empty =
      let (out, kept) = check_exit-out s.worker (world s) mark_time check_time on set late empty in
      worker-Pays s _ on a refl refl refl kept (rw out (omega arith))
  checks-Pays s mark_time check_time a on set late (x ∷ rest) front =
      let (stay, kept) =
        check_exit-on s.worker (world s) mark_time check_time on set late x rest front in
      worker-Pays s _ on a refl refl refl kept (rw (stay, front) (omega arith))

  pub Step-Pays :
      {s t : System} {e : Event} (st : Step can_open s e t)
      → s.shutdown ≡ true
      → s.worker.reminder_start ≢ 0
      → IsLate can_open s.worker.reminder_start st
      → Pays s t (move_count can_open st)
  Step-Pays {s} (moves (rx_stops a b)) on set l = rx-Pays s _ on a refl refl refl (omega arith)
  Step-Pays {s} (moves (rx_polls a b)) on set l = cc
  Step-Pays {s} (moves (rx_idles a)) on set l = rx-Pays s _ on a refl refl refl (omega arith)
  Step-Pays {s} (moves (rx_breaks a)) on set l = rx-Pays s _ on a refl refl refl (omega arith)
  Step-Pays {s} (moves (rx_ignores bytes a b)) on set l =
      rx-Pays s _ on a refl refl refl (omega arith)
  Step-Pays {s} (moves (rx_takes bytes x a b c)) on set l =
      rx-Pays s _ on a refl refl refl (omega arith)
  Step-Pays {s} (moves (rx_ruins bytes a b)) on set l =
      rx-Pays s _ on a refl refl refl (omega arith)
  Step-Pays {s} (moves (rx_pushes x a)) on set l =
      rx-Pays s _ on a refl refl refl (omega (arith, pushed_cost s x))
  Step-Pays {s} (moves (waits a b)) on set l = absurd (cc (must_not_wait s on, b))
  Step-Pays {s} (moves (pops a b)) on set l =
      worker-Pays s _ on a refl refl refl refl (popped_cost s)
  Step-Pays {s} (moves (wakes a)) on set l =
      worker-Pays s _ on a refl refl refl refl (popped_cost s)
  Step-Pays {s} (moves (feeds x now a)) on set l =
      worker-Pays s _ on a refl refl refl (reminder-feed s.worker (some x) (world s) now)
        (omega arith)
  Step-Pays {s} (moves (skips a)) on set l = worker-Pays s _ on a refl refl refl refl (omega arith)
  Step-Pays {s} (moves (polls_timers now poll_time a)) on set l =
      worker-Pays s _ on a refl refl refl
        (reminder-run_timers can_open s.worker (world s) now poll_time) (omega arith)
  Step-Pays {s} (moves (goes_on a b)) on set l = cc
  Step-Pays {s} (moves (is_told a b)) on set l =
      worker-Pays s _ on a refl refl refl refl (omega arith)
  Step-Pays {s} (moves (checks mark_time check_time a)) on set l =
      checks-Pays s mark_time check_time a on set l s.queue.q refl
  Step-Pays {s} (moves (flushes a)) on set l =
      worker-Pays s _ on a refl refl refl refl (omega arith)
  Step-Pays {s} (moves (main_sees a b)) on set l =
      main-Pays s _ on a refl refl refl refl refl (omega arith)
  Step-Pays {s} (moves (main_joins_rx a b)) on set l =
      main-Pays s _ on a refl refl refl refl refl (omega arith)
  Step-Pays {s} (moves (main_joins_worker a b)) on set l =
      main-Pays s _ on a refl refl refl refl refl (omega arith)
  Step-Pays {s} signals on set l = record { told = refl; same_reminder = refl; paid = omega arith }
