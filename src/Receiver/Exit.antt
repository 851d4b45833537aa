-- ===== src/Receiver/Exit.antt =====
-- When frame_worker_thread ends.
use Prim.Native.String.{String}
use hv_frame_test.Base.{
  ℕ, ◌+◌, ◌≤◌, ◌<◌, ◌≡◌, ◌≢◌, refl, ◌∙◌, ap, Bool, true, false, Option, none, some, List, [], ◌∷◌,
  ◌++◌, arith, if◌then◌else◌, ltb, ◌==◌, Bool-cases, inl, inr, All, lt→ltb, ne→==,
}
use hv_frame_test.Protocol.{RxPacket}
use hv_frame_test.PacketQueue.{
  World, Action, pushes, pops, shuts_down, act, act_all, must_wait, pop_until, take_from, try_pop,
  take_front,
}
use hv_frame_test.Manager.Flush.{flush_all}
use hv_frame_test.Receiver.Worker.{
  Worker, Round, Turn, turn, work, check_exit, mark, run_timers, feed, as_tested,
}

-- The thread is to stop and has nothing left to do.
pub record IsDone (w : World RxPacket) : Type 0 where
  pub stopping : w.shutdown ≡ true
  pub drained : w.queue.q ≡ []

pub check_exit-IsDone :
    (k : Worker) (w : World RxPacket) (mark_time check_time : ℕ)
    → (check_exit k w mark_time check_time).1 ≡ true
    → IsDone w
unfolding check_exit
check_exit-IsDone k w mark_time check_time e = ground arith

-- Other threads that push no packet.
abbrev IsQuiet : Action RxPacket → Type 0
IsQuiet (pushes x) = ⊥
IsQuiet pops = Unit
IsQuiet shuts_down = Unit

act_all-IsDone :
    (w : World RxPacket) (acts : List (Action RxPacket))
    → All IsQuiet acts
    → IsDone w
    → IsDone (act_all w acts)
unfolding act_all act try_pop take_front
act_all-IsDone w [] q d = d
act_all-IsDone w (pushes x ∷ acts) q d = absurd q.0
act_all-IsDone w (pops ∷ acts) q d = act_all-IsDone (act w pops) acts q.1 (record {
  stopping = d.stopping;
  drained = ap (λ l. (take_front w.queue l).0.q) d.drained ∙ d.drained;
})
act_all-IsDone w (shuts_down ∷ acts) q d =
    act_all-IsDone (record w { shutdown = true }) acts q.1
      (record { stopping = refl; drained = d.drained })

module _ (can_open : String → Bool) where
  module _ (k : Worker) (w : World RxPacket) (i : Round) (rest : List Round) where
    pub work_out :
        (turn can_open k w i).leaves ≡ true
        → work can_open k w (i ∷ rest) ≡ (
            let t = turn can_open k w i in
            let flushed = flush_all can_open t.worker.manager in
            record t {
              worker = record t.worker { manager = flushed.0 };
              writes = t.writes ++ flushed.1;
            })
    unfolding work
    work_out out = rw out

    pub work_on :
        (turn can_open k w i).leaves ≡ false
        → work can_open k w (i ∷ rest) ≡ (
            let t = turn can_open k w i in
            let later = work can_open t.worker t.world rest in
            record later { writes = t.writes ++ later.writes })
    unfolding work
    work_on on = rw on

take_from-IsDone : (w : World RxPacket) → IsDone w → IsDone (take_from w).0
unfolding take_from try_pop take_front
take_from-IsDone w d = record {
  stopping = d.stopping;
  drained = ap (λ l. (take_front w.queue l).0.q) d.drained ∙ d.drained;
}

pop_until-IsDone :
    (w : World RxPacket) (acts : List (Action RxPacket))
    → All IsQuiet acts
    → IsDone w
    → IsDone (pop_until w acts).0
unfolding pop_until
pop_until-IsDone w acts q d = elim (Bool-cases (must_wait w)) [
  | inl e ↦ rw e (take_from-IsDone (act_all w acts) (act_all-IsDone w acts q d))
  | inr e ↦ rw e (take_from-IsDone w d)
]

pub reminder-feed :
    (k : Worker) (got : Option RxPacket) (w : World RxPacket) (now : ℕ)
    → (feed k got w now).reminder_start ≡ k.reminder_start
unfolding feed
reminder-feed k none w now = refl
reminder-feed k (some x) w now = refl

module _ (can_open : String → Bool) where
  pub reminder-run_timers :
      (k : Worker) (w : World RxPacket) (now poll_time : ℕ)
      → (run_timers can_open k w now poll_time).0.reminder_start ≡ k.reminder_start
  unfolding run_timers
  reminder-run_timers k w now poll_time = ground arith

-- The reminder after a round that finds that the thread is to stop.
abbrev reminded : Worker → Round → ℕ
reminded k i = if k.reminder_start == 0 then i.mark_time else k.reminder_start

check_exit_done :
    (k j : Worker) (w : World RxPacket) (i : Round)
    → IsDone w
    → j.reminder_start ≡ k.reminder_start
    → ((check_exit j w i.mark_time i.check_time).1 ≡ ltb (reminded k i + 100_000_000) i.check_time)
      × ((check_exit j w i.mark_time i.check_time).0.reminder_start ≡ reminded k i)
unfolding check_exit mark
check_exit_done k j w i d e = rw (d.stopping, d.drained, e) (refl, refl)

-- In a round the other threads push nothing.
pub record IsQuietRound (i : Round) : Type 0 where
  pub waiting : All IsQuiet i.while_waiting
  pub pushing : All IsQuiet i.before_push
  pub polling : All IsQuiet i.before_timers
  pub checking : All IsQuiet i.before_check
  pub testing : All IsQuiet i.before_empty
  pub leaving : All IsQuiet i.after_check

module _ (can_open : String → Bool) where
  -- A round of a thread that is to stop and has an empty queue.
  turn_ends :
      (k : Worker) (w : World RxPacket) (i : Round)
      → IsDone w
      → IsQuietRound i
      → IsDone (turn can_open k w i).world
        × ((turn can_open k w i).leaves ≡ ltb (reminded k i + 100_000_000) i.check_time)
        × ((turn can_open k w i).worker.reminder_start ≡ reminded k i)
  unfolding turn
  turn_ends k w i d q =
      let (w1, got) = pop_until w i.while_waiting in
      let w2 = act_all w1 i.before_push in
      let w3 = act_all w2 i.before_timers in
      let w4 = act_all w3 i.before_check in
      let k2 = feed k got w2 i.push_time in
      let k3 = (run_timers can_open k2 w3 i.timer_time i.poll_time).0 in
      let d1 = pop_until-IsDone w i.while_waiting q.waiting d in
      let d2 = act_all-IsDone w1 i.before_push q.pushing d1 in
      let d3 = act_all-IsDone w2 i.before_timers q.polling d2 in
      let d4 = act_all-IsDone w3 i.before_check q.checking d3 in
      let kept =
        reminder-run_timers can_open k2 w3 i.timer_time i.poll_time
        ∙ reminder-feed k got w2 i.push_time in
      let w5 = act_all w4 i.before_empty in
      let d5 = act_all-IsDone w4 i.before_empty q.testing d4 in
      let done =
        check_exit_done k k3 (as_tested w4 w5) i
          (record { stopping = d4.stopping; drained = d5.drained }) kept in
      (act_all-IsDone w5 i.after_check q.leaving d5, done.0, done.1)

  leaves_out :
      (k : Worker) (w : World RxPacket) (i : Round) (rest : List Round)
      → (turn can_open k w i).leaves ≡ true
      → (work can_open k w (i ∷ rest)).leaves ≡ true
  leaves_out k w i rest out = rw (work_out can_open k w i rest out) out

  -- The second round finds the reminder that the first one left.
  second_leaves :
      (k : Worker) (w : World RxPacket) (j : Round)
      → IsDone w
      → IsQuietRound j
      → k.reminder_start ≢ 0
      → k.reminder_start + 100_000_000 < j.check_time
      → (turn can_open k w j).leaves ≡ true
  second_leaves k w j d q set apart =
      (turn_ends k w j d q).1
      ∙ rw (ne→== k.reminder_start 0 set)
          (lt→ltb (k.reminder_start + 100_000_000) j.check_time apart)

  -- The worker's loop ends: once it is to stop and the queue is empty, and the other threads push
  -- nothing more, it ends at the latest in the second of two rounds whose readings of the clock are
  -- more than 100 ms apart, if the clock is past its epoch and no reminder is set in the future.
  pub work_ends :
      (k : Worker) (w : World RxPacket) (i j : Round)
      → IsDone w
      → IsQuietRound i
      → IsQuietRound j
      → k.reminder_start ≤ i.mark_time
      → i.mark_time ≢ 0
      → i.mark_time + 100_000_000 < j.check_time
      → (work can_open k w (i ∷ j ∷ [])).leaves ≡ true
  work_ends k w i j d qi qj past set apart = elim (Bool-cases (turn can_open k w i).leaves) [
    | inl out ↦ leaves_out k w i (j ∷ []) out
    | inr on ↦ rw (work_on can_open k w i (j ∷ []) on) (
        leaves_out t.worker t.world j [] (
          second_leaves t.worker t.world j (turn_ends k w i d qi).0 qj (ground (arith, first))
            (ground (arith, first))))
  ]
    where
      t : Turn
      t = turn can_open k w i

      first : t.worker.reminder_start ≡ reminded k i
      first = (turn_ends k w i d qi).2
