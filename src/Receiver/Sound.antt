-- ===== src/Receiver/Sound.antt =====
-- The manager's invariant in the worker's loop, with the other threads' actions in between.
use Prim.Native.String.{String}
use hv_frame_test.Base.{
  ℕ, ◌≡◌, Bool, Option, none, some, List, [], ◌∷◌, ◌++◌, arith, leb, Bool-cases, inl, inr, All, ◌+◌,
}
use hv_frame_test.Protocol.{RxPacket}
use hv_frame_test.Reassembler.Inv.{HeaderFits}
use hv_frame_test.PacketQueue.{
  PacketQueue, World, Action, pushes, pops, shuts_down, act, act_all, pop_until, take_from,
  must_wait, try_pop,
}
use hv_frame_test.PacketQueue.Fifo.{push_lem, try_pop_lem}
use hv_frame_test.Manager.State.{FrameReassemblerManager}
use hv_frame_test.Manager.Flush.{flush_all}
use hv_frame_test.Manager.Inv.{IsValid, push_packet-IsValid}
use hv_frame_test.Manager.Ending.{poll_timers-IsValid}
use hv_frame_test.Receiver.Exit.{work_out, work_on}
use hv_frame_test.Receiver.Worker.{
  Worker, Round, turn, work, feed, run_timers, check_exit, mark, as_tested,
}

-- Every packet in the queue has a header whose fields fit.
abbrev QueueFits : World RxPacket → Type 0
QueueFits w = All (λ x. HeaderFits x.hdr) w.queue.q

abbrev ActionFits : Action RxPacket → Type 0
ActionFits (pushes x) = HeaderFits x.hdr
ActionFits pops = Unit
ActionFits shuts_down = Unit

pub All-snoc :
    (xs : List RxPacket) (x : RxPacket)
    → All (λ y. HeaderFits y.hdr) xs
    → HeaderFits x.hdr
    → All (λ y. HeaderFits y.hdr) (xs ++ x ∷ [])
All-snoc [] x a h = (h, tt)
All-snoc (y ∷ ys) x a h = (a.0, All-snoc ys x a.1 h)

try_pop-fits :
    (s : PacketQueue RxPacket)
    → All (λ y. HeaderFits y.hdr) s.q
    → All (λ y. HeaderFits y.hdr) (try_pop s).0.q
try_pop-fits s a = elim (try_pop_lem s) [
  | inl (_, e) ↦ rw e a
  | inr (x, rest, front, e) ↦ rw e ((rw front at a).1)
]

act-fits :
    (w : World RxPacket) (c : Action RxPacket) → ActionFits c → QueueFits w → QueueFits (act w c)
unfolding act
act-fits w (pushes x) h a = elim (push_lem w.queue x) [
  | inl (_, e) ↦ rw e (All-snoc w.queue.q x a h)
  | inr (_, e) ↦ rw e a
]
act-fits w pops h a = try_pop-fits w.queue a
act-fits w shuts_down h a = a

act_all-fits :
    (w : World RxPacket) (cs : List (Action RxPacket))
    → All ActionFits cs
    → QueueFits w
    → QueueFits (act_all w cs)
unfolding act_all
act_all-fits w [] h a = a
act_all-fits w (c ∷ cs) h a = act_all-fits (act w c) cs h.1 (act-fits w c h.0 a)

abbrev GotFits : Option RxPacket → Type 0
GotFits none = Unit
GotFits (some x) = HeaderFits x.hdr

take_from-fits :
    (w : World RxPacket) → QueueFits w → QueueFits (take_from w).0 × GotFits (take_from w).1
unfolding take_from
take_from-fits w a = elim (try_pop_lem w.queue) [
  | inl (_, e) ↦ rw e (a, tt)
  | inr (x, rest, front, e) ↦ rw e ((rw front at a).1, (rw front at a).0)
]

pop_until-fits :
    (w : World RxPacket) (cs : List (Action RxPacket))
    → All ActionFits cs
    → QueueFits w
    → QueueFits (pop_until w cs).0 × GotFits (pop_until w cs).1
unfolding pop_until
pop_until-fits w cs h a = elim (Bool-cases (must_wait w)) [
  | inl e ↦ rw e (take_from-fits (act_all w cs) (act_all-fits w cs h a))
  | inr e ↦ rw e (take_from-fits w a)
]

pub feed-IsValid :
    (k : Worker) (got : Option RxPacket) (w : World RxPacket) (now : ℕ)
    → GotFits got
    → IsValid k.manager
    → IsValid (feed k got w now).manager
unfolding feed
feed-IsValid k none w now h v = v
feed-IsValid k (some x) w now h v = push_packet-IsValid k.manager v x w.queue.dropped now h

pub flush_all-IsValid :
    (can_open : String → Bool) (m : FrameReassemblerManager)
    → IsValid m
    → IsValid (flush_all can_open m).0
unfolding flush_all
flush_all-IsValid can_open m v = record { stride_fits = v.stride_fits; sorted = tt; entries = tt }

-- The other threads push only packets whose headers fit.
pub record RoundFits (i : Round) : Type 0 where
  pub waiting : All ActionFits i.while_waiting
  pub pushing : All ActionFits i.before_push
  pub polling : All ActionFits i.before_timers
  pub checking : All ActionFits i.before_check
  pub testing : All ActionFits i.before_empty
  pub leaving : All ActionFits i.after_check

module _ (can_open : String → Bool) where
  pub run_timers-IsValid :
      (k : Worker) (w : World RxPacket) (now poll_time : ℕ)
      → IsValid k.manager
      → IsValid (run_timers can_open k w now poll_time).0.manager
  unfolding run_timers
  run_timers-IsValid k w now poll_time v = elim (Bool-cases (leb (k.last_timer + 5_000_000) now)) [
    | inl e ↦ rw e (poll_timers-IsValid k.manager w.queue.dropped poll_time v)
    | inr e ↦ rw e v
  ]

  pub check_exit-manager :
      (k : Worker) (w : World RxPacket) (mark_time check_time : ℕ)
      → (check_exit k w mark_time check_time).0.manager ≡ k.manager
  unfolding check_exit mark
  check_exit-manager k w mark_time check_time = ground arith

  turn-IsValid :
      (k : Worker) (w : World RxPacket) (i : Round)
      → RoundFits i
      → QueueFits w
      → IsValid k.manager
      → QueueFits (turn can_open k w i).world × IsValid (turn can_open k w i).worker.manager
  unfolding turn
  turn-IsValid k w i f a v =
      let (w1, got) = pop_until w i.while_waiting in
      let w2 = act_all w1 i.before_push in
      let w3 = act_all w2 i.before_timers in
      let w4 = act_all w3 i.before_check in
      let k2 = feed k got w2 i.push_time in
      let k3 = (run_timers can_open k2 w3 i.timer_time i.poll_time).0 in
      let (a1, g) = pop_until-fits w i.while_waiting f.waiting a in
      let a2 = act_all-fits w1 i.before_push f.pushing a1 in
      let a3 = act_all-fits w2 i.before_timers f.polling a2 in
      let a4 = act_all-fits w3 i.before_check f.checking a3 in
      let v2 = feed-IsValid k got w2 i.push_time g v in
      let v3 = run_timers-IsValid k2 w3 i.timer_time i.poll_time v2 in
      let w5 = act_all w4 i.before_empty in
      let a5 = act_all-fits w4 i.before_empty f.testing a4 in
      (
        act_all-fits w5 i.after_check f.leaving a5,
        rw (check_exit-manager k3 (as_tested w4 w5) i.mark_time i.check_time) v3,
      )

  -- Through any rounds of the worker's loop, its end included, its manager stays valid, if it was
  -- valid and the packets in the queue and those that the other threads push have header fields
  -- that fit.
  work-IsValid :
      (k : Worker) (w : World RxPacket) (rounds : List Round)
      → All RoundFits rounds
      → QueueFits w
      → IsValid k.manager
      → IsValid (work can_open k w rounds).worker.manager
  work-IsValid k w [] f a v = unfold work in v
  work-IsValid k w (i ∷ rest) f a v =
      let t = turn can_open k w i in
      let (a2, v2) = turn-IsValid k w i f.0 a v in
      elim (Bool-cases t.leaves) [
        | inl out ↦
            rw (work_out can_open k w i rest out) (flush_all-IsValid can_open t.worker.manager v2)
        | inr on ↦
            rw (work_on can_open k w i rest on) (work-IsValid t.worker t.world rest f.1 a2 v2)
      ]
