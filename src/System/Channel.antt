-- ===== src/System/Channel.antt =====
-- What the two threads and the queue are together: a channel of packets that may lose some.
use Prim.Native.String.{String}
use mathlib.Core.List.{append_assoc, append-nil}
use hv_frame_test.Base.{
  ℕ, ◌+◌, if◌then◌else◌, ◌≤◌, ◌≡◌, refl, ◌∙◌, sym, ap, Bool, true, false, some, none, List, [], ◌∷◌,
  ◌++◌, arith, length, inl, inr,
}
use hv_frame_test.Protocol.{RxPacket}
use hv_frame_test.PacketQueue.{make, push, take_from}
use hv_frame_test.PacketQueue.Fifo.{push_lem, try_pop_lem}
use hv_frame_test.Receiver.Worker.{check_exit}
use hv_frame_test.System.State.{
  System, WorkerPc, at_pop, in_wait, got, at_timers, at_flag, at_queue, leaving, worker_finished,
  world,
}
use hv_frame_test.System.Steps.{
  Event, accepted, refused, fed, silent, push_event, popped, Move, rx_stops, rx_polls, rx_idles,
  rx_breaks, rx_ignores, rx_takes, rx_ruins, rx_pushes, waits, pops, wakes, feeds, skips,
  polls_timers, goes_on, is_told, checks, flushes, main_sees, main_joins_rx, main_joins_worker,
  Step, moves, signals, Reach, launched, later,
}

-- The specification: a channel holds packets, in order. It may lose a packet only when it holds
-- `capacity` packets or more.
pub data ChannelStep (capacity : ℕ) (xs : List RxPacket) : Event → List RxPacket → Type 0 where
  puts : (x : RxPacket) → length xs ≤ capacity → ChannelStep capacity xs (accepted x) (xs ++ x ∷ [])
  loses : (x : RxPacket) → capacity ≤ length xs → ChannelStep capacity xs (refused x) xs
  gives : {ys : List RxPacket} (x : RxPacket) → xs ≡ x ∷ ys → ChannelStep capacity xs (fed x) ys
  nothing : ChannelStep capacity xs silent xs

-- The packet that the worker has in hand.
abbrev pub in_hand : WorkerPc → List RxPacket
in_hand (got (some x)) = x ∷ []
in_hand (got none) = []
in_hand at_pop = []
in_hand in_wait = []
in_hand at_timers = []
in_hand at_flag = []
in_hand at_queue = []
in_hand leaving = []
in_hand worker_finished = []

-- The packets on their way from the one thread to the other.
abbrev pub underway : System → List RxPacket
underway s = in_hand s.pc ++ s.queue.q

length-in_hand : (p : WorkerPc) (xs : List RxPacket) → length xs ≤ length (in_hand p ++ xs)
length-in_hand (got (some x)) xs = omega arith
length-in_hand (got none) xs = omega arith
length-in_hand at_pop xs = omega arith
length-in_hand in_wait xs = omega arith
length-in_hand at_timers xs = omega arith
length-in_hand at_flag xs = omega arith
length-in_hand at_queue xs = omega arith
length-in_hand leaving xs = omega arith
length-in_hand worker_finished xs = omega arith

length-in_hand_one : (p : WorkerPc) (xs : List RxPacket) → length (in_hand p ++ xs) ≤ length xs + 1
length-in_hand_one (got (some x)) xs = omega arith
length-in_hand_one (got none) xs = omega arith
length-in_hand_one at_pop xs = omega arith
length-in_hand_one in_wait xs = omega arith
length-in_hand_one at_timers xs = omega arith
length-in_hand_one at_flag xs = omega arith
length-in_hand_one at_queue xs = omega arith
length-in_hand_one leaving xs = omega arith
length-in_hand_one worker_finished xs = omega arith

-- pop_until only moves a packet from the queue to the worker's hand.
popped-underway : (s : System) → in_hand s.pc ≡ [] → underway (popped s) ≡ underway s
unfolding take_from
popped-underway s e = elim (try_pop_lem s.queue) [
  | inl (empty, r) ↦ rw (r, e) refl
  | inr (x, rest, front, r) ↦ rw (r, e) (sym front)
]

push-Channel :
    (s : System) (x : RxPacket)
    → ChannelStep s.queue.capacity
        (underway s)
        (push_event x (push s.queue x).1)
        (in_hand s.pc ++ (push s.queue x).0.q)
push-Channel s x = elim (push_lem s.queue x) [
  | inl (room, e) ↦
      rw (e, ← append_assoc (in_hand s.pc) s.queue.q (x ∷ []))
        (puts x (omega (arith, length-in_hand_one s.pc s.queue.q)))
  | inr (full, e) ↦ rw e (loses x (omega (arith, length-in_hand s.pc s.queue.q)))
]

-- A step that keeps what is underway and says nothing.
kept : (capacity : ℕ) (xs ys : List RxPacket) → ys ≡ xs → ChannelStep capacity xs silent ys
kept capacity xs ys e = rw e nothing

pub out_of_hand : (leaves : Bool) → in_hand (if leaves then leaving else at_pop) ≡ []
out_of_hand true = refl
out_of_hand false = refl

module _ (can_open : String → Bool) where
  Move-Channel :
      {s t : System} {e : Event}
      → Move can_open s e t
      → ChannelStep s.queue.capacity (underway s) e (underway t)
  Move-Channel {s} (rx_stops a b) = nothing
  Move-Channel {s} (rx_polls a b) = nothing
  Move-Channel {s} (rx_idles a) = nothing
  Move-Channel {s} (rx_breaks a) = nothing
  Move-Channel {s} (rx_ignores bytes a b) = nothing
  Move-Channel {s} (rx_takes bytes x a b c) = nothing
  Move-Channel {s} (rx_ruins bytes a b) = nothing
  Move-Channel {s} (rx_pushes x a) = push-Channel s x
  Move-Channel {s} (waits a b) = kept _ _ _ (rw a refl)
  Move-Channel {s} (pops a b) = kept _ _ _ (popped-underway s (rw a refl))
  Move-Channel {s} (wakes a) = kept _ _ _ (popped-underway s (rw a refl))
  Move-Channel {s} (feeds x now a) = gives x (rw a refl)
  Move-Channel {s} (skips a) = kept _ _ _ (rw a refl)
  Move-Channel {s} (polls_timers now poll_time a) = kept _ _ _ (rw a refl)
  Move-Channel {s} (goes_on a b) = kept _ _ _ (rw a refl)
  Move-Channel {s} (is_told a b) = kept _ _ _ (rw a refl)
  Move-Channel {s} (checks mark_time check_time a) =
      kept _ _ _ (rw (out_of_hand (check_exit s.worker (world s) mark_time check_time).1, a) refl)
  Move-Channel {s} (flushes a) = kept _ _ _ (rw a refl)
  Move-Channel {s} (main_sees a b) = nothing
  Move-Channel {s} (main_joins_rx a b) = nothing
  Move-Channel {s} (main_joins_worker a b) = nothing

  -- The two threads and the queue between them implement a channel. Take what the worker has in
  -- hand and, behind it, what the queue holds for the channel's content. Whatever a thread does or
  -- a signal does, a packet that the queue takes is put at the end, one that it refuses leaves the
  -- content as it is, and one that the manager gets was the first; the content changes in no other
  -- way. A packet is taken only when the channel holds no more than the queue's capacity, and
  -- refused only when it holds that many or more.
  pub Step-Channel :
      {s t : System} {e : Event}
      → Step can_open s e t
      → ChannelStep s.queue.capacity (underway s) e (underway t)
  Step-Channel (moves m) = Move-Channel m
  Step-Channel signals = nothing

abbrev accepted_by : Event → List RxPacket
accepted_by (accepted x) = x ∷ []
accepted_by (refused x) = []
accepted_by (fed x) = []
accepted_by silent = []

abbrev pub fed_by : Event → List RxPacket
fed_by (accepted x) = []
fed_by (refused x) = []
fed_by (fed x) = x ∷ []
fed_by silent = []

-- The packets that the queue has taken, and those that the manager has got, in order.
abbrev pub accepted_in : List Event → List RxPacket
accepted_in [] = []
accepted_in (e ∷ es) = accepted_by e ++ accepted_in es

abbrev pub fed_in : List Event → List RxPacket
fed_in [] = []
fed_in (e ∷ es) = fed_by e ++ fed_in es

accepted_in-snoc :
    (es : List Event) (e : Event) → accepted_in (es ++ e ∷ []) ≡ accepted_in es ++ accepted_by e
accepted_in-snoc [] e = append-nil (accepted_by e)
accepted_in-snoc (d ∷ es) e =
    ap (λ l. accepted_by d ++ l) (accepted_in-snoc es e)
    ∙ sym (append_assoc (accepted_by d) (accepted_in es) (accepted_by e))

pub fed_in-snoc : (es : List Event) (e : Event) → fed_in (es ++ e ∷ []) ≡ fed_in es ++ fed_by e
fed_in-snoc [] e = append-nil (fed_by e)
fed_in-snoc (d ∷ es) e =
    ap (λ l. fed_by d ++ l) (fed_in-snoc es e)
    ∙ sym (append_assoc (fed_by d) (fed_in es) (fed_by e))

-- What a step of the channel hands on.
ChannelStep-balance :
    {capacity : ℕ} {xs ys : List RxPacket} {e : Event}
    → ChannelStep capacity xs e ys
    → fed_by e ++ ys ≡ xs ++ accepted_by e
ChannelStep-balance {xs} (puts x room) = refl
ChannelStep-balance {xs} (loses x full) = sym (append-nil xs)
ChannelStep-balance {xs} (gives x e) = sym e ∙ sym (append-nil xs)
ChannelStep-balance {xs} nothing = sym (append-nil xs)

module _ (can_open : String → Bool) where
  -- In every interleaving of the threads, and at any time: the packets that the manager has got,
  -- then the one that the worker has in hand, then those in the queue, are the packets that the
  -- queue has taken, in the order in which it took them. None is lost, repeated or passed by
  -- another on the way.
  pub Reach-fifo :
      {trace : List Event} {s : System}
      → Reach can_open trace s
      → fed_in trace ++ underway s ≡ accepted_in trace
  unfolding make
  Reach-fifo (launched now) = refl
  Reach-fifo (later {trace} {e} {s} {t} r st) =
      ap (λ l. l ++ underway t) (fed_in-snoc trace e)
      ∙ append_assoc (fed_in trace) (fed_by e) (underway t)
      ∙ ap (λ l. fed_in trace ++ l) (ChannelStep-balance (Step-Channel can_open st))
      ∙ sym (append_assoc (fed_in trace) (underway s) (accepted_by e))
      ∙ ap (λ l. l ++ accepted_by e) (Reach-fifo r)
      ∙ sym (accepted_in-snoc trace e)
