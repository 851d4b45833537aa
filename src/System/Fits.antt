-- ===== src/System/Fits.antt =====
-- The manager's invariant, and the headers of the packets underway, in every state that the receiver
-- reaches.
use Prim.Native.String.{String}
use hv_frame_test.Base.{◌≡◌, refl, subst, Bool, some, List, [], All, arith, inl, inr}
use hv_frame_test.Protocol.{RxPacket}
use hv_frame_test.Reassembler.Inv.{HeaderFits}
use hv_frame_test.PacketQueue.{make, push, take_from}
use hv_frame_test.PacketQueue.Fifo.{push_lem, try_pop_lem}
use hv_frame_test.Manager.Inv.{IsValid}
use hv_frame_test.Manager.State.{init}
use hv_frame_test.Receiver.Fits.{rx_datagram-HeaderFits}
use hv_frame_test.Receiver.Worker.{start, check_exit}
use hv_frame_test.Receiver.Sound.{
  feed-IsValid, run_timers-IsValid, flush_all-IsValid, check_exit-manager, All-snoc,
}
use hv_frame_test.System.State.{
  System, RxPc, WorkerPc, MainPc, at_head, polling, pushing, rx_finished, ruined, at_pop, in_wait,
  at_timers, at_queue, joining_rx, joining_worker, returned, world,
}
use hv_frame_test.System.Steps.{
  Event, popped, Move, rx_stops, rx_polls, rx_idles, rx_breaks, rx_ignores, rx_takes, rx_ruins,
  rx_pushes, waits, pops, wakes, feeds, skips, polls_timers, goes_on, is_told, checks, flushes,
  main_sees, main_joins_rx, main_joins_worker, Step, moves, signals, Reach, launched, later,
}
use hv_frame_test.System.Channel.{in_hand, out_of_hand}

abbrev pub AllFit : List RxPacket → Type 0
AllFit xs = All (λ x. HeaderFits x.hdr) xs

abbrev RxFits : RxPc → Type 0
RxFits (pushing x) = HeaderFits x.hdr
RxFits at_head = Unit
RxFits polling = Unit
RxFits rx_finished = Unit
RxFits ruined = Unit

pub record Sound (s : System) : Type 0 where
  pub manager : IsValid s.worker.manager
  queued_fit : AllFit s.queue.q
  pub in_hand_fits : AllFit (in_hand s.pc)
  rx_fits : RxFits s.rx

popped-Sound : (s : System) → Sound s → Sound (popped s)
unfolding take_from
popped-Sound s v = elim (try_pop_lem s.queue) [
  | inl (_, r) ↦ rw r (record {
    manager = v.manager;
    queued_fit = v.queued_fit;
    in_hand_fits = tt;
    rx_fits = v.rx_fits;
  })
  | inr (x, rest, front, r) ↦ rw r (record {
    manager = v.manager;
    queued_fit = (rw front at v.queued_fit).1;
    in_hand_fits = ((rw front at v.queued_fit).0, tt);
    rx_fits = v.rx_fits;
  })
]

-- The same state with the receiving thread, or the worker, somewhere else.
at_rx : (s : System) (p : RxPc) → Sound s → RxFits p → Sound (record s { rx = p })
at_rx s p v f = record {
  manager = v.manager;
  queued_fit = v.queued_fit;
  in_hand_fits = v.in_hand_fits;
  rx_fits = f;
}

at_pc : (s : System) (p : WorkerPc) → Sound s → AllFit (in_hand p) → Sound (record s { pc = p })
at_pc s p v f = record {
  manager = v.manager;
  queued_fit = v.queued_fit;
  in_hand_fits = f;
  rx_fits = v.rx_fits;
}

-- The same state with another manager, and nothing in the worker's hand.
worked :
    (s t : System)
    → Sound s
    → t.queue ≡ s.queue
    → t.rx ≡ s.rx
    → in_hand t.pc ≡ []
    → IsValid t.worker.manager
    → Sound t
worked s t v q r p valid = record {
  manager = valid;
  queued_fit = rw q v.queued_fit;
  in_hand_fits = rw p tt;
  rx_fits = rw r v.rx_fits;
}

at_main : (s : System) (p : MainPc) → Sound s → Sound (record s { main = p })
at_main s p v = record {
  manager = v.manager;
  queued_fit = v.queued_fit;
  in_hand_fits = v.in_hand_fits;
  rx_fits = v.rx_fits;
}

pushed-Sound :
    (s : System) (x : RxPacket)
    → s.rx ≡ pushing x
    → Sound s
    → Sound (record s { queue = (push s.queue x).0; rx = at_head })
pushed-Sound s x a v = elim (push_lem s.queue x) [
  | inl (_, e) ↦ rw e (record {
    manager = v.manager;
    queued_fit = All-snoc s.queue.q x v.queued_fit (subst RxFits a v.rx_fits);
    in_hand_fits = v.in_hand_fits;
    rx_fits = tt;
  })
  | inr (_, e) ↦ rw e (record {
    manager = v.manager;
    queued_fit = v.queued_fit;
    in_hand_fits = v.in_hand_fits;
    rx_fits = tt;
  })
]

module _ (can_open : String → Bool) where
  Move-Sound : {s t : System} {e : Event} → Move can_open s e t → Sound s → Sound t
  Move-Sound {s} (rx_stops a b) v = at_rx s rx_finished v tt
  Move-Sound {s} (rx_polls a b) v = at_rx s polling v tt
  Move-Sound {s} (rx_idles a) v = at_rx s at_head v tt
  Move-Sound {s} (rx_breaks a) v = at_rx s rx_finished v tt
  Move-Sound {s} (rx_ignores bytes a b) v = at_rx s at_head v tt
  Move-Sound {s} (rx_takes bytes x a b c) v =
      at_rx s (pushing x) v (rx_datagram-HeaderFits bytes x b c)
  Move-Sound {s} (rx_ruins bytes a b) v = at_rx s ruined v tt
  Move-Sound {s} (rx_pushes x a) v = pushed-Sound s x a v
  Move-Sound {s} (waits a b) v = at_pc s in_wait v tt
  Move-Sound {s} (pops a b) v = popped-Sound s v
  Move-Sound {s} (wakes a) v = popped-Sound s v
  Move-Sound {s} (feeds x now a) v = worked s _ v refl refl refl (
      feed-IsValid s.worker (some x) (world s) now
        (subst (λ p. AllFit (in_hand p)) a v.in_hand_fits).0 v.manager)
  Move-Sound {s} (skips a) v = at_pc s at_timers v tt
  Move-Sound {s} (polls_timers now poll_time a) v =
      worked s _ v refl refl refl
        (run_timers-IsValid can_open s.worker (world s) now poll_time v.manager)
  Move-Sound {s} (goes_on a b) v = at_pc s at_pop v tt
  Move-Sound {s} (is_told a b) v = at_pc s at_queue v tt
  Move-Sound {s} (checks mark_time check_time a) v =
      worked s _ v refl refl (out_of_hand (check_exit s.worker (world s) mark_time check_time).1)
        (rw (check_exit-manager can_open s.worker (world s) mark_time check_time) v.manager)
  Move-Sound {s} (flushes a) v =
      worked s _ v refl refl refl (flush_all-IsValid can_open s.worker.manager v.manager)
  Move-Sound {s} (main_sees a b) v = at_main s joining_rx v
  Move-Sound {s} (main_joins_rx a b) v = at_main s joining_worker v
  Move-Sound {s} (main_joins_worker a b) v = at_main s returned v

  Step-Sound : {s t : System} {e : Event} → Step can_open s e t → Sound s → Sound t
  Step-Sound (moves m) v = Move-Sound m v
  Step-Sound {s} signals v = record {
    manager = v.manager;
    queued_fit = v.queued_fit;
    in_hand_fits = v.in_hand_fits;
    rx_fits = v.rx_fits;
  }

  -- In every interleaving of the threads, where what comes from the socket is bytes: the manager is
  -- valid, and every packet in the queue, in the worker's hand and in the receiving thread's hand
  -- has header fields that fit their integers.
  pub Reach-Sound : {trace : List Event} {s : System} → Reach can_open trace s → Sound s
  unfolding make start init
  Reach-Sound (launched now) = record {
    manager = record { stride_fits = omega arith; sorted = tt; entries = tt };
    queued_fit = tt;
    in_hand_fits = tt;
    rx_fits = tt;
  }
  Reach-Sound (later r st) = Step-Sound st (Reach-Sound r)
