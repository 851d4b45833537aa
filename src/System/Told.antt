-- ===== src/System/Told.antt =====
-- What udp_rx_thread and main can still do once the flag is set.
use Prim.Native.String.{String}
use hv_frame_test.Base.{
  ℕ, ◌+◌, ◌≤◌, ◌≡◌, refl, ◌∙◌, sym, ap, Bool, true, false, List, [], ◌∷◌, ◌++◌, arith,
}
use hv_frame_test.Protocol.{RxPacket}
use hv_frame_test.PacketQueue.{push}
use hv_frame_test.System.State.{
  System, RxPc, at_head, polling, pushing, rx_finished, ruined, MainPc, sleeping, joining_rx,
  joining_worker, returned,
}
use hv_frame_test.System.Steps.{
  Event, accepted, refused, fed, silent, push_event, rx_stops, rx_polls, rx_idles, rx_breaks,
  rx_ignores, rx_takes, rx_ruins, rx_pushes, waits, pops, wakes, feeds, skips, polls_timers,
  goes_on, is_told, checks, flushes, main_sees, main_joins_rx, main_joins_worker, Step, moves,
  signals, Way, here, and_then,
}

-- How many packets the receiving thread has offered to the queue.
abbrev offers : Event → ℕ
offers (accepted x) = 1
offers (refused x) = 1
offers (fed x) = 0
offers silent = 0

abbrev pub offers_in : List Event → ℕ
offers_in [] = 0
offers_in (e ∷ es) = offers e + offers_in es

offers_in-snoc : (es : List Event) (e : Event) → offers_in (es ++ e ∷ []) ≡ offers_in es + offers e
offers_in-snoc [] e = omega arith
offers_in-snoc (d ∷ es) e = omega (arith, offers_in-snoc es e)

module _ (can_open : String → Bool) where
  -- Whether it is the receiving thread that moves, and whether it is main.
  abbrev rx_move : {s t : System} {e : Event} → Step can_open s e t → ℕ
  rx_move (moves (rx_stops a b)) = 1
  rx_move (moves (rx_polls a b)) = 1
  rx_move (moves (rx_idles a)) = 1
  rx_move (moves (rx_breaks a)) = 1
  rx_move (moves (rx_ignores bytes a b)) = 1
  rx_move (moves (rx_takes bytes x a b c)) = 1
  rx_move (moves (rx_ruins bytes a b)) = 1
  rx_move (moves (rx_pushes x a)) = 1
  rx_move other = 0

  abbrev main_move : {s t : System} {e : Event} → Step can_open s e t → ℕ
  main_move (moves (main_sees a b)) = 1
  main_move (moves (main_joins_rx a b)) = 1
  main_move (moves (main_joins_worker a b)) = 1
  main_move other = 0

  abbrev pub rx_moves : {s t : System} {es : List Event} → Way can_open s es t → ℕ
  rx_moves here = 0
  rx_moves (and_then w st) = rx_moves w + rx_move st

  abbrev pub main_moves : {s t : System} {es : List Event} → Way can_open s es t → ℕ
  main_moves here = 0
  main_moves (and_then w st) = main_moves w + main_move st

-- How many moves, and offers, there can still be once the flag is set.
abbrev rx_rank : RxPc → ℕ
rx_rank polling = 3
rx_rank (pushing x) = 2
rx_rank at_head = 1
rx_rank rx_finished = 0
rx_rank ruined = 0

abbrev offer_rank : RxPc → ℕ
offer_rank polling = 1
offer_rank (pushing x) = 1
offer_rank at_head = 0
offer_rank rx_finished = 0
offer_rank ruined = 0

abbrev main_rank : MainPc → ℕ
main_rank sleeping = 3
main_rank joining_rx = 2
main_rank joining_worker = 1
main_rank returned = 0

-- From s to t the flag stays set; so many moves and offers are taken from what is left.
record Spends (s t : System) (rx_count main_count offer_count : ℕ) : Type 0 where
  told : t.shutdown ≡ true
  rx_spent : rx_count + rx_rank t.rx ≤ rx_rank s.rx
  main_spent : main_count + main_rank t.main ≤ main_rank s.main
  offers_spent : offer_count + offer_rank t.rx ≤ offer_rank s.rx

idle :
    (s t : System)
    → s.shutdown ≡ true
    → t.shutdown ≡ s.shutdown
    → t.rx ≡ s.rx
    → t.main ≡ s.main
    → Spends s t 0 0 0
idle s t on e f g = record {
  told = e ∙ on;
  rx_spent = omega (arith, ap rx_rank f);
  main_spent = omega (arith, ap main_rank g);
  offers_spent = omega (arith, ap offer_rank f);
}

rx_spends :
    (s t : System)
    → s.shutdown ≡ true
    → t.shutdown ≡ s.shutdown
    → t.main ≡ s.main
    → (n : ℕ) {p : RxPc} → s.rx ≡ p
    → 1 + rx_rank t.rx ≤ rx_rank p
    → n + offer_rank t.rx ≤ offer_rank p
    → Spends s t 1 0 n
rx_spends s t on e g n a le lo = record {
  told = e ∙ on;
  rx_spent = omega (arith, le, ap rx_rank a);
  main_spent = omega (arith, ap main_rank g);
  offers_spent = omega (arith, lo, ap offer_rank a);
}

main_spends :
    (s t : System)
    → s.shutdown ≡ true
    → t.shutdown ≡ s.shutdown
    → t.rx ≡ s.rx
    → {p : MainPc} → s.main ≡ p
    → 1 + main_rank t.main ≤ main_rank p
    → Spends s t 0 1 0
main_spends s t on e f a le = record {
  told = e ∙ on;
  rx_spent = omega (arith, ap rx_rank f);
  main_spent = omega (arith, le, ap main_rank a);
  offers_spent = omega (arith, ap offer_rank f);
}

one_offer : (x : RxPacket) (b : Bool) → offers (push_event x b) ≡ 1
one_offer x true = refl
one_offer x false = refl

module _ (can_open : String → Bool) where
  Step-Spends :
      {s t : System} {e : Event} (st : Step can_open s e t)
      → s.shutdown ≡ true
      → Spends s t (rx_move can_open st) (main_move can_open st) (offers e)
  Step-Spends {s} (moves (rx_stops a b)) on =
      rx_spends s _ on refl refl 0 a (omega arith) (omega arith)
  Step-Spends {s} (moves (rx_polls a b)) on = cc
  Step-Spends {s} (moves (rx_idles a)) on =
      rx_spends s _ on refl refl 0 a (omega arith) (omega arith)
  Step-Spends {s} (moves (rx_breaks a)) on =
      rx_spends s _ on refl refl 0 a (omega arith) (omega arith)
  Step-Spends {s} (moves (rx_ignores bytes a b)) on =
      rx_spends s _ on refl refl 0 a (omega arith) (omega arith)
  Step-Spends {s} (moves (rx_takes bytes x a b c)) on =
      rx_spends s _ on refl refl 0 a (omega arith) (omega arith)
  Step-Spends {s} (moves (rx_ruins bytes a b)) on =
      rx_spends s _ on refl refl 0 a (omega arith) (omega arith)
  Step-Spends {s} (moves (rx_pushes x a)) on =
      rx_spends s _ on refl refl _ a (omega arith) (omega (arith, one_offer x (push s.queue x).1))
  Step-Spends {s} (moves (waits a b)) on = idle s _ on refl refl refl
  Step-Spends {s} (moves (pops a b)) on = idle s _ on refl refl refl
  Step-Spends {s} (moves (wakes a)) on = idle s _ on refl refl refl
  Step-Spends {s} (moves (feeds x now a)) on = idle s _ on refl refl refl
  Step-Spends {s} (moves (skips a)) on = idle s _ on refl refl refl
  Step-Spends {s} (moves (polls_timers now poll_time a)) on = idle s _ on refl refl refl
  Step-Spends {s} (moves (goes_on a b)) on = idle s _ on refl refl refl
  Step-Spends {s} (moves (is_told a b)) on = idle s _ on refl refl refl
  Step-Spends {s} (moves (checks mark_time check_time a)) on = idle s _ on refl refl refl
  Step-Spends {s} (moves (flushes a)) on = idle s _ on refl refl refl
  Step-Spends {s} (moves (main_sees a b)) on = main_spends s _ on refl refl a (omega arith)
  Step-Spends {s} (moves (main_joins_rx a b)) on = main_spends s _ on refl refl a (omega arith)
  Step-Spends {s} (moves (main_joins_worker a b)) on = main_spends s _ on refl refl a (omega arith)
  Step-Spends {s} signals on = idle s _ on (sym on) refl refl

  Way-Spends :
      {s t : System} {es : List Event} (w : Way can_open s es t)
      → s.shutdown ≡ true
      → Spends s t (rx_moves can_open w) (main_moves can_open w) (offers_in es)
  Way-Spends {s} here on = idle s s on refl refl refl
  Way-Spends {s} (and_then {es} {e} w st) on =
      let before = Way-Spends w on in
      let last = Step-Spends st before.told in
      record {
        told = last.told;
        rx_spent = omega (arith, before.rx_spent, last.rx_spent);
        main_spent = omega (arith, before.main_spent, last.main_spent);
        offers_spent = omega (arith, before.offers_spent, last.offers_spent, offers_in-snoc es e);
      }

  rx_bound : (p : RxPc) → (rx_rank p ≤ 3) × (offer_rank p ≤ 1)
  rx_bound polling = (omega arith, omega arith)
  rx_bound (pushing x) = (omega arith, omega arith)
  rx_bound at_head = (omega arith, omega arith)
  rx_bound rx_finished = (omega arith, omega arith)
  rx_bound ruined = (omega arith, omega arith)

  main_bound : (p : MainPc) → main_rank p ≤ 3
  main_bound sleeping = omega arith
  main_bound joining_rx = omega arith
  main_bound joining_worker = omega arith
  main_bound returned = omega arith

  -- From any state in which the shutdown flag is set, and however the threads are interleaved from
  -- there on, udp_rx_thread makes three moves at most and main three at most, and the queue is
  -- offered one more packet at most, whether it takes it or not.
  pub told_lem :
      {s t : System} {es : List Event} (w : Way can_open s es t)
      → s.shutdown ≡ true
      → (rx_moves can_open w ≤ 3) × (main_moves can_open w ≤ 3) × (offers_in es ≤ 1)
  told_lem {s} w on =
      let l = Way-Spends w on in
      (
        omega (arith, l.rx_spent, (rx_bound s.rx).0),
        omega (arith, l.main_spent, main_bound s.main),
        omega (arith, l.offers_spent, (rx_bound s.rx).1),
      )
