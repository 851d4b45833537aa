-- ===== src/System/Safe.antt =====
-- What holds in every state that the receiver reaches.
use Prim.Native.String.{String}
use hv_frame_test.Base.{
  ℕ, ◌+◌, ◌%◌, ◌≤◌, ◌≡◌, refl, ap, Bool, List, [], ◌∷◌, ◌++◌, arith, length, length-append, inl,
  inr, u64_mod,
}
use hv_frame_test.Protocol.{RxPacket}
use hv_frame_test.PacketQueue.{PacketQueue, make, push, take_from, try_pop}
use hv_frame_test.PacketQueue.Fifo.{push_lem, try_pop_lem}
use hv_frame_test.System.State.{System}
use hv_frame_test.System.Steps.{
  Event, accepted, refused, fed, silent, push_event, Move, rx_stops, rx_polls, rx_idles, rx_breaks,
  rx_ignores, rx_takes, rx_ruins, rx_pushes, waits, pops, wakes, feeds, skips, polls_timers,
  goes_on, is_told, checks, flushes, main_sees, main_joins_rx, main_joins_worker, Step, moves,
  signals, Reach, launched, later,
}

-- What a step does to the queue.
data QueueStep (q : PacketQueue RxPacket) : Event → PacketQueue RxPacket → Type 0 where
  pushed : (x : RxPacket) → QueueStep q (push_event x (push q x).1) (push q x).0
  taken : QueueStep q silent (try_pop q).0
  kept : (e : Event) → ((x : RxPacket) → e ≡ refused x → ⊥) → QueueStep q e q

quiet : (x : RxPacket) → silent ≡ refused x → ⊥
quiet x e = cc

module _ (can_open : String → Bool) where
  Move-QueueStep : {s t : System} {e : Event} → Move can_open s e t → QueueStep s.queue e t.queue
  unfolding take_from
  Move-QueueStep (rx_stops a b) = kept _ quiet
  Move-QueueStep (rx_polls a b) = kept _ quiet
  Move-QueueStep (rx_idles a) = kept _ quiet
  Move-QueueStep (rx_breaks a) = kept _ quiet
  Move-QueueStep (rx_ignores bytes a b) = kept _ quiet
  Move-QueueStep (rx_takes bytes x a b c) = kept _ quiet
  Move-QueueStep (rx_ruins bytes a b) = kept _ quiet
  Move-QueueStep (rx_pushes x a) = pushed x
  Move-QueueStep (waits a b) = kept _ quiet
  Move-QueueStep (pops a b) = taken
  Move-QueueStep (wakes a) = taken
  Move-QueueStep (feeds x now a) = kept _ (λ y e. cc)
  Move-QueueStep (skips a) = kept _ quiet
  Move-QueueStep (polls_timers now poll_time a) = kept _ quiet
  Move-QueueStep (goes_on a b) = kept _ quiet
  Move-QueueStep (is_told a b) = kept _ quiet
  Move-QueueStep (checks mark_time check_time a) = kept _ quiet
  Move-QueueStep (flushes a) = kept _ quiet
  Move-QueueStep (main_sees a b) = kept _ quiet
  Move-QueueStep (main_joins_rx a b) = kept _ quiet
  Move-QueueStep (main_joins_worker a b) = kept _ quiet

  Step-QueueStep : {s t : System} {e : Event} → Step can_open s e t → QueueStep s.queue e t.queue
  Step-QueueStep (moves m) = Move-QueueStep m
  Step-QueueStep signals = kept _ quiet

abbrev refusals_by : Event → ℕ
refusals_by (accepted x) = 0
refusals_by (refused x) = 1
refusals_by (fed x) = 0
refusals_by silent = 0

-- How many packets the queue has dropped.
abbrev refusals : List Event → ℕ
refusals [] = 0
refusals (e ∷ es) = refusals_by e + refusals es

refusals-snoc :
    (es : List Event) (e : Event) → refusals (es ++ e ∷ []) ≡ refusals es + refusals_by e
refusals-snoc [] e = omega arith
refusals-snoc (d ∷ es) e = omega (arith, refusals-snoc es e)

-- The queue keeps to the capacity that it was made with, and its counter counts what it drops.
pub record QueueSafe (trace : List Event) (q : PacketQueue RxPacket) : Type 0 where
  pub capacity : q.capacity ≡ 16384
  bounded : length q.q ≤ 16384
  pub counted : q.dropped % u64_mod ≡ refusals trace % u64_mod

refusals_none : (e : Event) → ((x : RxPacket) → e ≡ refused x → ⊥) → refusals_by e ≡ 0
refusals_none (accepted x) h = refl
refusals_none (refused x) h = absurd (h x refl)
refusals_none (fed x) h = refl
refusals_none silent h = refl

QueueStep-QueueSafe :
    {q r : PacketQueue RxPacket} {e : Event} (trace : List Event)
    → QueueStep q e r
    → QueueSafe trace q
    → QueueSafe (trace ++ e ∷ []) r
QueueStep-QueueSafe {q} trace (pushed x) v = elim (push_lem q x) [
  | inl (room, e) ↦ rw e (record {
    capacity = v.capacity;
    bounded = omega (arith, v.capacity, length-append q.q (x ∷ []));
    counted = omega (arith, v.counted, refusals-snoc trace (accepted x));
  })
  | inr (full, e) ↦ rw e (record {
    capacity = v.capacity;
    bounded = v.bounded;
    counted = omega (arith, v.counted, refusals-snoc trace (refused x));
  })
]
QueueStep-QueueSafe {q} trace taken v = elim (try_pop_lem q) [
  | inl (_, r) ↦ rw r (record {
    capacity = v.capacity;
    bounded = v.bounded;
    counted = omega (arith, v.counted, refusals-snoc trace silent);
  })
  | inr (x, rest, front, r) ↦ rw r (record {
    capacity = v.capacity;
    bounded = omega (arith, v.bounded, ap length front);
    counted = omega (arith, v.counted, refusals-snoc trace silent);
  })
]
QueueStep-QueueSafe {q} trace (kept e h) v = record {
  capacity = v.capacity;
  bounded = v.bounded;
  counted = omega (arith, v.counted, refusals-snoc trace e, refusals_none e h);
}

module _ (can_open : String → Bool) where
  -- In every interleaving of the threads the queue's capacity is 16384, it never holds more packets
  -- than that, and its counter of dropped packets is the number of pushes that were refused, modulo
  -- 2^64.
  pub Reach-QueueSafe :
      {trace : List Event} {s : System} → Reach can_open trace s → QueueSafe trace s.queue
  unfolding make
  Reach-QueueSafe (launched now) = record { capacity = refl; bounded = omega arith; counted = refl }
  Reach-QueueSafe (later {trace} r st) =
      QueueStep-QueueSafe trace (Step-QueueStep can_open st) (Reach-QueueSafe r)
