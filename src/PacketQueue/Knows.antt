-- ===== src/PacketQueue/Knows.antt =====
-- What push and pop_until know between two accesses.
use hv_frame_test.Base.{◌≡◌, ◌≢◌, refl, Bool, true, false, ◌&&◌, Option, some, leb, length}
use hv_frame_test.PacketQueue.{PacketQueue, World, must_wait, is_nil}
use hv_frame_test.PacketQueue.Monitor.{
  Holder, pusher_holds, popper_holds, PushPc, push_away, push_called, sizing, dropping, putting,
  push_unlocking, notifying, PopPc, pop_away, pop_called, seeing_queue, seeing_flag, asleep, woken,
  deciding, taking, pop_unlocking, Monitor, notified,
}

pub and_false : (b : Bool) → (b && false) ≡ false
and_false true = refl
and_false false = refl

module _ {A : Type 0} where
  -- What push knows while it holds the mutex.
  abbrev pub PusherKnows : Option Holder → PacketQueue A → PushPc A → Type 0
  PusherKnows h q push_away = Unit
  PusherKnows h q (push_called x) = Unit
  PusherKnows h q (sizing x) = h ≡ some pusher_holds
  PusherKnows h q (dropping x) = (h ≡ some pusher_holds) × (leb q.capacity (length q.q) ≡ true)
  PusherKnows h q (putting x) = (h ≡ some pusher_holds) × (leb q.capacity (length q.q) ≡ false)
  PusherKnows h q (push_unlocking b) = h ≡ some pusher_holds
  PusherKnows h q notifying = Unit

  -- What pop_until knows.
  abbrev pub PopperKnows : Option Holder → World A → PopPc A → Type 0
  PopperKnows h w pop_away = Unit
  PopperKnows h w pop_called = Unit
  PopperKnows h w seeing_queue = h ≡ some popper_holds
  PopperKnows h w seeing_flag = (h ≡ some popper_holds) × (is_nil w.queue.q ≡ true)
  PopperKnows h w asleep = Unit
  PopperKnows h w woken = Unit
  PopperKnows h w (deciding b) = (h ≡ some popper_holds) × (b ≡ false → must_wait w ≡ false)
  PopperKnows h w (taking b) =
      (h ≡ some popper_holds) × (b ≡ false → must_wait w ≡ false) × (is_nil w.queue.q ≡ false)
  PopperKnows h w (pop_unlocking o) = h ≡ some popper_holds

  pub record Coherent (s : Monitor A) : Type 0 where
    pub pusher_knows : PusherKnows s.holder s.world.queue s.pusher
    pub popper_knows : PopperKnows s.holder s.world s.popper

  -- A thread that does not hold the mutex knows nothing that could change.
  pub pusher_outside :
      (h h' : Option Holder) (q q' : PacketQueue A) (p : PushPc A)
      → h ≢ some pusher_holds
      → PusherKnows h q p
      → PusherKnows h' q' p
  pusher_outside h h' q q' push_away n k = tt
  pusher_outside h h' q q' (push_called x) n k = tt
  pusher_outside h h' q q' (sizing x) n k = absurd (n k)
  pusher_outside h h' q q' (dropping x) n k = absurd (n k.0)
  pusher_outside h h' q q' (putting x) n k = absurd (n k.0)
  pusher_outside h h' q q' (push_unlocking b) n k = absurd (n k)
  pusher_outside h h' q q' notifying n k = tt

  pub popper_outside :
      (h h' : Option Holder) (w w' : World A) (p : PopPc A)
      → h ≢ some popper_holds
      → PopperKnows h w p
      → PopperKnows h' w' p
  popper_outside h h' w w' pop_away n k = tt
  popper_outside h h' w w' pop_called n k = tt
  popper_outside h h' w w' seeing_queue n k = absurd (n k)
  popper_outside h h' w w' seeing_flag n k = absurd (n k.0)
  popper_outside h h' w w' asleep n k = tt
  popper_outside h h' w w' woken n k = tt
  popper_outside h h' w w' (deciding b) n k = absurd (n k.0)
  popper_outside h h' w w' (taking b) n k = absurd (n k.0)
  popper_outside h h' w w' (pop_unlocking o) n k = absurd (n k)

  pub popper_notified :
      (h : Option Holder) (w : World A) (p : PopPc A)
      → PopperKnows h w p
      → PopperKnows h w (notified p)
  popper_notified h w pop_away k = tt
  popper_notified h w pop_called k = tt
  popper_notified h w seeing_queue k = k
  popper_notified h w seeing_flag k = k
  popper_notified h w asleep k = tt
  popper_notified h w woken k = tt
  popper_notified h w (deciding b) k = k
  popper_notified h w (taking b) k = k
  popper_notified h w (pop_unlocking o) k = k

  -- Once the flag is set nobody need wait.
  must_wait_told : (w : World A) → must_wait (record w { shutdown = true }) ≡ false
  must_wait_told w = and_false (is_nil w.queue.q)

  pub popper_told :
      (h : Option Holder) (w : World A) (p : PopPc A)
      → PopperKnows h w p
      → PopperKnows h (record w { shutdown = true }) p
  popper_told h w pop_away k = tt
  popper_told h w pop_called k = tt
  popper_told h w seeing_queue k = k
  popper_told h w seeing_flag k = k
  popper_told h w asleep k = tt
  popper_told h w woken k = tt
  popper_told h w (deciding b) k = (k.0, λ e. must_wait_told w)
  popper_told h w (taking b) k = (k.0, (λ e. must_wait_told w), k.2)
  popper_told h w (pop_unlocking o) k = k
