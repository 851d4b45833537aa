-- ===== src/PacketQueue/Atomic.antt =====
-- The mutex makes each call of the queue one step, between which the other thread may run.
use hv_frame_test.Base.{
  ℕ, ◌≡◌, refl, subst, Bool, true, false, none, List, [], ◌∷◌, ◌++◌, leb, length, inc64,
}
use hv_frame_test.PacketQueue.{
  PacketQueue, World, push, try_pop, take_front, take_from, must_wait, is_nil,
}
use hv_frame_test.PacketQueue.Monitor.{
  Monitor, Effect, unseen, entered, slept, handed_out, with_queue, front_of, rest_of, Micro,
  calls_push, locks_push, sizes, drops, puts, unlocks_push, notifies, calls_pop, locks_pop,
  sees_queue, sees_flag, sleeps, wakes_up, locks_again, finds_none, finds_some, takes, unlocks_pop,
  flag_set, MicroReach,
}
use hv_frame_test.PacketQueue.Knows.{PusherKnows, PopperKnows, Coherent}
use hv_frame_test.PacketQueue.Coherent.{MicroReach-Coherent}

module _ {A : Type 0} where
  -- The specification: push and take_from at once, and a sleep only where must_wait says so.
  pub data AtomicStep (w : World A) : Effect A → World A → Type 0 where
    stays : AtomicStep w unseen w
    is_told_to_stop : AtomicStep w unseen (record w { shutdown = true })
    pushes_at_once :
        (x : A) → AtomicStep w (entered x (push w.queue x).1) (with_queue w (push w.queue x).0)
    goes_to_sleep : must_wait w ≡ true → AtomicStep w slept w
    takes_at_once :
        (has_slept : Bool)
        → (has_slept ≡ false → must_wait w ≡ false)
        → AtomicStep w (handed_out has_slept (take_from w).1) (take_from w).0

  push_full :
      (q : PacketQueue A) (x : A)
      → leb q.capacity (length q.q) ≡ true
      → push q x ≡ (record q { dropped = inc64 q.dropped }, false)
  unfolding push
  push_full q x e = rw e refl

  push_room :
      (q : PacketQueue A) (x : A)
      → leb q.capacity (length q.q) ≡ false
      → push q x ≡ (record q { q = q.q ++ x ∷ [] }, true)
  unfolding push
  push_room q x e = rw e refl

  take_from_front :
      (c d : ℕ) (f : Bool) (xs : List A)
      → is_nil xs ≡ false
      → take_from (record { queue = record { capacity = c; q = xs; dropped = d }; shutdown = f })
        ≡ (
          record { queue = record { capacity = c; q = rest_of xs; dropped = d }; shutdown = f },
          front_of xs,
        )
  unfolding take_from try_pop take_front
  take_from_front c d f [] e = absurd (cc)
  take_from_front c d f (x ∷ xs) e = refl

  take_from_nothing :
      (c d : ℕ) (f : Bool) (xs : List A)
      → is_nil xs ≡ true
      → take_from (record { queue = record { capacity = c; q = xs; dropped = d }; shutdown = f })
        ≡ (record { queue = record { capacity = c; q = xs; dropped = d }; shutdown = f }, none)
  unfolding take_from try_pop take_front
  take_from_nothing c d f [] e = refl
  take_from_nothing c d f (x ∷ xs) e = absurd (cc)

  Micro-Atomic :
      {s t : Monitor A} {e : Effect A} → Coherent s → Micro s e t → AtomicStep s.world e t.world
  Micro-Atomic k (calls_push x a) = stays
  Micro-Atomic k (locks_push x a b) = stays
  Micro-Atomic k (sizes x a) = stays
  Micro-Atomic {s} k (drops x a) =
      let (_, full) = subst (PusherKnows s.holder s.world.queue) a k.pusher_knows in
      subst (λ r. AtomicStep s.world (entered x r.1) (with_queue s.world r.0))
        (push_full s.world.queue x full) (pushes_at_once x)
  Micro-Atomic {s} k (puts x a) =
      let (_, room) = subst (PusherKnows s.holder s.world.queue) a k.pusher_knows in
      subst (λ r. AtomicStep s.world (entered x r.1) (with_queue s.world r.0))
        (push_room s.world.queue x room) (pushes_at_once x)
  Micro-Atomic k (unlocks_push b a) = stays
  Micro-Atomic k (notifies a) = stays
  Micro-Atomic k (calls_pop a) = stays
  Micro-Atomic k (locks_pop a b) = stays
  Micro-Atomic k (sees_queue a) = stays
  Micro-Atomic k (sees_flag a b) = stays
  Micro-Atomic {s} k (sleeps a b) =
      let (_, nothing) = subst (PopperKnows s.holder s.world) a k.popper_knows in
      goes_to_sleep (rw (nothing, b) refl)
  Micro-Atomic k (wakes_up a) = stays
  Micro-Atomic k (locks_again a b) = stays
  Micro-Atomic {s} k (finds_none b a empty) =
      let (_, why) = subst (PopperKnows s.holder s.world) a k.popper_knows in
      subst (λ r. AtomicStep s.world (handed_out b r.1) r.0)
        (take_from_nothing s.world.queue.capacity s.world.queue.dropped s.world.shutdown
          s.world.queue.q empty)
        (takes_at_once b why)
  Micro-Atomic k (finds_some b a some_left) = stays
  Micro-Atomic {s} k (takes b a) =
      let (_, why, some_left) = subst (PopperKnows s.holder s.world) a k.popper_knows in
      subst (λ r. AtomicStep s.world (handed_out b r.1) r.0)
        (take_from_front s.world.queue.capacity s.world.queue.dropped s.world.shutdown
          s.world.queue.q some_left)
        (takes_at_once b why)
  Micro-Atomic k (unlocks_pop o a) = stays
  Micro-Atomic k flag_set = is_told_to_stop

  -- The mutex makes the calls of the queue atomic. Let push and pop_until run in two threads, in
  -- any interleaving of their accesses of the mutex, the queue, the flag and the condition
  -- variable, with the signal handler in between and with wake-ups for no reason. Then each access
  -- does to the queue and the flag, and for its thread, nothing, or sets the flag, or does all that
  -- push does, or all that taking from the queue does. pop_until goes to sleep only where must_wait
  -- holds, and takes without a sleep only where it does not.
  pub MicroReach-Atomic :
      {s t : Monitor A} {e : Effect A} → MicroReach s → Micro s e t → AtomicStep s.world e t.world
  MicroReach-Atomic r m = Micro-Atomic (MicroReach-Coherent r) m
