-- ===== src/PacketQueue/Monitor.antt =====
-- push and pop_until in two threads at once, between whose accesses of the mutex, the queue, the
-- flag and the condition variable the other thread may run.
use hv_frame_test.Base.{
  ℕ, ◌≡◌, Bool, true, false, Option, none, some, List, [], ◌∷◌, ◌++◌, leb, if◌then◌else◌, length,
  inc64,
}
use hv_frame_test.PacketQueue.{PacketQueue, World, make, is_nil}

-- Who holds the mutex.
pub data Holder : Type 0 where
  pusher_holds popper_holds : Holder

-- push: before the call, before the lock, before the test of the size, in its branches, before the
-- lock is given back, and before notify_one.
pub data PushPc (A : Type 0) : Type 0 where
  push_away : PushPc A
  push_called sizing dropping putting : A → PushPc A
  push_unlocking : Bool → PushPc A
  notifying : PushPc A

-- pop_until: before the call, before the lock, before the test of the queue, of the flag, in wait_for,
-- behind it before the lock, before the second test of the queue, before front and pop, and before the
-- lock is given back. The flag says whether the thread has been in wait_for.
pub data PopPc (A : Type 0) : Type 0 where
  pop_away pop_called seeing_queue seeing_flag asleep woken : PopPc A
  deciding taking : Bool → PopPc A
  pop_unlocking : Option A → PopPc A

pub record Monitor (A : Type 0) : Type 0 where
  pub holder : Option Holder
  pub world : World A
  pub pusher : PushPc A
  pub popper : PopPc A

-- What a move does for the rest of the program: nothing, it enters a packet or drops it, it goes to
-- sleep, or it hands out a packet or a null pointer, after a sleep or without one.
pub data Effect (A : Type 0) : Type 0 where
  unseen : Effect A
  entered : A → Bool → Effect A
  slept : Effect A
  handed_out : Bool → Option A → Effect A

module _ {A : Type 0} where
  abbrev pub with_queue : World A → PacketQueue A → World A
  with_queue w q = record w { queue = q }

  -- notify_one.
  abbrev pub notified : PopPc A → PopPc A
  notified asleep = woken
  notified pop_away = pop_away
  notified pop_called = pop_called
  notified seeing_queue = seeing_queue
  notified seeing_flag = seeing_flag
  notified woken = woken
  notified (deciding b) = deciding b
  notified (taking b) = taking b
  notified (pop_unlocking o) = pop_unlocking o

  -- dropped_++, q_.push and q_.pop.
  abbrev pub count_drop : World A → World A
  count_drop w = with_queue w (record w.queue { dropped = inc64 w.queue.dropped })

  abbrev pub put_in : World A → A → World A
  put_in w x = with_queue w (record w.queue { q = w.queue.q ++ x ∷ [] })

  abbrev pub front_of : List A → Option A
  front_of [] = none
  front_of (x ∷ xs) = some x

  abbrev pub rest_of : List A → List A
  rest_of [] = []
  rest_of (x ∷ xs) = xs

  abbrev pub take_out : World A → World A
  take_out w = with_queue w (record w.queue { q = rest_of w.queue.q })

  -- One access, in either thread.
  pub data Micro (s : Monitor A) : Effect A → Monitor A → Type 0 where
    calls_push :
        (x : A) → s.pusher ≡ push_away → Micro s unseen (record s { pusher = push_called x })
    locks_push :
        (x : A)
        → s.pusher ≡ push_called x
        → s.holder ≡ none
        → Micro s unseen (record s { holder = some pusher_holds; pusher = sizing x })
    sizes :
        (x : A)
        → s.pusher ≡ sizing x
        → Micro s unseen (record s {
          pusher =
              if leb s.world.queue.capacity (length s.world.queue.q) then dropping x else putting x;
        })
    drops :
        (x : A)
        → s.pusher ≡ dropping x
        → Micro s
            (entered x false)
            (record s { world = count_drop s.world; pusher = push_unlocking false })
    puts :
        (x : A)
        → s.pusher ≡ putting x
        → Micro s
            (entered x true)
            (record s { world = put_in s.world x; pusher = push_unlocking true })
    unlocks_push :
        (b : Bool)
        → s.pusher ≡ push_unlocking b
        → Micro s unseen (record s { holder = none; pusher = if b then notifying else push_away })
    notifies :
        s.pusher ≡ notifying
        → Micro s unseen (record s { pusher = push_away; popper = notified s.popper })
    calls_pop : s.popper ≡ pop_away → Micro s unseen (record s { popper = pop_called })
    locks_pop :
        s.popper ≡ pop_called
        → s.holder ≡ none
        → Micro s unseen (record s { holder = some popper_holds; popper = seeing_queue })
    sees_queue :
        s.popper ≡ seeing_queue
        → Micro s unseen
            (record s { popper = if is_nil s.world.queue.q then seeing_flag else deciding false })
    sees_flag :
        s.popper ≡ seeing_flag
        → s.world.shutdown ≡ true
        → Micro s unseen (record s { popper = deciding false })
    -- wait_for gives the lock back
    sleeps :
        s.popper ≡ seeing_flag
        → s.world.shutdown ≡ false
        → Micro s slept (record s { holder = none; popper = asleep })
    -- the time is over, or there is no reason
    wakes_up : s.popper ≡ asleep → Micro s unseen (record s { popper = woken })
    locks_again :
        s.popper ≡ woken
        → s.holder ≡ none
        → Micro s unseen (record s { holder = some popper_holds; popper = deciding true })
    finds_none :
        (b : Bool)
        → s.popper ≡ deciding b
        → is_nil s.world.queue.q ≡ true
        → Micro s (handed_out b none) (record s { popper = pop_unlocking none })
    finds_some :
        (b : Bool)
        → s.popper ≡ deciding b
        → is_nil s.world.queue.q ≡ false
        → Micro s unseen (record s { popper = taking b })
    takes :
        (b : Bool)
        → s.popper ≡ taking b
        → Micro s (handed_out b (front_of s.world.queue.q)) (record s {
          world = take_out s.world;
          popper = pop_unlocking (front_of s.world.queue.q);
        })
    unlocks_pop :
        (o : Option A)
        → s.popper ≡ pop_unlocking o
        → Micro s unseen (record s { holder = none; popper = pop_away })
    -- the signal handler, which takes no lock
    flag_set : Micro s unseen (record s { world = record s.world { shutdown = true } })

  -- The states that the two threads come to.
  pub data MicroReach : Monitor A → Type 0 where
    at_rest :
        (capacity : ℕ)
        → MicroReach (record {
          holder = none;
          world = record { queue = make capacity; shutdown = false };
          pusher = push_away;
          popper = pop_away;
        })
    after : {s t : Monitor A} {e : Effect A} → MicroReach s → Micro s e t → MicroReach t
