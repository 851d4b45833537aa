-- ===== src/PacketQueue.antt =====
-- src/common/packet_queue.cpp and its header: the bounded queue between the two threads.
pub mod Fifo
pub mod Waiting
pub mod Monitor
pub mod Knows
pub mod Coherent
pub mod Atomic
use hv_frame_test.Base.{
  ℕ, Bool, true, false, not, ◌&&◌, Option, none, some, List, [], ◌∷◌, ◌++◌, leb, if◌then◌else◌,
  length, inc64,
}

-- `q` begins with the front. An entry stands for the packet that its unique_ptr owns.
pub record PacketQueue {ℓ} (A : Type ℓ) : Type ℓ where
  pub capacity : ℕ
  pub q : List A
  pub dropped : ℕ

module _ {ℓ} {A : Type ℓ} where
  unfoldable pub make : ℕ → PacketQueue A
  make capacity = record { capacity = capacity; q = []; dropped = 0 }

  -- A full queue drops the newest packet.
  unfoldable pub push : PacketQueue A → A → PacketQueue A × Bool
  push s pkt =
      if leb s.capacity (length s.q)
      then (record s { dropped = inc64 s.dropped }, false)
      else (record s { q = s.q ++ pkt ∷ [] }, true)

  -- front() and pop(), on a list.
  unfoldable pub take_front : PacketQueue A → List A → PacketQueue A × Option A
  take_front s [] = (s, none)
  take_front s (x ∷ rest) = (record s { q = rest }, some x)

  unfoldable pub try_pop : PacketQueue A → PacketQueue A × Option A
  unfolding take_front
  try_pop s = take_front s s.q

  abbrev pub is_nil : List A → Bool
  is_nil [] = true
  is_nil (x ∷ xs) = false

  unfoldable empty : PacketQueue A → Bool
  empty s = is_nil s.q

  unfoldable size : PacketQueue A → ℕ
  size s = length s.q

-- What other threads do to the queue and to the shutdown flag while a thread does not hold the lock.
pub data Action {ℓ} (A : Type ℓ) : Type ℓ where
  pushes : A → Action A
  pops : Action A
  shuts_down : Action A

pub record World {ℓ} (A : Type ℓ) : Type ℓ where
  pub queue : PacketQueue A
  pub shutdown : Bool

module _ {ℓ} {A : Type ℓ} where
  unfoldable pub act : World A → Action A → World A
  act w (pushes x) = record w { queue = (push w.queue x).0 }
  act w pops = record w { queue = (try_pop w.queue).0 }
  act w shuts_down = record w { shutdown = true }

  unfoldable pub act_all : World A → List (Action A) → World A
  act_all w [] = w
  act_all w (a ∷ rest) = act_all (act w a) rest

  -- The condition under which a thread waits.
  abbrev pub must_wait : World A → Bool
  must_wait w = is_nil w.queue.q && not w.shutdown

  -- The front goes to the caller, a null pointer if there is none.
  unfoldable pub take_from : World A → World A × Option A
  unfolding try_pop
  take_from w = (record w { queue = (try_pop w.queue).0 }, (try_pop w.queue).1)

  -- pop, and pop_or_shutdown, which waits in the same way. Each list holds what the other threads do
  -- until the thread wakes up, for whatever reason; `none` while it still waits.
  pub pop : World A → List (List (Action A)) → Option (World A × Option A)
  unfolding take_from act_all
  pop w [] = if must_wait w then none else some (take_from w)
  pop w (acts ∷ rest) =
      let later = pop (act_all w acts) rest in if must_wait w then later else some (take_from w)

  unfoldable pop_or_shutdown : World A → List (List (Action A)) → Option (World A × Option A)
  unfolding pop
  pop_or_shutdown w rounds = pop w rounds

  -- pop_until waits at most once, until it is notified or its time has run out.
  unfoldable pub pop_until : World A → List (Action A) → World A × Option A
  unfolding take_from act_all
  pop_until w acts = take_from (if must_wait w then act_all w acts else w)
