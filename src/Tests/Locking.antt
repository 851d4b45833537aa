-- ===== src/Tests/Locking.antt =====
-- The queue's mutex: a push of a packet that has room.
use hv_frame_test.Base.{ℕ, refl, true, false, some}
use hv_frame_test.PacketQueue.{make}
use hv_frame_test.PacketQueue.Monitor.{
  pusher_holds, putting, pop_called, Monitor, entered, calls_push, locks_push, sizes, puts,
  calls_pop, put_in, push_unlocking, MicroReach, at_rest, after,
}
use hv_frame_test.PacketQueue.Atomic.{AtomicStep, MicroReach-Atomic}

-- push has the mutex and has found room; pop_until has been called and waits for the mutex.
abbrev inside : Monitor ℕ
inside = record {
  holder = some pusher_holds;
  world = record { queue = make 1; shutdown = false };
  pusher = putting 7;
  popper = pop_called;
}

Reach-inside : MicroReach inside
unfolding make
Reach-inside =
    after
      (after (after (after (at_rest 1) (calls_push 7 refl)) (locks_push 7 refl refl))
        (calls_pop refl))
      (sizes 7 refl)

abbrev put : Monitor ℕ
put = record inside { world = put_in inside.world 7; pusher = push_unlocking true }

MicroReach-Atomic_example : AtomicStep inside.world (entered 7 true) put.world
MicroReach-Atomic_example = MicroReach-Atomic Reach-inside (puts 7 refl)
