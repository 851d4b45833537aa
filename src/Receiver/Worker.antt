-- ===== src/Receiver/Worker.antt =====
-- frame_worker_thread: the loop that takes packets from the queue, feeds the manager, and runs its
-- timers until it is told to stop.
use Prim.Native.String.{String}
use hv_frame_test.Base.{
  ℕ, ◌+◌, ◌*◌, Bool, true, false, ◌&&◌, Option, none, some, List, [], ◌∷◌, ◌++◌, ltb, leb, ◌==◌,
  if◌then◌else◌,
}
use hv_frame_test.Protocol.{RxPacket}
use hv_frame_test.FrameResult.{FrameState, FrameResult}
use hv_frame_test.Writer.{FileWrite, write_frame_to_file}
use hv_frame_test.PacketQueue.{make, World, Action, act_all, pop_until, is_nil}
use hv_frame_test.Manager.State.{FrameReassemblerManager, init, push_packet}
use hv_frame_test.Manager.Timers.{poll_timers}
use hv_frame_test.Manager.Flush.{flush_all}

-- MAX_QUEUE_SIZE, MAX_FRAME_SIZE and PAYLOAD_STRIDE.
abbrev max_queue_size : ℕ
max_queue_size = 4096 * 4

abbrev pub max_frame_size : ℕ
max_frame_size = 4096 * 2160 * 2

abbrev pub payload_stride : ℕ
payload_stride = 1400

-- packet_queue and g_shutdown, as the program starts.
abbrev pub initial_world : World RxPacket
initial_world = record { queue = make max_queue_size; shutdown = false }

-- The thread's variables. Times are nanoseconds; a `reminder_start` of 0 is the epoch, which says that
-- it is not set.
pub record Worker : Type 0 where
  pub manager : FrameReassemblerManager
  pub last_timer : ℕ
  pub reminder_start : ℕ

-- What the clock says at each of the calls of now() in one round of the loop, in their order, and what
-- the other threads do to the queue and to g_shutdown in between.
pub record Round : Type 0 where
  pub while_waiting : List (Action RxPacket)
  pub before_push : List (Action RxPacket)
  pub push_time : ℕ
  pub timer_time : ℕ
  pub before_timers : List (Action RxPacket)
  pub poll_time : ℕ
  pub before_check : List (Action RxPacket)
  pub before_empty : List (Action RxPacket)
  pub after_check : List (Action RxPacket)
  pub mark_time : ℕ
  pub check_time : ℕ

-- The manager as the thread makes it, with onFrameDone set, and the first reading of the clock.
unfoldable pub start : ℕ → Worker
start now = record {
  manager = record (init max_frame_size payload_stride) { has_handler = true };
  last_timer = now;
  reminder_start = 0;
}

abbrev pub is_partial_state : FrameState → Bool
is_partial_state FrameState.partial_frame = true
is_partial_state FrameState.receiving = false
is_partial_state FrameState.complete_frame = false
is_partial_state FrameState.emitted = false

-- What one round leaves.
pub record Turn : Type 0 where
  pub worker : Worker
  pub world : World RxPacket
  pub writes : List FileWrite
  pub leaves : Bool

-- The packet that was popped, if one was, goes to the manager.
unfoldable pub feed : Worker → Option RxPacket → World RxPacket → ℕ → Worker
feed k none w now = k
feed k (some pkt) w now = record k { manager = push_packet k.manager pkt w.queue.dropped now }

-- The reminder is set when the thread first finds that it is to stop and that the queue is empty.
unfoldable pub mark : Worker → ℕ → Worker
mark k now = record k { reminder_start = if k.reminder_start == 0 then now else k.reminder_start }

-- The flag is read first, and the queue behind it: what the test makes of the two.
abbrev pub as_tested : World RxPacket → World RxPacket → World RxPacket
as_tested w w' = record w' { shutdown = w.shutdown }

-- Whether the loop is left, 100 ms after that.
unfoldable pub check_exit : Worker → World RxPacket → ℕ → ℕ → Worker × Bool
unfolding mark
check_exit k w mark_time check_time =
    if w.shutdown && is_nil w.queue.q
    then (mark k mark_time, ltb ((mark k mark_time).reminder_start + 100_000_000) check_time)
    else (k, false)

module _ (can_open : String → Bool) where
  -- onFrameDone, for each result in turn.
  unfoldable pub on_frame_done : List FrameResult → List FileWrite
  on_frame_done [] = []
  on_frame_done (r ∷ rs) =
      write_frame_to_file can_open (some r.frame_data) r.frame_size (is_partial_state r.state)
      ++ on_frame_done rs

  -- The timers run every 5 ms.
  unfoldable pub run_timers : Worker → World RxPacket → ℕ → ℕ → Worker × List FileWrite
  unfolding on_frame_done
  run_timers k w now poll_time =
      if leb (k.last_timer + 5_000_000) now
      then (let (m, results) = poll_timers k.manager w.queue.dropped poll_time in
          (record k { manager = m; last_timer = now }, on_frame_done results))
      else (k, [])

  unfoldable pub turn : Worker → World RxPacket → Round → Turn
  unfolding feed run_timers check_exit
  turn k w i =
      let (w1, got) = pop_until w i.while_waiting in
      let w2 = act_all w1 i.before_push in
      let k2 = feed k got w2 i.push_time in
      let w3 = act_all w2 i.before_timers in
      let (k3, writes) = run_timers k2 w3 i.timer_time i.poll_time in
      let w4 = act_all w3 i.before_check in
      let w5 = act_all w4 i.before_empty in
      let (k4, leaves) = check_exit k3 (as_tested w4 w5) i.mark_time i.check_time in
      record { worker = k4; world = act_all w5 i.after_check; writes = writes; leaves = leaves }

  -- The loop over the rounds that are given, and flushAll behind it. `leaves` tells whether the thread
  -- has come to its end.
  unfoldable pub work : Worker → World RxPacket → List Round → Turn
  unfolding turn
  work k w [] = record { worker = k; world = w; writes = []; leaves = false }
  work k w (i ∷ rest) =
      let t = turn k w i in
      let later = work t.worker t.world rest in
      let flushed = flush_all can_open t.worker.manager in
      if t.leaves
      then record t {
        worker = record t.worker { manager = flushed.0 };
        writes = t.writes ++ flushed.1;
      }
      else record later { writes = t.writes ++ later.writes }
