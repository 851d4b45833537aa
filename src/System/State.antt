-- ===== src/System/State.antt =====
-- Where the three threads of the receiver stand, and what they share.
use hv_frame_test.Base.{ℕ, Bool, Option, List, []}
use hv_frame_test.Protocol.{RxPacket}
use hv_frame_test.Writer.{FileWrite}
use hv_frame_test.PacketQueue.{PacketQueue, World}
use hv_frame_test.Receiver.Worker.{Worker, initial_world, start}

-- udp_rx_thread: at the test of its loop, in poll and recvfrom, before the push of a packet, at its
-- end, and past a packet's end, where nothing more is known of it.
pub data RxPc : Type 0 where
  at_head polling : RxPc
  pushing : RxPacket → RxPc
  rx_finished ruined : RxPc

-- frame_worker_thread: before pop_until, in its wait, behind it, before the timers, before the test of
-- the flag and, where that is set, of the queue, before flushAll, and at its end.
pub data WorkerPc : Type 0 where
  at_pop in_wait : WorkerPc
  got : Option RxPacket → WorkerPc
  at_timers at_flag at_queue leaving worker_finished : WorkerPc

-- main: in its loop, in the two joins, and at its end.
pub data MainPc : Type 0 where
  sleeping joining_rx joining_worker returned : MainPc

-- `writes` are the files that the worker has written.
pub record System : Type 0 where
  pub queue : PacketQueue RxPacket
  pub shutdown : Bool
  pub rx : RxPc
  pub pc : WorkerPc
  pub worker : Worker
  pub writes : List FileWrite
  pub main : MainPc

-- What the threads share.
abbrev pub world : System → World RxPacket
world s = record { queue = s.queue; shutdown = s.shutdown }

-- Both threads have been started; the worker has read the clock.
abbrev pub launch : ℕ → System
launch now = record {
  queue = initial_world.queue;
  shutdown = initial_world.shutdown;
  rx = at_head;
  pc = at_pop;
  worker = start now;
  writes = [];
  main = sleeping;
}
