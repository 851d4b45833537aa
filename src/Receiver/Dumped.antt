-- ===== src/Receiver/Dumped.antt =====
-- What packet_trace.log holds once the receiver has ended.
use Prim.Native.String.{String}
use hv_frame_test.Base.{
  ◌-◌, ◌<◌, ◌^◌, ◌≡◌, refl, Bool, true, none, List, [], ◌∷◌, arith, length, drop,
}
use hv_frame_test.DebugLog.{PacketTraceEntry}
use hv_frame_test.DebugLog.Ring.{numbered}
use hv_frame_test.DebugLog.Tracers.{Tracing, TraceReach, untraced, IsPrompt}
use hv_frame_test.DebugLog.Crossing.{crossing_dump}
use hv_frame_test.System.State.{System}
use hv_frame_test.Receiver.Main.{not_bound, running}
use hv_frame_test.Receiver.Return.{main_end, on_exit_dump, finish}

module _ (can_open : String → Bool) (opens : can_open "packet_trace.log" ≡ true) where
  -- What the trace holds at the end. Two threads trace at once, a number first and the entry behind
  -- it. If no thread writes an entry when more than 4096 numbers have been given since and with its
  -- own, fewer than 2^64 entries are traced, no entry is left to write, and packet_trace.log can be
  -- opened, then main, once its threads have run, dumps twice, and each dump shows the last 4096
  -- entries, or all if they are fewer, in the order of their numbers. Where bind fails, the file is
  -- written over with a dump of no entries.
  pub main_end-dumps :
      {es : List PacketTraceEntry} {s : Tracing} (r : TraceReach es s) (t : System)
      → IsPrompt r
      → length es < 2 ^ 64
      → s.rx ≡ none
      → s.worker ≡ none
      → let last = numbered (length es - 4096) (drop (length es - 4096) es) in
        ((main_end can_open (running t) s.log).dumps ≡ last ∷ last ∷ [])
        × ((main_end can_open not_bound s.log).dumps ≡ [] ∷ [])
  unfolding main_end finish on_exit_dump
  main_end-dumps {es} {s} r t prompt room rx_idle worker_idle = (
    rw (crossing_dump can_open "packet_trace.log" r opens prompt room rx_idle worker_idle) refl,
    rw (crossing_dump can_open "packet_trace.log" untraced opens tt (omega arith) refl refl)
        (unfold numbered in refl),
  )
