-- ===== src/DebugLog/Tracers.antt =====
-- trace_packet in two threads at once: fetch_add is one move, the write of the entry another.
use hv_frame_test.Base.{ℕ, ◌+◌, ◌≤◌, ◌≡◌, Option, none, some, List, [], ◌∷◌, ◌++◌}
use hv_frame_test.DebugLog.{PacketTraceEntry, DebugLog, initial, claim, fill}

-- The number that a thread has got and the entry that it has yet to write.
abbrev pub Pending : Type 0
Pending = ℕ × PacketTraceEntry

-- The receiving thread and the worker call it.
pub record Tracing : Type 0 where
  pub log : DebugLog
  pub rx : Option Pending
  pub worker : Option Pending

-- A move of one of them, with the entry that it is numbered for, if it is.
pub data TraceStep (s : Tracing) : List PacketTraceEntry → Tracing → Type 0 where
  rx_claims :
      (e : PacketTraceEntry)
      → s.rx ≡ none
      → TraceStep s (e ∷ []) (record s { log = claim s.log; rx = some (s.log.write_seq, e) })
  worker_claims :
      (e : PacketTraceEntry)
      → s.worker ≡ none
      → TraceStep s (e ∷ []) (record s { log = claim s.log; worker = some (s.log.write_seq, e) })
  rx_fills :
      (q : ℕ) (e : PacketTraceEntry)
      → s.rx ≡ some (q, e)
      → TraceStep s [] (record s { log = fill s.log q e; rx = none })
  worker_fills :
      (q : ℕ) (e : PacketTraceEntry)
      → s.worker ≡ some (q, e)
      → TraceStep s [] (record s { log = fill s.log q e; worker = none })

-- The states that the two come to, with the entries in the order of their numbers.
pub data TraceReach : List PacketTraceEntry → Tracing → Type 0 where
  untraced : TraceReach [] (record { log = initial; rx = none; worker = none })
  traced :
      {es new : List PacketTraceEntry} {s t : Tracing}
      → TraceReach es s
      → TraceStep s new t
      → TraceReach (es ++ new) t

-- When a thread writes its entry, not more than 4096 numbers have been given since its own, its own
-- among them.
abbrev pub FillsInTime : {s t : Tracing} {new : List PacketTraceEntry} → TraceStep s new t → Type 0
FillsInTime (rx_claims e a) = Unit
FillsInTime (worker_claims e a) = Unit
FillsInTime {s} (rx_fills q e a) = s.log.write_seq ≤ q + 4096
FillsInTime {s} (worker_fills q e a) = s.log.write_seq ≤ q + 4096

abbrev pub IsPrompt : {es : List PacketTraceEntry} {s : Tracing} → TraceReach es s → Type 0
IsPrompt untraced = Unit
IsPrompt (traced r st) = IsPrompt r × FillsInTime st
