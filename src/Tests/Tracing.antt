-- ===== src/Tests/Tracing.antt =====
-- Two threads that trace at once: the worker overtakes the receiving thread.
use hv_frame_test.Base.{◌-◌, ◌≡◌, refl, none, List, [], ◌∷◌, arith, drop}
use hv_frame_test.DebugLog.{PacketTraceEntry, initial, claim, fill, DumpLine}
use hv_frame_test.DebugLog.Ring.{numbered}
use hv_frame_test.DebugLog.Sources.{rx_entry}
use hv_frame_test.DebugLog.Tracers.{
  Tracing, TraceReach, untraced, traced, rx_claims, worker_claims, rx_fills, worker_fills, IsPrompt,
}
use hv_frame_test.System.State.{launch}
use hv_frame_test.Receiver.Main.{running, not_bound}
use hv_frame_test.Receiver.Return.{main_end}
use hv_frame_test.Receiver.Dumped.{main_end-dumps}
use hv_frame_test.Tests.Data.{first_header, second_header, opens_all}

abbrev first : PacketTraceEntry
first = rx_entry first_header

abbrev second : PacketTraceEntry
second = rx_entry second_header

-- The receiving thread is numbered first, and writes last.
abbrev crossed : Tracing
crossed = record {
  log = fill (fill (claim (claim initial)) 1 second) 0 first;
  rx = none;
  worker = none;
}

Reach-crossed : TraceReach (first ∷ second ∷ []) crossed
unfolding claim initial
Reach-crossed =
    traced
      (traced (traced (traced untraced (rx_claims first refl)) (worker_claims second refl))
        (worker_fills 1 second refl))
      (rx_fills 0 first refl)

Reach-crossed-IsPrompt : IsPrompt Reach-crossed
unfolding Reach-crossed claim fill initial
Reach-crossed-IsPrompt = ((((tt, tt), tt), omega arith), omega arith)

-- The two lines of a dump.
abbrev lines : List DumpLine
lines = numbered (2 - 4096) (drop (2 - 4096) (first ∷ second ∷ []))

main_end-dumps_example :
    ((main_end opens_all (running (launch 0)) crossed.log).dumps ≡ lines ∷ lines ∷ [])
    × ((main_end opens_all not_bound crossed.log).dumps ≡ [] ∷ [])
main_end-dumps_example =
    main_end-dumps opens_all refl Reach-crossed (launch 0) Reach-crossed-IsPrompt (omega arith) refl
      refl
