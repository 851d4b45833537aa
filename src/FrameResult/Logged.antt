-- ===== src/FrameResult/Logged.antt =====
-- What FrameStreamStats::log prints of a stream of results.
use Prim.Native.String.{String}
use hv_frame_test.Base.{
  ◌+◌, ◌∙◌, ap, ◌==◌, if◌then◌else◌, ◌<◌, ◌^◌, ◌≡◌, List, [], ◌∷◌, arith, length, u64_mod,
}
use hv_frame_test.HvDebug.{HvDebug}
use hv_frame_test.HvDebug
use hv_frame_test.FrameResult.{FrameResult, FrameStreamStats, update, log}
use hv_frame_test.FrameResult.Counts.{update_all}

-- The counters at the start.
abbrev pub no_frames : FrameStreamStats
no_frames = record {
  frames_total = 0;
  frames_complete = 0;
  frames_partial = 0;
  partial_due_to_queue = 0;
  partial_due_to_gap = 0;
  packets_expected = 0;
  packets_received = 0;
}

total-update :
    (r : FrameResult) (s : FrameStreamStats)
    → s.frames_total + 1 < u64_mod
    → (update s r).frames_total ≡ s.frames_total + 1
unfolding update
total-update r s small = ground arith

total-update_all :
    (s : FrameStreamStats) (rs : List FrameResult)
    → s.frames_total + length rs < u64_mod
    → (update_all s rs).frames_total ≡ s.frames_total + length rs
unfolding update_all
total-update_all s [] small = omega arith
total-update_all s (r ∷ rs) small =
    let e = total-update r s (omega arith) in
    total-update_all (update s r) rs (omega (arith, e)) ∙ omega (arith, e)

-- log prints nothing of an empty stream, and of any other, of fewer than 2^64 results, one line
-- with the level Info and the module FRAME, which the filter may still hold back.
pub log-update_all :
    (d : HvDebug) (text : FrameStreamStats → String) (rs : List FrameResult)
    → length rs < 2 ^ 64
    → let t = update_all no_frames rs in
      log d text t
      ≡ (if length rs == 0 then [] else HvDebug.log d HvDebug.info HvDebug.frame_module (text t))
unfolding log
log-update_all d text rs small =
    let t = update_all no_frames rs in
    ap (λ n. if n == 0 then [] else HvDebug.log d HvDebug.info HvDebug.frame_module (text t))
      (total-update_all no_frames rs (omega arith) ∙ omega arith)
