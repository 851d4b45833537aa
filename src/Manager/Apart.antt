-- ===== src/Manager/Apart.antt =====
-- The manager's frames against an abstract view: one machine for each frame number, which sees the
-- packets of its own frame and the timers, and nothing of the other frames.
use Prim.Native.String.{String}
use mathlib.Core.Option
use hv_frame_test.Base.{
  ℕ, ◌≡◌, refl, ◌∙◌, ap, ap₂, Bool, Option, none, some, List, [], ◌∷◌, All, ◌==◌, if◌then◌else◌,
  arith,
}
use hv_frame_test.Base.SortedMap.{find, if_kept}
use hv_frame_test.Protocol.{UdpPacketHeader}
use hv_frame_test.Manager.State.{
  FrameReassemblerManager, FrameEntry, init, new_entry, receive, push_packet,
}
use hv_frame_test.Manager.Timers.{poll_timers, force_emit_all}
use hv_frame_test.Manager.Flush.{poll_flush, flush_all}
use hv_frame_test.Manager.Inv.{IsValid}
use hv_frame_test.Manager.Route.{find-push_packet}
use hv_frame_test.Manager.Ending.{is_waiting, find-poll_timers, frames-force_emit_all}
use hv_frame_test.Manager.Flushing.{is_pending, find-poll_flush}
use hv_frame_test.Manager.Run.{
  Call, pushes, polls_timers, forces, polls_flush, flushes, CallFits, step, step-IsValid, run,
}

-- What a call does to frame `k` alone, of which there is an entry or none.
abbrev pub follow :
    (max_frame_size payload_stride k : ℕ) → Option FrameEntry → Call → Option FrameEntry
follow max_frame_size payload_stride k e (pushes x drops now) =
    if x.hdr.frame_id == k
    then some (
        receive x now
          (Option.get_or e (new_entry (init max_frame_size payload_stride) x.hdr drops now)))
    else e
follow max_frame_size payload_stride k e (polls_timers drops now) = if_kept (is_waiting now) e
follow max_frame_size payload_stride k e (forces drops) = none
follow max_frame_size payload_stride k e (polls_flush now) = if_kept (is_pending now) e
follow max_frame_size payload_stride k e flushes = none

unfoldable pub follow_all :
    (max_frame_size payload_stride k : ℕ) → Option FrameEntry → List Call → Option FrameEntry
follow_all max_frame_size payload_stride k e [] = e
follow_all max_frame_size payload_stride k e (c ∷ cs) =
    follow_all max_frame_size payload_stride k (follow max_frame_size payload_stride k e c) cs

-- A new entry rests on nothing of the manager but its dimensions.
new_entry_lem :
    (m : FrameReassemblerManager) (h : UdpPacketHeader) (drops now : ℕ)
    → new_entry m h drops now ≡ new_entry (init m.max_frame_size m.payload_stride) h drops now
unfolding new_entry init
new_entry_lem m h drops now = refl

module _ (can_open : String → Bool) where
  pub step-dimensions :
      (m : FrameReassemblerManager) (c : Call)
      → ((step can_open m c).max_frame_size ≡ m.max_frame_size)
        × ((step can_open m c).payload_stride ≡ m.payload_stride)
  unfolding step push_packet poll_timers force_emit_all poll_flush flush_all
  step-dimensions m (pushes x drops now) = (refl, refl)
  step-dimensions m (polls_timers drops now) = (refl, refl)
  step-dimensions m (forces drops) = (refl, refl)
  step-dimensions m (polls_flush now) = (refl, refl)
  step-dimensions m flushes = (refl, refl)

  pub step-has_handler :
      (m : FrameReassemblerManager) (c : Call) → (step can_open m c).has_handler ≡ m.has_handler
  unfolding step push_packet poll_timers force_emit_all poll_flush flush_all
  step-has_handler m (pushes x drops now) = refl
  step-has_handler m (polls_timers drops now) = refl
  step-has_handler m (forces drops) = refl
  step-has_handler m (polls_flush now) = refl
  step-has_handler m flushes = refl

  pub find-step :
      (m : FrameReassemblerManager) (k : ℕ) (c : Call)
      → IsValid m
      → find k (step can_open m c).frames
        ≡ follow m.max_frame_size m.payload_stride k (find k m.frames) c
  unfolding step
  find-step m k (pushes x drops now) v =
      find-push_packet m x drops now k v ∙ ground (arith, new_entry_lem m x.hdr drops now)
  find-step m k (polls_timers drops now) v = find-poll_timers m drops now k v
  find-step m k (forces drops) v = ap (find k) (frames-force_emit_all m drops) ∙ unfold find in refl
  find-step m k (polls_flush now) v = find-poll_flush can_open m now k v
  find-step m k flushes v = unfold flush_all find in refl

  -- The manager is one machine for each frame number. Through any calls of its methods on a valid
  -- manager, with packets whose header fields fit: the entry of a frame, or that there is none, is
  -- what the machine of that frame alone comes to. The machine starts an entry at the first packet
  -- of its frame and gives it each of that frame's packets, drops it when pollTimers or pollFlush
  -- finds it at its end and at forceEmitAll and flushAll, and sees nothing of the packets of other
  -- frames.
  pub find-run :
      (m : FrameReassemblerManager) (k : ℕ) (cs : List Call)
      → All CallFits cs
      → IsValid m
      → find k (run can_open m cs).frames
        ≡ follow_all m.max_frame_size m.payload_stride k (find k m.frames) cs
  unfolding run follow_all
  find-run m k [] f v = refl
  find-run m k (c ∷ cs) f v =
      find-run (step can_open m c) k cs f.1 (step-IsValid can_open m c f.0 v)
      ∙ let (a, b) = step-dimensions m c in
        ap₂ (λ s t. follow_all s t k (find k (step can_open m c).frames) cs) a b
        ∙ ap (λ e. follow_all m.max_frame_size m.payload_stride k e cs) (find-step m k c v)
