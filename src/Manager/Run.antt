-- ===== src/Manager/Run.antt =====
-- Any sequence of calls of the manager's methods.
use Prim.Native.String.{String}
use hv_frame_test.Base.{ℕ, Bool, some, List, [], ◌∷◌, ◌++◌, All}
use hv_frame_test.Protocol.{RxPacket}
use hv_frame_test.Reassembler.Inv.{HeaderFits}
use hv_frame_test.Manager.State.{FrameReassemblerManager, push_packet}
use hv_frame_test.Manager.Timers.{poll_timers, force_emit_all, timer_verdict, forced_state}
use hv_frame_test.Manager.Flush.{poll_flush, flush_all}
use hv_frame_test.Manager.Inv.{IsValid, push_packet-IsValid, retain-IsValid}
use hv_frame_test.Manager.Loop.{IsBalanced, frames-emit_loop, emit_loop-IsBalanced}
use hv_frame_test.Manager.Ending.{poll_timers-IsValid}
use hv_frame_test.Manager.Flushing.{frames-flush_loop}

-- A call with its arguments and the time at which it is made.
pub data Call : Type 0 where
  pushes : RxPacket → ℕ → ℕ → Call
  polls_timers : ℕ → ℕ → Call
  forces : ℕ → Call
  polls_flush : ℕ → Call
  flushes : Call

abbrev pub CallFits : Call → Type 0
CallFits (pushes x drops now) = HeaderFits x.hdr
CallFits (polls_timers drops now) = Unit
CallFits (forces drops) = Unit
CallFits (polls_flush now) = Unit
CallFits flushes = Unit

abbrev pub pushed_by : Call → List RxPacket
pushed_by (pushes x drops now) = x ∷ []
pushed_by (polls_timers drops now) = []
pushed_by (forces drops) = []
pushed_by (polls_flush now) = []
pushed_by flushes = []

-- The packets that the calls hand to the manager.
abbrev pub pushed_in : List Call → List RxPacket
pushed_in [] = []
pushed_in (c ∷ cs) = pushed_by c ++ pushed_in cs

module _ (can_open : String → Bool) where
  unfoldable pub step : FrameReassemblerManager → Call → FrameReassemblerManager
  step m (pushes x drops now) = push_packet m x drops now
  step m (polls_timers drops now) = (poll_timers m drops now).0
  step m (forces drops) = (force_emit_all m drops).0
  step m (polls_flush now) = (poll_flush can_open m now).0
  step m flushes = (flush_all can_open m).0

  unfoldable pub run : FrameReassemblerManager → List Call → FrameReassemblerManager
  run m [] = m
  run m (c ∷ cs) = run (step m c) cs

  pub step-IsValid :
      (m : FrameReassemblerManager) (c : Call) → CallFits c → IsValid m → IsValid (step m c)
  unfolding step force_emit_all poll_flush flush_all
  step-IsValid m (pushes x drops now) f v = push_packet-IsValid m v x drops now f
  step-IsValid m (polls_timers drops now) f v = poll_timers-IsValid m drops now v
  step-IsValid m (forces drops) f v =
      retain-IsValid m _ _ _ v
        (frames-emit_loop (λ e. some (forced_state e)) m.has_handler drops m.stats m.frames)
  step-IsValid m (polls_flush now) f v =
      retain-IsValid m _ _ m.stats v (frames-flush_loop can_open now m.frames)
  step-IsValid m flushes f v = record { stride_fits = v.stride_fits; sorted = tt; entries = tt }

  -- Whatever methods are called on a valid manager, in whatever order, with packets whose header
  -- fields fit: each frame's reassembler is valid and stands under its frame's number, and the keys
  -- are sorted.
  pub run-IsValid :
      (m : FrameReassemblerManager) (cs : List Call)
      → All CallFits cs
      → IsValid m
      → IsValid (run m cs)
  unfolding run
  run-IsValid m [] f v = v
  run-IsValid m (c ∷ cs) f v = run-IsValid (step m c) cs f.1 (step-IsValid m c f.0 v)

  step-IsBalanced :
      (m : FrameReassemblerManager) (c : Call) → IsBalanced m.stats → IsBalanced (step m c).stats
  unfolding step push_packet poll_timers force_emit_all poll_flush flush_all
  step-IsBalanced m (pushes x drops now) b = b
  step-IsBalanced m (polls_timers drops now) b =
      emit_loop-IsBalanced (λ e. timer_verdict e now) m.has_handler drops m.stats m.frames b
  step-IsBalanced m (forces drops) b =
      emit_loop-IsBalanced (λ e. some (forced_state e)) m.has_handler drops m.stats m.frames b
  step-IsBalanced m (polls_flush now) b = b
  step-IsBalanced m flushes b = b

  -- Whatever methods are called, the frames counted as complete and as partial make up the total,
  -- up to its 64 bits, if they did before.
  pub run-IsBalanced :
      (m : FrameReassemblerManager) (cs : List Call)
      → IsBalanced m.stats
      → IsBalanced (run m cs).stats
  unfolding run
  run-IsBalanced m [] b = b
  run-IsBalanced m (c ∷ cs) b = run-IsBalanced (step m c) cs (step-IsBalanced m c b)
