-- ===== src/Delivery/Stream.antt =====
-- Frames on their way at the same time: the manager puts each together from its own packets.
use Prim.Native.String.{String}
use mathlib.Core.List.{Mem}
use hv_frame_test.Base.{
  ℕ, ◌*◌, ◌≤◌, ◌<◌, ◌≡◌, refl, ◌∙◌, ap, ap₂, Bool, true, none, some, List, [], ◌∷◌, All, arith,
  length, take,
}
use hv_frame_test.Base.SortedMap.{find, find-Each}
use hv_frame_test.Protocol.{RxPacket}
use hv_frame_test.FrameResult.{FrameState, FrameResult}
use hv_frame_test.Reassembler
use hv_frame_test.Reassembler.{FrameReassemblerV2, is_frame_complete}
use hv_frame_test.Reassembler.Sequence.{push_all}
use hv_frame_test.Manager.State.{FrameReassemblerManager, FrameEntry, push_packet}
use hv_frame_test.Manager.Timers.{poll_timers, force_emit_all, timer_verdict, emitted_result}
use hv_frame_test.Manager.Flush.{poll_flush, flush_all}
use hv_frame_test.Manager.Inv.{IsValid}
use hv_frame_test.Manager.Loop.{mem-emit_loop}
use hv_frame_test.Manager.Run.{
  Call, pushes, polls_timers, forces, polls_flush, flushes, CallFits, step, run, run-IsValid,
}
use hv_frame_test.Manager.Apart.{follow_all, find-run}
use hv_frame_test.Delivery.Assembly.{packets_of, IsPart, Covers}
use hv_frame_test.Delivery.Whole.{fresh, assemble_lem}
use hv_frame_test.Delivery.Follow.{packets_for, Undisturbed, Follows, follow-none}

module _ (can_open : String → Bool) where
  run-has_handler :
      (cs : List Call) (m : FrameReassemblerManager)
      → (run can_open m cs).has_handler ≡ m.has_handler
  unfolding run step push_packet poll_timers force_emit_all poll_flush flush_all
  run-has_handler [] m = refl
  run-has_handler (pushes x drops now ∷ cs) m = run-has_handler cs _
  run-has_handler (polls_timers drops now ∷ cs) m = run-has_handler cs _
  run-has_handler (forces drops ∷ cs) m = run-has_handler cs _
  run-has_handler (polls_flush now ∷ cs) m = run-has_handler cs _
  run-has_handler (flushes ∷ cs) m = run-has_handler cs _

-- A frame that is complete is handed over by the next pollTimers.
emits_complete :
    (m : FrameReassemblerManager) (drops now k : ℕ) (e : FrameEntry)
    → IsValid m
    → m.has_handler ≡ true
    → find k m.frames ≡ some e
    → is_frame_complete e.reassembler ≡ true
    → Mem (emitted_result e FrameState.complete_frame drops) (poll_timers m drops now).1
      × ((emitted_result e FrameState.complete_frame drops).frame_id ≡ k)
      × ((emitted_result e FrameState.complete_frame drops).state ≡ FrameState.complete_frame)
      × ((emitted_result e FrameState.complete_frame drops).complete ≡ true)
      × ((emitted_result e FrameState.complete_frame drops).frame_size ≡ e.reassembler.frame_size)
      × ((emitted_result e FrameState.complete_frame drops).frame_data ≡ e.reassembler.frame_buffer)
unfolding poll_timers emitted_result is_frame_complete
emits_complete m drops now k e v on f whole = (
  rw on (mem-emit_loop (λ w. timer_verdict w now) drops m.stats m.frames k e _ f ended),
  (find-Each _ k e m.frames v.entries f).own_id,
  refl,
  ground (arith, whole),
  refl,
  refl,
)
  where
    ended : timer_verdict e now ≡ some FrameState.complete_frame
    ended = unfold timer_verdict in ground (arith, whole)

Covers-some : (i : ℕ) (xs : List RxPacket) → Covers i xs → 0 < length xs
Covers-some i [] c = absurd c
Covers-some i (x ∷ xs) c = omega arith

-- Several frames on their way at once. In a valid manager with a handler and a stride of 1400,
-- which has no entry of frame k: after calls among which the packets of frame k, each with the
-- right count and its part of a frame of at least one byte and at most 65535 packets that fits the
-- buffer, come in any order, repeated or not, until each packet number has been there, with packets
-- of other frames between them, and no call that ends frame k on the way, the next pollTimers hands
-- over a result for frame k: COMPLETE and complete, with the frame's length and the frame's bytes.
pub stream_lem :
    (can_open : String → Bool) (m : FrameReassemblerManager) (frame : List ℕ) (k : ℕ)
    (cs : List Call) (drops now : ℕ)
    → IsValid m
    → m.has_handler ≡ true
    → m.payload_stride ≡ 1400
    → 0 < length frame
    → length frame ≤ 65535 * 1400
    → length frame ≤ m.max_frame_size
    → find k m.frames ≡ none
    → All CallFits cs
    → Undisturbed m.max_frame_size m.payload_stride k none cs
    → All (λ x. x.hdr.packet_count ≡ packets_of frame) (packets_for k cs)
    → All (IsPart frame) (packets_for k cs)
    → ((i : ℕ) → i < packets_of frame → Covers i (packets_for k cs))
    → (r : FrameResult) × Mem r (poll_timers (run can_open m cs) drops now).1
      × (r.frame_id ≡ k)
      × (r.state ≡ FrameState.complete_frame)
      × (r.complete ≡ true)
      × (r.frame_size ≡ length frame)
      × (take r.frame_size r.frame_data ≡ frame)
unfolding Follows
stream_lem can_open m frame k cs drops now v on stride some_byte countable room absent fits
      undisturbed counts parts covers =
    let (e, f, g) =
      follow-none m.max_frame_size m.payload_stride k (packets_of frame) cs counts
        (Covers-some 0 (packets_for k cs) (covers 0 (omega arith))) undisturbed in
    let found =
      find-run can_open m k cs fits v
      ∙ ap (λ o. follow_all m.max_frame_size m.payload_stride k o cs) absent
      ∙ f in
    let same : e.reassembler ≡ push_all (fresh m.max_frame_size k frame) (packets_for k cs) =
      g
      ∙ ap
          (λ s.
            push_all
              (Reassembler.start_new_frame (Reassembler.init m.max_frame_size s) k
                (packets_of frame))
              (packets_for k cs))
          stride in
    let (whole, size, bytes) =
      assemble_lem frame m.max_frame_size k (packets_for k cs) countable room parts covers in
    let (mem, id, state, complete, size_r, data_r) =
      emits_complete (run can_open m cs) drops now k e (run-IsValid can_open m cs fits v)
        (run-has_handler can_open cs m ∙ on) found (ap is_frame_complete same ∙ whole) in
    (
      _,
      mem,
      id,
      state,
      complete,
      size_r ∙ ap (λ r. r.frame_size) same ∙ size,
      ap₂ take size_r data_r ∙ ap (λ r. take r.frame_size r.frame_buffer) same ∙ bytes,
    )
