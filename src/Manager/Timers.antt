-- ===== src/Manager/Timers.antt =====
-- FrameReassemblerManager: emitFrame, pollTimers and forceEmitAll.
use hv_frame_test.Base.{
  ℕ, Bool, not, ◌&&◌, ◌||◌, Option, none, some, List, [], ◌∷◌, ◌++◌, ltb, ◌==◌, if◌then◌else◌,
  inc64,
}
use hv_frame_test.FrameResult.{FrameState, FrameResult}
use hv_frame_test.Reassembler
use hv_frame_test.Reassembler.{FrameReassemblerV2}
use hv_frame_test.Manager.State.{
  FrameReassemblerManager, FrameEntry, Stats, elapsed, max_frame_lifetime, frame_idle_timeout,
}

-- The FrameResult that emitFrame fills in.
unfoldable pub emitted_result : FrameEntry → FrameState → ℕ → FrameResult
emitted_result e final_state queue_drop_now = record {
  frame_id = fr.current_frame_id;
  state = final_state;
  complete = fr.received_packets_count == fr.expected_packet_count;
  corrupted = Reassembler.has_gap fr || Reassembler.has_corruption fr;
  queue_pressure = ltb e.queue_drop_at_start queue_drop_now;
  expected_packets = fr.expected_packet_count;
  received_packets = fr.received_packets_count;
  frame_size = Reassembler.get_frame_size fr;
  frame_data = Reassembler.get_frame_data fr;
}
  where
    open e use {reassembler as fr}

unfoldable pub count_emitted : Stats → FrameState → Stats
count_emitted s FrameState.partial_frame = record s {
  total = inc64 s.total;
  partial = inc64 s.partial;
}
count_emitted s FrameState.receiving = record s {
  total = inc64 s.total;
  complete = inc64 s.complete;
}
count_emitted s FrameState.complete_frame = record s {
  total = inc64 s.total;
  complete = inc64 s.complete;
}
count_emitted s FrameState.emitted = record s { total = inc64 s.total; complete = inc64 s.complete }

-- The new statistics, and the call of onFrameDone, if it is set.
unfoldable pub emit_frame : Bool → Stats → FrameEntry → FrameState → ℕ → Stats × List FrameResult
unfolding count_emitted emitted_result
emit_frame has_handler s e final_state queue_drop_now = (
  count_emitted s final_state,
  if has_handler then emitted_result e final_state queue_drop_now ∷ [] else [],
)

-- How pollTimers ends a frame: the state that it emits, or nothing while the frame may wait on.
unfoldable pub timer_verdict : FrameEntry → ℕ → Option FrameState
timer_verdict e now =
    if fr.received_packets_count == fr.expected_packet_count
    then some FrameState.complete_frame
    else if not (elapsed now e.last_update frame_idle_timeout)
        && not (elapsed now e.first_packet_time max_frame_lifetime)
    then none
    else if not (fr.received_packets_count == fr.expected_packet_count)
    then some FrameState.complete_frame
    else some FrameState.partial_frame
  where
    open e use {reassembler as fr}

-- The state that forceEmitAll emits.
unfoldable pub forced_state : FrameEntry → FrameState
forced_state e =
    if e.reassembler.received_packets_count == e.reassembler.expected_packet_count
    then FrameState.complete_frame
    else FrameState.partial_frame

-- What a loop over the frames leaves: the counters, the frames that stay, and the calls of
-- onFrameDone.
pub record Polled : Type 0 where
  pub stats : Stats
  pub frames : List (ℕ × FrameEntry)
  pub results : List FrameResult

-- The loop of pollTimers and of forceEmitAll, over how an entry is ended.
unfoldable pub emit_loop :
    (FrameEntry → Option FrameState) → Bool → ℕ → Stats → List (ℕ × FrameEntry) → Polled
unfolding emit_frame
emit_loop verdict has_handler queue_drop_now s [] = record { stats = s; frames = []; results = [] }
emit_loop verdict has_handler queue_drop_now s ((id, e) ∷ rest) = elim (verdict e) [
  | none ↦
      let p = emit_loop verdict has_handler queue_drop_now s rest in
      record p { frames = (id, e) ∷ p.frames }
  | some st ↦
      let (s', rs) = emit_frame has_handler s e st queue_drop_now in
      let p = emit_loop verdict has_handler queue_drop_now s' rest in
      record p { results = rs ++ p.results }
]

-- A method's new object, and the calls of onFrameDone that it made.
abbrev after_loop : FrameReassemblerManager → Polled → FrameReassemblerManager × List FrameResult
after_loop m p = (record m { frames = p.frames; stats = p.stats }, p.results)

unfoldable pub poll_timers :
    FrameReassemblerManager → ℕ → ℕ → FrameReassemblerManager × List FrameResult
unfolding timer_verdict emit_loop
poll_timers m queue_drop_now now =
    after_loop m
      (emit_loop (λ e. timer_verdict e now) m.has_handler queue_drop_now m.stats m.frames)

unfoldable pub force_emit_all :
    FrameReassemblerManager → ℕ → FrameReassemblerManager × List FrameResult
unfolding forced_state emit_loop
force_emit_all m queue_drop_now =
    after_loop m
      (emit_loop (λ e. some (forced_state e)) m.has_handler queue_drop_now m.stats m.frames)
