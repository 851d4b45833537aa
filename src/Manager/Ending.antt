-- ===== src/Manager/Ending.antt =====
-- How pollTimers and forceEmitAll end frames.
use mathlib.Core.Path.{fun_ext}
use mathlib.Core.List.{Mem}
use hv_frame_test.Base.{
  ℕ, ◌+◌, ◌<◌, ◌≡◌, ◌≢◌, ◌↔◌, refl, ◌∙◌, ap, sym, Bool, true, false, not, ◌&&◌, Option, some, List,
  [], ◌∷◌, arith, length, All, ◌==◌, leb, ◌⊎◌,
}
use hv_frame_test.Base.SortedMap.{find, retain, Each, if_kept, find-retain, find-Each}
use hv_frame_test.FrameResult.{FrameState, FrameResult}
use hv_frame_test.Manager.State.{FrameReassemblerManager, FrameEntry}
use hv_frame_test.Manager.Timers.{
  Polled, emit_loop, emitted_result, timer_verdict, poll_timers, force_emit_all, forced_state,
}
use hv_frame_test.Manager.Inv.{retain-IsValid, IsValid}
use hv_frame_test.Manager.Loop.{
  is_none, mem-emit_loop, partial-emit_loop, frames-emit_loop, emit_loop-All, length-emit_loop,
}

-- A frame may wait on: a packet is missing, the last one came at most 30 ms ago and the first one at
-- most 8 s ago.
abbrev pub is_waiting : ℕ → FrameEntry → Bool
is_waiting now e =
    not (e.reassembler.received_packets_count == e.reassembler.expected_packet_count)
    && (leb now (e.last_update + 30_000_000) && leb now (e.first_packet_time + 8_000_000_000))

pub timer_verdict-waiting :
    (now : ℕ) (e : FrameEntry) → is_none (timer_verdict e now) ≡ is_waiting now e
unfolding timer_verdict
timer_verdict-waiting now e = ground arith

complete≢partial : FrameState.complete_frame ≢ FrameState.partial_frame
complete≢partial e = cc

Each-of_all : (m : List (ℕ × FrameEntry)) → Each (λ id e. Unit {0}) m
Each-of_all [] = tt
Each-of_all (p ∷ m) = (tt, Each-of_all m)

-- After pollTimers of a valid manager exactly the frames that may wait on are left, each with its
-- entry as it was.
pub find-poll_timers :
    (m : FrameReassemblerManager) (drops now k : ℕ)
    → IsValid m
    → find k (poll_timers m drops now).0.frames ≡ if_kept (is_waiting now) (find k m.frames)
unfolding poll_timers
find-poll_timers m drops now k v =
    ap (find k) (
      frames-emit_loop (λ e. timer_verdict e now) m.has_handler drops m.stats m.frames
      ∙ ap (λ f. retain f m.frames) (fun_ext (timer_verdict-waiting now)))
    ∙ find-retain (is_waiting now) k 0 m.frames v.sorted

timer_verdict-state :
    (e : FrameEntry) (now : ℕ) (st : FrameState)
    → timer_verdict e now ≡ some st
    → st ≡ FrameState.complete_frame
unfolding timer_verdict
timer_verdict-state e now st h = ground arith

pub poll_timers-IsValid :
    (m : FrameReassemblerManager) (drops now : ℕ) → IsValid m → IsValid (poll_timers m drops now).0
unfolding poll_timers
poll_timers-IsValid m drops now v =
    retain-IsValid m _ _ _ v
      (frames-emit_loop (λ e. timer_verdict e now) m.has_handler drops m.stats m.frames)

-- Every result that pollTimers hands over has the state COMPLETE, and the counter of partial frames
-- stays as it was.
pub poll_timers_never_partial :
    (m : FrameReassemblerManager) (drops now : ℕ)
    → All (λ r. r.state ≡ FrameState.complete_frame) (poll_timers m drops now).1
      × ((poll_timers m drops now).0.stats.partial ≡ m.stats.partial)
unfolding poll_timers
poll_timers_never_partial m drops now = (states, counter)
  where
    verdict : FrameEntry → Option FrameState
    verdict e = timer_verdict e now

    states :
        All
          (λ r. r.state ≡ FrameState.complete_frame)
          (emit_loop verdict m.has_handler drops m.stats m.frames).results
    states =
        emit_loop-All verdict m.has_handler drops (λ r. r.state ≡ FrameState.complete_frame)
          (λ id e. Unit) (λ id e st _ k. unfold emitted_result in timer_verdict-state e now st k)
          m.stats m.frames (Each-of_all m.frames)

    counter :
        (emit_loop verdict m.has_handler drops m.stats m.frames).stats.partial ≡ m.stats.partial
    counter =
        partial-emit_loop verdict m.has_handler drops
          (λ e k. complete≢partial (sym (timer_verdict-state e now _ k))) m.stats m.frames

-- In a valid manager with a handler, a frame that lacks packets and has run out of time, of the 30
-- ms since its last packet or of the 8 s since its first, is handed over by pollTimers as COMPLETE,
-- in a result that is not complete.
pub poll_timers_mislabels :
    (m : FrameReassemblerManager) (drops now k : ℕ) (e : FrameEntry)
    → IsValid m
    → m.has_handler ≡ true
    → find k m.frames ≡ some e
    → e.reassembler.received_packets_count ≢ e.reassembler.expected_packet_count
    → (e.last_update + 30_000_000 < now) ⊎ (e.first_packet_time + 8_000_000_000 < now)
    → (r : FrameResult) × Mem r (poll_timers m drops now).1
      × (r.frame_id ≡ k)
      × (r.state ≡ FrameState.complete_frame)
      × (r.complete ≡ false)
unfolding poll_timers emitted_result
poll_timers_mislabels m drops now k e v on f short over = (
  emitted_result e FrameState.complete_frame drops,
  rw on (mem-emit_loop (λ w. timer_verdict w now) drops m.stats m.frames k e _ f ended),
  (find-Each _ k e m.frames v.entries f).own_id,
  refl,
  ground arith,
)
  where
    ended : timer_verdict e now ≡ some FrameState.complete_frame
    ended = unfold timer_verdict in ground arith

forced_state_iff :
    (e : FrameEntry) (st : FrameState)
    → some (forced_state e) ≡ some st
    → (st ≡ FrameState.complete_frame)
      ↔ ((e.reassembler.received_packets_count == e.reassembler.expected_packet_count) ≡ true)
unfolding forced_state
forced_state_iff e st k = ground arith

retain_nothing : (m : List (ℕ × FrameEntry)) → retain (λ e. false) m ≡ []
unfolding retain
retain_nothing [] = refl
retain_nothing ((k, e) ∷ m) = retain_nothing m

pub frames-force_emit_all :
    (m : FrameReassemblerManager) (drops : ℕ) → (force_emit_all m drops).0.frames ≡ []
unfolding force_emit_all
frames-force_emit_all m drops =
    frames-emit_loop (λ e. some (forced_state e)) m.has_handler drops m.stats m.frames
    ∙ retain_nothing m.frames

-- forceEmitAll of a manager with a handler leaves no frame, and hands over as many results as there
-- were frames, each COMPLETE exactly if no packet is missing.
pub force_emit_all_lem :
    (m : FrameReassemblerManager) (drops : ℕ)
    → m.has_handler ≡ true
    → ((force_emit_all m drops).0.frames ≡ [])
      × (length (force_emit_all m drops).1 ≡ length m.frames)
      × All
          (λ r. (r.state ≡ FrameState.complete_frame) ↔ (r.complete ≡ true))
          (force_emit_all m drops).1
unfolding force_emit_all
force_emit_all_lem m drops on = (gone, counted, states)
  where
    verdict : FrameEntry → Option FrameState
    verdict e = some (forced_state e)

    polled : Polled
    polled = emit_loop verdict m.has_handler drops m.stats m.frames

    gone : polled.frames ≡ []
    gone = frames-emit_loop verdict m.has_handler drops m.stats m.frames ∙ retain_nothing m.frames

    counted : length polled.results ≡ length m.frames
    counted = rw on (
        omega (
          arith,
          length-emit_loop verdict drops m.stats m.frames,
          ap length
              (frames-emit_loop verdict true drops m.stats m.frames ∙ retain_nothing m.frames),
        ))

    states : All (λ r. (r.state ≡ FrameState.complete_frame) ↔ (r.complete ≡ true)) polled.results
    states =
        emit_loop-All verdict m.has_handler drops
          (λ r. (r.state ≡ FrameState.complete_frame) ↔ (r.complete ≡ true)) (λ id e. Unit)
          (λ id e st _ k. unfold emitted_result in forced_state_iff e st k) m.stats m.frames
          (Each-of_all m.frames)
