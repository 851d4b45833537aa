-- ===== src/Manager/Tally.antt =====
-- The manager's counters against the results that it has handed over.
use Prim.Native.String.{String}
use hv_frame_test.Base.{
  ℕ, ◌+◌, ◌%◌, ◌≡◌, ◌∙◌, Bool, true, Option, some, List, [], ◌∷◌, ◌++◌, arith, length,
  length-append, u64_mod, Option-cases, inl, inr,
}
use hv_frame_test.FrameResult.{FrameState, FrameResult}
use hv_frame_test.Manager.State.{FrameReassemblerManager, FrameEntry, Stats, push_packet}
use hv_frame_test.Manager.Timers.{
  poll_timers, force_emit_all, timer_verdict, forced_state, emit_loop, emitted_result,
  count_emitted,
}
use hv_frame_test.Manager.Flush.{poll_flush, flush_all}
use hv_frame_test.Manager.Loop.{emit_loop_kept, emit_loop_ended}
use hv_frame_test.Manager.Run.{Call, pushes, polls_timers, forces, polls_flush, flushes, step, run}
use hv_frame_test.Manager.Apart.{step-has_handler}
use hv_frame_test.Manager.Results.{results_by, results_in}

abbrev one_if_partial : FrameState → ℕ
one_if_partial FrameState.partial_frame = 1
one_if_partial FrameState.receiving = 0
one_if_partial FrameState.complete_frame = 0
one_if_partial FrameState.emitted = 0

-- How many of the results are of partial frames.
unfoldable pub partial_among : List FrameResult → ℕ
partial_among [] = 0
partial_among (r ∷ rs) = one_if_partial r.state + partial_among rs

partial_among-append :
    (rs ts : List FrameResult) → partial_among (rs ++ ts) ≡ partial_among rs + partial_among ts
unfolding partial_among
partial_among-append [] ts = omega arith
partial_among-append (r ∷ rs) ts = omega (arith, partial_among-append rs ts)

-- The counters `t` are `s` and the results.
pub record Tallied (s t : Stats) (rs : List FrameResult) : Type 0 where
  pub total : t.total % u64_mod ≡ (s.total + length rs) % u64_mod
  pub partial : t.partial % u64_mod ≡ (s.partial + partial_among rs) % u64_mod
  pub complete : (t.complete + partial_among rs) % u64_mod ≡ (s.complete + length rs) % u64_mod

count_emitted-Tallied :
    (s : Stats) (e : FrameEntry) (st : FrameState) (drops : ℕ)
    → Tallied s (count_emitted s st) (emitted_result e st drops ∷ [])
unfolding count_emitted emitted_result partial_among
count_emitted-Tallied s e FrameState.partial_frame drops = record {
  total = omega arith;
  partial = omega arith;
  complete = omega arith;
}
count_emitted-Tallied s e FrameState.receiving drops = record {
  total = omega arith;
  partial = omega arith;
  complete = omega arith;
}
count_emitted-Tallied s e FrameState.complete_frame drops = record {
  total = omega arith;
  partial = omega arith;
  complete = omega arith;
}
count_emitted-Tallied s e FrameState.emitted drops = record {
  total = omega arith;
  partial = omega arith;
  complete = omega arith;
}

nothing-Tallied : (s : Stats) → Tallied s s []
unfolding partial_among
nothing-Tallied s = record { total = omega arith; partial = omega arith; complete = omega arith }

then-Tallied :
    (s t u : Stats) (rs ts : List FrameResult)
    → Tallied s t rs
    → Tallied t u ts
    → Tallied s u (rs ++ ts)
then-Tallied s t u rs ts a b =
    let size = length-append rs ts in
    let parts = partial_among-append rs ts in
    record {
      total = omega (arith, a.total, b.total, size);
      partial = omega (arith, a.partial, b.partial, parts);
      complete = omega (arith, a.complete, b.complete, size, parts);
    }

emit_loop-Tallied :
    (verdict : FrameEntry → Option FrameState) (drops : ℕ) (s : Stats) (m : List (ℕ × FrameEntry))
    → let p = emit_loop verdict true drops s m in Tallied s p.stats p.results
emit_loop-Tallied verdict drops s [] = unfold emit_loop in nothing-Tallied s
emit_loop-Tallied verdict drops s ((id, e) ∷ rest) = elim (Option-cases (verdict e)) [
  | inl k ↦
      rw (emit_loop_kept verdict true drops s id e rest k) (emit_loop-Tallied verdict drops s rest)
  | inr (st, k) ↦ rw (emit_loop_ended verdict true drops s id e rest st k) (
      then-Tallied s (count_emitted s st) _ (emitted_result e st drops ∷ []) _
        (count_emitted-Tallied s e st drops)
        (emit_loop-Tallied verdict drops (count_emitted s st) rest))
]

module _ (can_open : String → Bool) where
  step-Tallied :
      (m : FrameReassemblerManager) (c : Call)
      → m.has_handler ≡ true
      → Tallied m.stats (step can_open m c).stats (results_by m c)
  unfolding step push_packet poll_timers force_emit_all poll_flush flush_all
  step-Tallied m (pushes x drops now) on = nothing-Tallied m.stats
  step-Tallied m (polls_timers drops now) on =
      rw on (emit_loop-Tallied (λ e. timer_verdict e now) drops m.stats m.frames)
  step-Tallied m (forces drops) on =
      rw on (emit_loop-Tallied (λ e. some (forced_state e)) drops m.stats m.frames)
  step-Tallied m (polls_flush now) on = nothing-Tallied m.stats
  step-Tallied m flushes on = nothing-Tallied m.stats

  -- The counters of a manager with a handler tell what it has handed over. Whatever methods are
  -- called: the total grows by the number of results, the counter of partial frames by the number
  -- of results that are partial, and that of complete frames by the number of the others, each up
  -- to its 64 bits.
  pub run-Tallied :
      (cs : List Call) (m : FrameReassemblerManager)
      → m.has_handler ≡ true
      → Tallied m.stats (run can_open m cs).stats (results_in can_open cs m)
  unfolding run results_in
  run-Tallied [] m on = nothing-Tallied m.stats
  run-Tallied (c ∷ cs) m on =
      then-Tallied m.stats (step can_open m c).stats _ (results_by m c) _ (step-Tallied m c on)
        (run-Tallied cs (step can_open m c) (step-has_handler can_open m c ∙ on))
