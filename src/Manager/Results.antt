-- ===== src/Manager/Results.antt =====
-- What the calls of the manager's methods hand to onFrameDone, for all frames and for one.
use Prim.Native.String.{String}
use hv_frame_test.Base.{
  ℕ, ◌≡◌, refl, ◌∙◌, sym, ap, ap₂, Bool, true, false, Option, none, some, List, [], ◌∷◌, ◌++◌, All,
  arith, ◌==◌, ==_iff, if◌then◌else◌, Bool-cases, Option-cases, inl, inr, suc,
}
use hv_frame_test.Base.SortedMap.{find, find-below, Above, Each}
use hv_frame_test.FrameResult.{FrameState, FrameResult}
use hv_frame_test.Manager.State.{FrameReassemblerManager, FrameEntry, Stats}
use hv_frame_test.Manager.Timers.{
  poll_timers, force_emit_all, timer_verdict, forced_state, emit_loop, emitted_result,
  count_emitted,
}
use hv_frame_test.Manager.Inv.{IsValid, EntryValid}
use hv_frame_test.Manager.Loop.{emit_loop_kept, emit_loop_ended}
use hv_frame_test.Manager.Run.{
  Call, pushes, polls_timers, forces, polls_flush, flushes, CallFits, step, step-IsValid, run,
}
use hv_frame_test.Manager.Apart.{
  follow, follow_all, find-run, find-step, step-dimensions, step-has_handler,
}

abbrev pub results_by : FrameReassemblerManager → Call → List FrameResult
results_by m (pushes x drops now) = []
results_by m (polls_timers drops now) = (poll_timers m drops now).1
results_by m (forces drops) = (force_emit_all m drops).1
results_by m (polls_flush now) = []
results_by m flushes = []

-- The result of an entry that is ended in a state, or none.
abbrev result_as : FrameEntry → ℕ → Option FrameState → List FrameResult
result_as e drops none = []
result_as e drops (some st) = emitted_result e st drops ∷ []

abbrev ended : (FrameEntry → Option FrameState) → ℕ → Option FrameEntry → List FrameResult
ended verdict drops none = []
ended verdict drops (some e) = result_as e drops (verdict e)

-- What the machine of one frame hands over.
abbrev pub handed : Option FrameEntry → Call → List FrameResult
handed e (pushes x drops now) = []
handed e (polls_timers drops now) = ended (λ w. timer_verdict w now) drops e
handed e (forces drops) = ended (λ w. some (forced_state w)) drops e
handed e (polls_flush now) = []
handed e flushes = []

unfoldable pub handed_all :
    (max_frame_size payload_stride k : ℕ) → Option FrameEntry → List Call → List FrameResult
handed_all max_frame_size payload_stride k e [] = []
handed_all max_frame_size payload_stride k e (c ∷ cs) =
    handed e c
    ++ handed_all max_frame_size payload_stride k (follow max_frame_size payload_stride k e c) cs

-- The results of one frame.
unfoldable pub own_results : ℕ → List FrameResult → List FrameResult
own_results k [] = []
own_results k (r ∷ rs) = let rest = own_results k rs in if r.frame_id == k then r ∷ rest else rest

own_results-append :
    (k : ℕ) (rs ts : List FrameResult)
    → own_results k (rs ++ ts) ≡ own_results k rs ++ own_results k ts
unfolding own_results
own_results-append k [] ts = refl
own_results-append k (r ∷ rs) ts = elim (Bool-cases (r.frame_id == k)) [
  | inl e ↦ rw e (ap (λ l. r ∷ l) (own_results-append k rs ts))
  | inr e ↦ rw e (own_results-append k rs ts)
]

emitted_result-own :
    (w : FrameEntry) (st : FrameState) (drops k j : ℕ)
    → w.reassembler.current_frame_id ≡ j
    → ((emitted_result w st drops).frame_id == k) ≡ (j == k)
unfolding emitted_result
emitted_result-own w st drops k j e = ap (λ i. i == k) e

find_first :
    (k j : ℕ) (w : FrameEntry) (rest : List (ℕ × FrameEntry))
    → Above (suc j) rest
    → (j == k) ≡ true
    → (find k ((j, w) ∷ rest) ≡ some w) × (find k rest ≡ none)
unfolding find
find_first k j w rest above q =
    (rw q refl, find-below (suc j) k rest above (omega (arith, (==_iff j k).0 q)))

find_later :
    (k j : ℕ) (w : FrameEntry) (rest : List (ℕ × FrameEntry))
    → (j == k) ≡ false
    → find k ((j, w) ∷ rest) ≡ find k rest
unfolding find
find_later k j w rest q = rw q refl

own_results-cons :
    (k : ℕ) (r : FrameResult) (rs : List FrameResult)
    → own_results k (r ∷ rs) ≡ (if r.frame_id == k then r ∷ own_results k rs else own_results k rs)
unfolding own_results
own_results-cons k r rs = refl

module _ (verdict : FrameEntry → Option FrameState) (drops k : ℕ) where
  -- Of each frame the loop hands over what its own entry comes to.
  own_results-emit_loop :
      (b : ℕ) (s : Stats) (m : List (ℕ × FrameEntry))
      → Above b m
      → Each (λ j e. e.reassembler.current_frame_id ≡ j) m
      → own_results k (emit_loop verdict true drops s m).results ≡ ended verdict drops (find k m)
  own_results-emit_loop b s [] above each = unfold emit_loop own_results find in refl
  own_results-emit_loop b s ((j, w) ∷ rest) above each = elim (Option-cases (verdict w)) [
    | inl kept ↦
        let later = own_results-emit_loop (suc j) s rest above.1 each.1 in
        rw (emit_loop_kept verdict true drops s j w rest kept) (elim (Bool-cases (j == k)) [
          | inl q ↦
              let (here, gone) = find_first k j w rest above.1 q in
              later
              ∙ ap (ended verdict drops) gone
              ∙ sym (ap (ended verdict drops) here ∙ ap (result_as w drops) kept)
          | inr q ↦ later ∙ ap (ended verdict drops) (sym (find_later k j w rest q))
        ])
    | inr (st, over) ↦
        let later = own_results-emit_loop (suc j) (count_emitted s st) rest above.1 each.1 in
        let own = emitted_result-own w st drops k j each.0 in
        rw (emit_loop_ended verdict true drops s j w rest st over, own_results-cons, own)
          (elim (Bool-cases (j == k)) [
            | inl q ↦
                let (here, gone) = find_first k j w rest above.1 q in
                rw q (
                  ap (λ l. emitted_result w st drops ∷ l) (later ∙ ap (ended verdict drops) gone)
                  ∙ sym (ap (ended verdict drops) here ∙ ap (result_as w drops) over))
            | inr q ↦ rw q (later ∙ ap (ended verdict drops) (sym (find_later k j w rest q)))
          ])
  ]

Each-own :
    (max_frame_size payload_stride : ℕ) (m : List (ℕ × FrameEntry))
    → Each (EntryValid max_frame_size payload_stride) m
    → Each (λ j e. e.reassembler.current_frame_id ≡ j) m
Each-own max_frame_size payload_stride [] a = tt
Each-own max_frame_size payload_stride ((j, e) ∷ m) a =
    (a.0.own_id, Each-own max_frame_size payload_stride m a.1)

own_results-results_by :
    (m : FrameReassemblerManager) (k : ℕ) (c : Call)
    → IsValid m
    → m.has_handler ≡ true
    → own_results k (results_by m c) ≡ handed (find k m.frames) c
unfolding own_results
own_results-results_by m k (pushes x drops now) v on = refl
own_results-results_by m k (polls_timers drops now) v on =
    unfold poll_timers in
    rw on (
      own_results-emit_loop (λ w. timer_verdict w now) drops k 0 m.stats m.frames v.sorted
        (Each-own m.max_frame_size m.payload_stride m.frames v.entries))
own_results-results_by m k (forces drops) v on =
    unfold force_emit_all in
    rw on (
      own_results-emit_loop (λ w. some (forced_state w)) drops k 0 m.stats m.frames v.sorted
        (Each-own m.max_frame_size m.payload_stride m.frames v.entries))
own_results-results_by m k (polls_flush now) v on = refl
own_results-results_by m k flushes v on = refl

module _ (can_open : String → Bool) where
  unfoldable pub results_in : List Call → FrameReassemblerManager → List FrameResult
  results_in [] m = []
  results_in (c ∷ cs) m = results_by m c ++ results_in cs (step can_open m c)

  own_results-results_in :
      (cs : List Call) (m : FrameReassemblerManager) (k : ℕ)
      → All CallFits cs
      → IsValid m
      → m.has_handler ≡ true
      → own_results k (results_in cs m)
        ≡ handed_all m.max_frame_size m.payload_stride k (find k m.frames) cs
  unfolding results_in handed_all
  own_results-results_in [] m k f v on = unfold own_results in refl
  own_results-results_in (c ∷ cs) m k f v on =
      let (a, b) = step-dimensions can_open m c in
      own_results-append k (results_by m c) (results_in cs (step can_open m c))
      ∙ ap₂ (λ xs ys. xs ++ ys) (own_results-results_by m k c v on)
          (own_results-results_in cs (step can_open m c) k f.1 (step-IsValid can_open m c f.0 v)
              (step-has_handler can_open m c ∙ on)
            ∙ ap₂ (λ s t. handed_all s t k (find k (step can_open m c).frames) cs) a b
            ∙ ap (λ e. handed_all m.max_frame_size m.payload_stride k e cs)
                (find-step can_open m k c v))

  -- The manager is one machine for each frame number. Through any calls of its methods on a valid
  -- manager with a handler, with packets whose header fields fit: the entry of a frame, or that
  -- there is none, is what the machine of that frame alone comes to, and the results that
  -- onFrameDone gets for the frame are those that the machine hands over, in order. The machine
  -- starts an entry at the first packet of its frame and gives it each of that frame's packets,
  -- hands it over and drops it when pollTimers finds it at its end and at forceEmitAll, drops it
  -- when pollFlush finds it at its end and at flushAll, and sees nothing of the packets of other
  -- frames.
  pub run_machine :
      (m : FrameReassemblerManager) (k : ℕ) (cs : List Call)
      → All CallFits cs
      → IsValid m
      → m.has_handler ≡ true
      → let start = find k m.frames in
        (find k (run can_open m cs).frames
          ≡ follow_all m.max_frame_size m.payload_stride k start cs)
        × (own_results k (results_in cs m)
            ≡ handed_all m.max_frame_size m.payload_stride k start cs)
  run_machine m k cs f v on = (find-run can_open m k cs f v, own_results-results_in cs m k f v on)
