-- ===== src/Manager/Loop.antt =====
-- The loop of pollTimers and forceEmitAll, for any rule by which an entry is ended.
use hv_frame_test.Base.{
  ℕ, ◌+◌, ◌%◌, ◌≡◌, ◌≢◌, refl, ◌∙◌, ap, Bool, true, false, Option, none, some, List, [], ◌∷◌, ◌++◌,
  arith, if◌then◌else◌, Option-cases, inl, inr, length, All, u64_mod,
}
use mathlib.Core.List.{Mem, mem-cons_self, mem-cons_of_mem}
use hv_frame_test.Base.SortedMap.{find, find-cases, retain, Each}
use hv_frame_test.FrameResult.{FrameState, FrameResult}
use hv_frame_test.Manager.State.{FrameEntry, Stats}
use hv_frame_test.Manager.Timers.{emit_loop, emit_frame, emitted_result, count_emitted}

abbrev pub is_none {ℓ} : {A : Type ℓ} → Option A → Bool
is_none none = true
is_none (some a) = false

-- Every ended frame counts once: as a complete or as a partial one. The counters may wrap.
abbrev pub IsBalanced : Stats → Type 0
IsBalanced s = (s.complete + s.partial) % u64_mod ≡ s.total % u64_mod

count_emitted-IsBalanced :
    (s : Stats) (st : FrameState) → IsBalanced s → IsBalanced (count_emitted s st)
unfolding count_emitted
count_emitted-IsBalanced s FrameState.partial_frame b = omega arith
count_emitted-IsBalanced s FrameState.receiving b = omega arith
count_emitted-IsBalanced s FrameState.complete_frame b = omega arith
count_emitted-IsBalanced s FrameState.emitted b = omega arith

partial-count_emitted :
    (s : Stats) (st : FrameState)
    → st ≢ FrameState.partial_frame
    → (count_emitted s st).partial ≡ s.partial
unfolding count_emitted
partial-count_emitted s FrameState.partial_frame n = absurd (n refl)
partial-count_emitted s FrameState.receiving n = refl
partial-count_emitted s FrameState.complete_frame n = refl
partial-count_emitted s FrameState.emitted n = refl

module _ (verdict : FrameEntry → Option FrameState) (h : Bool) (q : ℕ) where
  module _ (s : Stats) (id : ℕ) (e : FrameEntry) (rest : List (ℕ × FrameEntry)) where
    pub emit_loop_kept :
        verdict e ≡ none
        → emit_loop verdict h q s ((id, e) ∷ rest)
          ≡ (let p = emit_loop verdict h q s rest in record p { frames = (id, e) ∷ p.frames })
    unfolding emit_loop
    emit_loop_kept k = rw (k, emit_loop)

    pub emit_loop_ended :
        (st : FrameState)
        → verdict e ≡ some st
        → emit_loop verdict h q s ((id, e) ∷ rest) ≡ (
            let p = emit_loop verdict h q (count_emitted s st) rest in
            record p { results = (if h then emitted_result e st q ∷ [] else []) ++ p.results })
    unfolding emit_loop emit_frame
    emit_loop_ended st k = rw (k, emit_loop)

  -- The frames that stay are those which the rule does not end, in their order.
  pub frames-emit_loop :
      (s : Stats) (m : List (ℕ × FrameEntry))
      → (emit_loop verdict h q s m).frames ≡ retain (λ e. is_none (verdict e)) m
  unfolding retain
  frames-emit_loop s [] = unfold emit_loop in refl
  frames-emit_loop s ((id, e) ∷ rest) = elim (Option-cases (verdict e)) [
    | inl k ↦ rw (emit_loop_kept s id e rest k, k) (ap (λ t. (id, e) ∷ t) (frames-emit_loop s rest))
    | inr (st, k) ↦
        rw (emit_loop_ended s id e rest st k, k) (frames-emit_loop (count_emitted s st) rest)
  ]

  pub emit_loop-IsBalanced :
      (s : Stats) (m : List (ℕ × FrameEntry))
      → IsBalanced s
      → IsBalanced (emit_loop verdict h q s m).stats
  emit_loop-IsBalanced s [] b = unfold emit_loop in b
  emit_loop-IsBalanced s ((id, e) ∷ rest) b = elim (Option-cases (verdict e)) [
    | inl k ↦ rw (emit_loop_kept s id e rest k) (emit_loop-IsBalanced s rest b)
    | inr (st, k) ↦
        rw (emit_loop_ended s id e rest st k)
          (emit_loop-IsBalanced (count_emitted s st) rest (count_emitted-IsBalanced s st b))
  ]

  -- A rule that never says partial leaves the counter of partial frames alone.
  pub partial-emit_loop :
      ((e : FrameEntry) → verdict e ≢ some FrameState.partial_frame)
      → (s : Stats) (m : List (ℕ × FrameEntry))
      → (emit_loop verdict h q s m).stats.partial ≡ s.partial
  partial-emit_loop never s [] = unfold emit_loop in refl
  partial-emit_loop never s ((id, e) ∷ rest) = elim (Option-cases (verdict e)) [
    | inl k ↦ rw (emit_loop_kept s id e rest k) (partial-emit_loop never s rest)
    | inr (st, k) ↦ rw (emit_loop_ended s id e rest st k) (
        partial-emit_loop never (count_emitted s st) rest
        ∙ partial-count_emitted s st (λ p. never e (k ∙ ap some p)))
  ]

  -- What holds of every result that the rule leads to holds of all that the loop hands over.
  pub emit_loop-All {κ} :
      (P : FrameResult → Type κ) (Q : ℕ → FrameEntry → Type 0)
      → ((id : ℕ) (e : FrameEntry) (st : FrameState)
          → Q id e
          → verdict e ≡ some st
          → P (emitted_result e st q))
      → (s : Stats) (m : List (ℕ × FrameEntry)) → Each Q m
      → All P (emit_loop verdict h q s m).results
  emit_loop-All P Q f s [] a = unfold emit_loop in tt
  emit_loop-All P Q f s ((id, e) ∷ rest) a = elim (Option-cases (verdict e)) [
    | inl k ↦ rw (emit_loop_kept s id e rest k) (emit_loop-All P Q f s rest a.1)
    | inr (st, k) ↦
        rw (emit_loop_ended s id e rest st k)
          (ground (arith, f id e st a.0 k, emit_loop-All P Q f (count_emitted s st) rest a.1))
  ]

-- With a handler there is one result for each frame that was ended.
pub length-emit_loop :
    (verdict : FrameEntry → Option FrameState) (q : ℕ) (s : Stats) (m : List (ℕ × FrameEntry))
    → length (emit_loop verdict true q s m).frames + length (emit_loop verdict true q s m).results
      ≡ length m
length-emit_loop verdict q s [] = unfold emit_loop in refl
length-emit_loop verdict q s ((id, e) ∷ rest) = elim (Option-cases (verdict e)) [
  | inl k ↦
      rw (emit_loop_kept verdict true q s id e rest k)
        (omega (arith, length-emit_loop verdict q s rest))
  | inr (st, k) ↦
      rw (emit_loop_ended verdict true q s id e rest st k)
        (omega (arith, length-emit_loop verdict q (count_emitted s st) rest))
]

-- With a handler, the result of an entry that is ended is handed over.
pub mem-emit_loop :
    (verdict : FrameEntry → Option FrameState) (q : ℕ) (s : Stats) (m : List (ℕ × FrameEntry))
    (k : ℕ) (e : FrameEntry) (st : FrameState)
    → find k m ≡ some e
    → verdict e ≡ some st
    → Mem (emitted_result e st q) (emit_loop verdict true q s m).results
mem-emit_loop verdict q s [] k e st f d = unfold find in cc
mem-emit_loop verdict q s ((j, w) ∷ rest) k e st f d = elim (find-cases k j w rest e f) [
  | inl we ↦ rw (emit_loop_ended verdict true q s j w rest st (ap verdict we ∙ d), we) mem-cons_self
  | inr later ↦ elim (Option-cases (verdict w)) [
    | inl kept ↦
        rw (emit_loop_kept verdict true q s j w rest kept)
          (mem-emit_loop verdict q s rest k e st later d)
    | inr (st', ended) ↦
        rw (emit_loop_ended verdict true q s j w rest st' ended)
          (mem-cons_of_mem _ (mem-emit_loop verdict q (count_emitted s st') rest k e st later d))
  ]
]
