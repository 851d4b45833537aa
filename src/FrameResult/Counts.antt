-- ===== src/FrameResult/Counts.antt =====
-- FrameStreamStats::update over a stream of results.
use hv_frame_test.Base.{
  ℕ, ◌+◌, ◌%◌, ◌≡◌, Bool, true, false, List, [], ◌∷◌, arith, if◌then◌else◌, u64_mod, length,
}
use hv_frame_test.FrameResult.{FrameState, FrameResult, FrameStreamStats, update}

-- A stream of results, one update after the other.
unfoldable pub update_all : FrameStreamStats → List FrameResult → FrameStreamStats
update_all s [] = s
update_all s (r ∷ rs) = update_all (update s r) rs

-- How many results of a list have a property.
abbrev count_if : (FrameResult → Bool) → List FrameResult → ℕ
count_if p [] = 0
count_if p (r ∷ rs) = (if p r then 1 else 0) + count_if p rs

abbrev sum_of : (FrameResult → ℕ) → List FrameResult → ℕ
sum_of f [] = 0
sum_of f (r ∷ rs) = f r + sum_of f rs

abbrev is_complete_frame : FrameResult → Bool
is_complete_frame r = elim r.state [ FrameState.complete_frame ↦ true | _ ↦ false ]

abbrev is_partial_frame : FrameResult → Bool
is_partial_frame r = elim r.state [ FrameState.partial_frame ↦ true | _ ↦ false ]

-- Two 64-bit counters agree.
abbrev Agree : ℕ → ℕ → Type 0
Agree a b = a % u64_mod ≡ b % u64_mod

-- What the counters have grown by, each as the stream says.
pub record Grown (s t : FrameStreamStats) (rs : List FrameResult) : Type 0 where
  pub total : Agree t.frames_total (s.frames_total + length rs)
  pub complete : Agree t.frames_complete (s.frames_complete + count_if is_complete_frame rs)
  pub partial : Agree t.frames_partial (s.frames_partial + count_if is_partial_frame rs)
  causes :
      Agree
        (t.partial_due_to_queue + t.partial_due_to_gap)
        (s.partial_due_to_queue + s.partial_due_to_gap + count_if is_partial_frame rs)
  pub expected : Agree t.packets_expected (s.packets_expected + sum_of (λ r. r.expected_packets) rs)
  pub received : Agree t.packets_received (s.packets_received + sum_of (λ r. r.received_packets) rs)

update-Grown : (s : FrameStreamStats) (r : FrameResult) → Grown s (update s r) (r ∷ [])
unfolding update
update-Grown s r = ground arith

-- Over any stream of results each counter grows by the number of results that it counts, up to its
-- 64 bits: every partial frame is put down to exactly one of the two causes.
pub update_all-Grown : (s : FrameStreamStats) (rs : List FrameResult) → Grown s (update_all s rs) rs
unfolding update_all
update_all-Grown s [] = omega arith
update_all-Grown s (r ∷ rs) = omega (arith, update-Grown s r, update_all-Grown (update s r) rs)
