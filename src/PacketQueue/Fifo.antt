-- ===== src/PacketQueue/Fifo.antt =====
-- The queue under a sequence of calls of push and try_pop.
use mathlib.Core.List.{append_assoc, append-nil}
use hv_frame_test.Base.{
  ◌+◌, ◌%◌, ◌≤◌, ◌<◌, ◌≡◌, refl, ◌∙◌, sym, ap, true, false, Option, none, some, List, [], ◌∷◌, ◌++◌,
  arith, leb, leb→lt, leb→le, if◌then◌else◌, length, length-append, inc64, u64_mod, Bool-cases, ◌⊎◌,
  inl, inr,
}
use hv_frame_test.PacketQueue.{PacketQueue, push, try_pop, take_front}

-- The calls of the two threads, in the order in which they get the lock.
pub data Op {ℓ} (A : Type ℓ) : Type ℓ where
  puts : A → Op A
  gets : Op A

-- The queue at the end, and the packets that were accepted, dropped, and popped.
pub record Trace {ℓ} (A : Type ℓ) : Type ℓ where
  pub last : PacketQueue A
  pub accepted : List A
  pub refused : List A
  pub popped : List A

module _ {ℓ} {A : Type ℓ} where
  abbrev opt_cons : Option A → List A → List A
  opt_cons none xs = xs
  opt_cons (some x) xs = x ∷ xs

  unfoldable pub run : PacketQueue A → List (Op A) → Trace A
  run s [] = record { last = s; accepted = []; refused = []; popped = [] }
  run s (puts x ∷ ops) =
      let (s', took) = push s x in
      let t = run s' ops in
      record t {
        accepted = if took then x ∷ t.accepted else t.accepted;
        refused = if took then t.refused else x ∷ t.refused;
      }
  run s (gets ∷ ops) =
      let (s', out) = try_pop s in let t = run s' ops in record t { popped = opt_cons out t.popped }

  -- push takes the packet to the back while the queue has room; a full queue stays as it is, and
  -- counts the packet as dropped.
  pub push_lem :
      (s : PacketQueue A) (x : A)
      → ((length s.q < s.capacity) × (push s x ≡ (record s { q = s.q ++ x ∷ [] }, true)))
        ⊎ ((s.capacity ≤ length s.q) × (push s x ≡ (record s { dropped = inc64 s.dropped }, false)))
  unfolding push
  push_lem s x = elim (Bool-cases (leb s.capacity (length s.q))) [
    | inl full ↦ inr (leb→le _ _ full, rw full)
    | inr room ↦ inl (leb→lt _ _ room, rw room)
  ]

  pub try_pop-none : (s : PacketQueue A) → s.q ≡ [] → try_pop s ≡ (s, none)
  unfolding try_pop take_front
  try_pop-none s e = ap (take_front s) e

  pub try_pop-some :
      (s : PacketQueue A) (x : A) (rest : List A)
      → s.q ≡ x ∷ rest
      → try_pop s ≡ (record s { q = rest }, some x)
  unfolding try_pop take_front
  try_pop-some s x rest e = ap (take_front s) e

  -- try_pop takes the front, or nothing from an empty queue.
  pub try_pop_lem :
      (s : PacketQueue A)
      → ((s.q ≡ []) × (try_pop s ≡ (s, none)))
        ⊎ ((x : A) × (rest : List A) × (s.q ≡ x ∷ rest)
            × (try_pop s ≡ (record s { q = rest }, some x)))
  try_pop_lem s = by_list s.q refl
    where
      by_list :
          (l : List A)
          → s.q ≡ l
          → ((s.q ≡ []) × (try_pop s ≡ (s, none)))
            ⊎ ((x : A) × (rest : List A) × (s.q ≡ x ∷ rest)
                × (try_pop s ≡ (record s { q = rest }, some x)))
      by_list [] e = inl (e, try_pop-none s e)
      by_list (x ∷ rest) e = inr (x, rest, e, try_pop-some s x rest e)

  -- First in, first out: through any calls of push and try_pop, what was popped and what is left is
  -- what was there and what was accepted.
  run_fifo :
      (s : PacketQueue A) (ops : List (Op A))
      → (run s ops).popped ++ (run s ops).last.q ≡ s.q ++ (run s ops).accepted
  unfolding run
  run_fifo s [] = sym (append-nil s.q)
  run_fifo s (puts x ∷ ops) = elim (push_lem s x) [
    | inl (_, e) ↦ rw e (
        run_fifo (record s { q = s.q ++ x ∷ [] }) ops
        ∙ append_assoc s.q (x ∷ []) (run (record s { q = s.q ++ x ∷ [] }) ops).accepted)
    | inr (_, e) ↦ rw e (run_fifo (record s { dropped = inc64 s.dropped }) ops)
  ]
  run_fifo s (gets ∷ ops) = elim (try_pop_lem s) [
    | inl (_, e) ↦ rw e (run_fifo s ops)
    | inr (x, rest, front, e) ↦ rw e (
        ap (λ t. x ∷ t) (run_fifo (record s { q = rest }) ops)
        ∙ ap (λ t. t ++ (run (record s { q = rest }) ops).accepted) (sym front))
  ]

  -- Through any calls of push and try_pop a queue that is within its capacity stays so, and the
  -- counter grows, up to its 64 bits, by the number of packets that were dropped.
  run_bounded :
      (s : PacketQueue A) (ops : List (Op A))
      → length s.q ≤ s.capacity
      → (length (run s ops).last.q ≤ s.capacity)
        × ((run s ops).last.dropped % u64_mod ≡ (s.dropped + length (run s ops).refused) % u64_mod)
  unfolding run
  run_bounded s [] h = (h, omega arith)
  run_bounded s (puts x ∷ ops) h = elim (push_lem s x) [
    | inl (room, e) ↦ rw e (
        run_bounded (record s { q = s.q ++ x ∷ [] }) ops
          (omega (arith, length-append s.q (x ∷ []))))
    | inr (_, e) ↦ rw e (omega (arith, run_bounded (record s { dropped = inc64 s.dropped }) ops h))
  ]
  run_bounded s (gets ∷ ops) h = elim (try_pop_lem s) [
    | inl (_, e) ↦ rw e (run_bounded s ops h)
    | inr (x, rest, front, e) ↦
        rw e (run_bounded (record s { q = rest }) ops (omega (arith, ap length front)))
  ]
