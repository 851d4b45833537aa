-- ===== src/PacketQueue/Waiting.antt =====
-- The calls that wait, with whatever other threads do meanwhile.
use hv_frame_test.Base.{
  ◌≡◌, true, false, none, some, List, [], ◌∷◌, if◌then◌else◌, Bool-cases, ◌⊎◌, inl, inr,
}
use hv_frame_test.PacketQueue.{Action, World, act_all, must_wait, take_from, pop, pop_until}
use hv_frame_test.PacketQueue.Fifo.{try_pop_lem}

module _ {ℓ} {A : Type ℓ} where
  -- The world in which pop_until looks at the queue: after the wait, if it waits at all.
  abbrev looked_at : World A → List (Action A) → World A
  looked_at w acts = if must_wait w then act_all w acts else w

  -- pop_until hands out the front of the queue that it finds after its wait, and takes just that
  -- from it; it returns false exactly when the queue is empty then, which leaves everything as it
  -- is.
  pop_until_lem :
      (w : World A) (acts : List (Action A))
      → ((x : A) × (rest : List A) × ((looked_at w acts).queue.q ≡ x ∷ rest)
          × (pop_until w acts ≡ (
            record (looked_at w acts) { queue = record (looked_at w acts).queue { q = rest } },
            some x,
          )))
        ⊎ (((looked_at w acts).queue.q ≡ []) × (pop_until w acts ≡ (looked_at w acts, none)))
  unfolding pop_until take_from
  pop_until_lem w acts = elim (try_pop_lem (looked_at w acts).queue) [
    | inl (e, r) ↦ inr (e, rw r)
    | inr (x, rest, e, r) ↦ inl (x, rest, e, rw r)
  ]

  -- After each of these rounds the thread would still have to wait.
  abbrev pub StillWaits : World A → List (List (Action A)) → Type 0
  StillWaits w [] = must_wait w ≡ true
  StillWaits w (acts ∷ rest) = (must_wait w ≡ true) × StillWaits (act_all w acts) rest

  -- pop goes on waiting exactly as long as the queue is empty and nobody has asked to shut down;
  -- else it takes from a queue that is not empty or that is shut down.
  pub pop-waits :
      (w : World A) (rounds : List (List (Action A)))
      → (StillWaits w rounds × (pop w rounds ≡ none))
        ⊎ ((v : World A) × (must_wait v ≡ false) × (pop w rounds ≡ some (take_from v)))
  unfolding pop
  pop-waits w [] = elim (Bool-cases (must_wait w)) [
    | inl e ↦ inl (e, rw e)
    | inr e ↦ inr (w, e, rw e)
  ]
  pop-waits w (acts ∷ rest) = elim (Bool-cases (must_wait w)) [
    | inl e ↦ elim (pop-waits (act_all w acts) rest) [
      | inl (s, r) ↦ inl ((e, s), rw (e, r))
      | inr (v, f, r) ↦ inr (v, f, rw (e, r))
    ]
    | inr e ↦ inr (w, e, rw e)
  ]
