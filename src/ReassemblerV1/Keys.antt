-- ===== src/ReassemblerV1/Keys.antt =====
-- How many entries a sorted map has, from the keys that are in it.
use hv_frame_test.Base.{
  dec_lt, ℕ, suc, ◌+◌, ◌-◌, ◌≤◌, ◌<◌, ◌≡◌, ◌≢◌, refl, none, List, [], ◌∷◌, arith, length,
}
use hv_frame_test.Base.SortedMap.{find, emplace, Above, Each, find-below}

-- Keys from `b` on and below `n` are at most n - b.
pub length-Above :
    {V : Type 0} (n b : ℕ) (m : List (ℕ × V)) → Above b m → Each (λ k v. k < n) m → length m ≤ n - b
length-Above n b [] s e = omega arith
length-Above n b ((k, v) ∷ m) s e = omega (arith, length-Above n (suc k) m s.1 e.1)

pub length-emplace :
    {V : Type 0} (k : ℕ) (v : V) (m : List (ℕ × V))
    → find k m ≡ none
    → length (emplace k v m) ≡ length m + 1
unfolding find emplace
length-emplace k v [] e = refl
length-emplace k v ((j, w) ∷ m) e = ground (arith, length-emplace k v m)

-- If every key from `b` on and below `n` is there, they are at least n - b.
pub length-full :
    {V : Type 0} (n b : ℕ) (m : List (ℕ × V))
    → Above b m
    → ((i : ℕ) → b ≤ i → i < n → find i m ≢ none)
    → n - b ≤ length m
length-full n b [] s all = elim (dec_lt b n) [
  | yes lt ↦ absurd (all b (omega arith) lt (unfold find in refl))
  | no ge ↦ omega arith
]
length-full n b ((k, v) ∷ m) s all = elim (dec_lt b k) [
  | yes gap ↦ elim (dec_lt b n) [
    | yes lt ↦ absurd (all b (omega arith) lt (find-below k b ((k, v) ∷ m) (omega arith, s.1) gap))
    | no ge ↦ omega arith
  ]
  | no at_b ↦ omega (arith, length-full n (suc k) m s.1 behind)
]
  where
    behind : (i : ℕ) → suc k ≤ i → i < n → find i m ≢ none
    behind i lo hi e = all i (omega (arith, s.0)) hi (unfold find in ground (arith, e))
