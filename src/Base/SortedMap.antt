-- ===== src/Base/SortedMap.antt =====
-- std::map with integer keys: the entries in ascending order of their keys, as an iteration meets
-- them.
use Prim.Native.Nat.{ℕ, suc, ◌≤◌, ◌<◌}
use mathlib.Core.Path.{◌≡◌, refl}
use mathlib.Core.List.{List, [], ◌∷◌}
use mathlib.Core.Bool.{Bool}
use mathlib.Core.Option.{Option, none, some}
use mathlib.Core.Option
use mathlib.Core.Logic.{◌⊎◌, inl, inr}
use native.Mathlib.Omega.{arith}
use hv_frame_test.Base.Tests.{Bool-cases, ltb, ◌==◌, if◌then◌else◌}

module _ {ℓ} {V : Type ℓ} where
  unfoldable pub find : ℕ → List (ℕ × V) → Option V
  find k [] = none
  find k ((j, v) ∷ m) = if j == k then some v else find k m

  -- A key that is there already keeps its value.
  unfoldable pub emplace : ℕ → V → List (ℕ × V) → List (ℕ × V)
  emplace k v [] = (k, v) ∷ []
  emplace k v ((j, w) ∷ m) =
      if ltb k j then (k, v) ∷ (j, w) ∷ m else if j == k then (j, w) ∷ m else (j, w) ∷ emplace k v m

  -- The value at a key, changed through a reference.
  unfoldable pub adjust : ℕ → (V → V) → List (ℕ × V) → List (ℕ × V)
  adjust k f [] = []
  adjust k f ((j, w) ∷ m) = if j == k then (j, f w) ∷ m else (j, w) ∷ adjust k f m

  -- The keys ascend from above a bound.
  abbrev pub Above : ℕ → List (ℕ × V) → Type 0
  Above b [] = Unit {0}
  Above b ((k, v) ∷ m) = (b ≤ k) × Above (suc k) m

  -- Every entry has a property, which may speak of its key.
  abbrev pub Each {κ} : (ℕ → V → Type κ) → List (ℕ × V) → Type κ
  Each P [] = Unit
  Each P ((k, v) ∷ m) = P k v × Each P m

  pub find-below : (b k : ℕ) (m : List (ℕ × V)) → Above b m → k < b → find k m ≡ none
  unfolding find
  find-below b k [] s h = refl
  find-below b k ((j, w) ∷ m) s h = ground (arith, find-below (suc j) k m s.1)

  pub find-emplace :
      (k i : ℕ) (v : V) (b : ℕ) (m : List (ℕ × V))
      → Above b m
      → find k m ≡ none
      → find i (emplace k v m) ≡ (if k == i then some v else find i m)
  unfolding find emplace
  find-emplace k i v b [] s e = refl
  find-emplace k i v b ((j, w) ∷ m) s e = ground (arith, find-emplace k i v (suc j) m s.1)

  pub find-adjust :
      (k i : ℕ) (f : V → V) (m : List (ℕ × V))
      → find i (adjust k f m) ≡ (if k == i then Option.map f (find i m) else find i m)
  unfolding find adjust
  find-adjust k i f [] = ground arith
  find-adjust k i f ((j, w) ∷ m) = ground (arith, find-adjust k i f m)

  pub emplace-Above :
      (k : ℕ) (v : V) (b : ℕ) (m : List (ℕ × V)) → b ≤ k → Above b m → Above b (emplace k v m)
  unfolding emplace
  emplace-Above k v b [] h s = (h, tt)
  emplace-Above k v b ((j, w) ∷ m) h s = ground (arith, emplace-Above k v (suc j) m)

  pub adjust-Above :
      (k : ℕ) (f : V → V) (b : ℕ) (m : List (ℕ × V)) → Above b m → Above b (adjust k f m)
  unfolding adjust
  adjust-Above k f b [] s = tt
  adjust-Above k f b ((j, w) ∷ m) s = ground (arith, adjust-Above k f (suc j) m s.1)

  pub emplace-Each {κ} :
      (P : ℕ → V → Type κ) (k : ℕ) (v : V) (m : List (ℕ × V))
      → P k v
      → Each P m
      → Each P (emplace k v m)
  unfolding emplace
  emplace-Each P k v [] p e = (p, tt)
  emplace-Each P k v ((j, w) ∷ m) p e = ground (arith, emplace-Each P k v m p e.1)

  pub adjust-Each {κ} :
      (P : ℕ → V → Type κ) (k : ℕ) (f : V → V) (m : List (ℕ × V))
      → ((i : ℕ) (v : V) → i ≡ k → P i v → P i (f v))
      → Each P m
      → Each P (adjust k f m)
  unfolding adjust
  adjust-Each P k f [] h e = tt
  adjust-Each P k f ((j, w) ∷ m) h e = ground (arith, h j w, adjust-Each P k f m h e.1)

  -- An entry that is found is one of them.
  pub find-Each {κ} :
      (P : ℕ → V → Type κ) (k : ℕ) (v : V) (m : List (ℕ × V)) → Each P m → find k m ≡ some v → P k v
  unfolding find
  find-Each P k v [] e q = cc
  find-Each P k v ((j, w) ∷ m) e q = ground (arith, find-Each P k v m e.1)

  -- An entry that is found is the first one or a later one.
  pub find-cases :
      (k j : ℕ) (w : V) (m : List (ℕ × V)) (v : V)
      → find k ((j, w) ∷ m) ≡ some v
      → (w ≡ v) ⊎ (find k m ≡ some v)
  unfolding find
  find-cases k j w m v e = ground arith

-- The entries that an iteration with erase leaves.
module _ {ℓ} {V : Type ℓ} (keep : V → Bool) where
  unfoldable pub retain : List (ℕ × V) → List (ℕ × V)
  retain [] = []
  retain ((j, w) ∷ m) = if keep w then (j, w) ∷ retain m else retain m

  -- What is left of one entry.
  abbrev pub if_kept : Option V → Option V
  if_kept none = none
  if_kept (some v) = if keep v then some v else none

  Above-weaken : (b c : ℕ) (m : List (ℕ × V)) → b ≤ c → Above c m → Above b m
  Above-weaken b c [] h s = tt
  Above-weaken b c ((j, w) ∷ m) h s = (omega arith, s.1)

  pub retain-Above : (b : ℕ) (m : List (ℕ × V)) → Above b m → Above b (retain m)
  unfolding retain
  retain-Above b [] s = tt
  retain-Above b ((j, w) ∷ m) s = elim (Bool-cases (keep w)) [
    | inl e ↦ rw e (s.0, retain-Above (suc j) m s.1)
    | inr e ↦ rw e (Above-weaken b (suc j) (retain m) (omega arith) (retain-Above (suc j) m s.1))
  ]

  pub retain-Each {κ} : (P : ℕ → V → Type κ) (m : List (ℕ × V)) → Each P m → Each P (retain m)
  unfolding retain
  retain-Each P [] e = tt
  retain-Each P ((j, w) ∷ m) e = elim (Bool-cases (keep w)) [
    | inl q ↦ rw q (e.0, retain-Each P m e.1)
    | inr q ↦ rw q (retain-Each P m e.1)
  ]

  pub find-retain :
      (k b : ℕ) (m : List (ℕ × V)) → Above b m → find k (retain m) ≡ if_kept (find k m)
  unfolding retain find
  find-retain k b [] s = refl
  find-retain k b ((j, w) ∷ m) s = ground (
    arith,
    find-retain k (suc j) m s.1,
    find-below (suc j) k (retain m) (retain-Above (suc j) m s.1),
  )
