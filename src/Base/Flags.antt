-- ===== src/Base/Flags.antt =====
-- How many flags of a vector<bool> are set.
use Prim.Native.Nat.{ℕ, zero, suc, ◌+◌, ◌<◌, ◌≤◌}
use mathlib.Core.Path.{◌≡◌, refl, ap}
use mathlib.Core.List.{List, [], ◌∷◌}
use mathlib.Core.Bool.{Bool, true, false}
use native.Mathlib.Omega.{arith}
use hv_frame_test.Base.Lists.{length, get_or, set, replicate}

-- How many entries are true.
abbrev pub count_true : List Bool → ℕ
count_true [] = 0
count_true (true ∷ bs) = suc (count_true bs)
count_true (false ∷ bs) = count_true bs

pub count_true-le : (bs : List Bool) → count_true bs ≤ length bs
count_true-le [] = omega arith
count_true-le (true ∷ bs) = omega (arith, count_true-le bs)
count_true-le (false ∷ bs) = omega (arith, count_true-le bs)

pub count_true-set :
    (bs : List Bool) (i : ℕ)
    → i < length bs
    → get_or bs i false ≡ false
    → count_true (set bs i true) ≡ count_true bs + 1
count_true-set [] i h e = absurd (omega arith)
count_true-set (true ∷ bs) zero h e = absurd (cc)
count_true-set (false ∷ bs) zero h e = omega arith
count_true-set (true ∷ bs) (suc i) h e = omega (arith, count_true-set bs i (omega arith) e)
count_true-set (false ∷ bs) (suc i) h e = omega (arith, count_true-set bs i (omega arith) e)

pub count_true-replicate : (n : ℕ) → count_true (replicate n false) ≡ 0
count_true-replicate zero = refl
count_true-replicate (suc n) = count_true-replicate n

-- All entries are true exactly when their count is the length.
pub count_true_full :
    (bs : List Bool)
    → count_true bs ≡ length bs
    → (i : ℕ) → i < length bs
    → get_or bs i false ≡ true
count_true_full [] e i h = absurd (omega arith)
count_true_full (true ∷ bs) e zero h = refl
count_true_full (true ∷ bs) e (suc i) h = count_true_full bs (omega arith) i (omega arith)
count_true_full (false ∷ bs) e i h = absurd (omega (arith, count_true-le bs))

pub count_true_of_all :
    (bs : List Bool)
    → ((i : ℕ) → i < length bs → get_or bs i false ≡ true)
    → count_true bs ≡ length bs
count_true_of_all [] h = refl
count_true_of_all (true ∷ bs) h = ap suc (count_true_of_all bs (λ i lt. h (suc i) (omega arith)))
count_true_of_all (false ∷ bs) h = absurd (ne (h 0 (omega arith)))
  where
    ne : ◌≡◌ {A = Bool} false true → ⊥
    ne e = cc

pub count_true_some : (bs : List Bool) (i : ℕ) → get_or bs i false ≡ true → 0 < count_true bs
count_true_some [] i e = absurd (cc)
count_true_some (true ∷ bs) i e = omega arith
count_true_some (false ∷ bs) zero e = absurd (cc)
count_true_some (false ∷ bs) (suc i) e = count_true_some bs i e
