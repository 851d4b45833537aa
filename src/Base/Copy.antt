-- ===== src/Base/Copy.antt =====
-- `memcpy` into a buffer: bytes are numbers, a buffer is the list of its bytes.
use Prim.Native.Nat.{ℕ, zero, suc, ◌+◌, ◌<◌, ◌≤◌}
use mathlib.Core.Path.{◌≡◌, refl, ap}
use mathlib.Core.Logic.{◌⊎◌}
use mathlib.Core.List.{List, [], ◌∷◌}
use native.Mathlib.Omega.{arith}
use hv_frame_test.Base.Lists.{length, get_or}

-- memcpy(buf + off, src, length src). What lies beyond the buffer is left alone.
abbrev pub copy_at : List ℕ → ℕ → List ℕ → List ℕ
copy_at [] off src = []
copy_at (b ∷ bs) off [] = b ∷ bs
copy_at (b ∷ bs) zero (x ∷ xs) = x ∷ copy_at bs zero xs
copy_at (b ∷ bs) (suc off) (x ∷ xs) = b ∷ copy_at bs off (x ∷ xs)

pub length-copy_at :
    (bs : List ℕ) (off : ℕ) (src : List ℕ) → length (copy_at bs off src) ≡ length bs
length-copy_at [] off src = refl
length-copy_at (b ∷ bs) off [] = refl
length-copy_at (b ∷ bs) zero (x ∷ xs) = ap suc (length-copy_at bs zero xs)
length-copy_at (b ∷ bs) (suc off) (x ∷ xs) = ap suc (length-copy_at bs off (x ∷ xs))

-- A byte inside the copied range is the source's.
pub copy_at_inside :
    (bs : List ℕ) (off : ℕ) (src : List ℕ) (i : ℕ)
    → off + i < length bs
    → i < length src
    → get_or (copy_at bs off src) (off + i) 0 ≡ get_or src i 0
copy_at_inside [] off src i h lt = absurd (omega arith)
copy_at_inside (b ∷ bs) off [] i h lt = absurd (omega arith)
copy_at_inside (b ∷ bs) zero (x ∷ xs) zero h lt = refl
copy_at_inside (b ∷ bs) zero (x ∷ xs) (suc i) h lt =
    let e : 0 + suc i ≡ suc (0 + i) = omega arith in
    rw e (copy_at_inside bs zero xs i (omega arith) (omega arith))
copy_at_inside (b ∷ bs) (suc off) (x ∷ xs) i h lt =
    let e : suc off + i ≡ suc (off + i) = omega arith in
    rw e (copy_at_inside bs off (x ∷ xs) i (omega arith) lt)

-- A byte outside it stays.
pub copy_at_outside :
    (bs : List ℕ) (off : ℕ) (src : List ℕ) (i : ℕ)
    → (i < off) ⊎ (off + length src ≤ i)
    → get_or (copy_at bs off src) i 0 ≡ get_or bs i 0
copy_at_outside [] off src i h = refl
copy_at_outside (b ∷ bs) off [] i h = refl
copy_at_outside (b ∷ bs) zero (x ∷ xs) zero h = absurd (omega arith)
copy_at_outside (b ∷ bs) zero (x ∷ xs) (suc i) h = copy_at_outside bs zero xs i (omega arith)
copy_at_outside (b ∷ bs) (suc off) (x ∷ xs) zero h = refl
copy_at_outside (b ∷ bs) (suc off) (x ∷ xs) (suc i) h =
    copy_at_outside bs off (x ∷ xs) i (omega arith)

-- Copies into ranges that do not meet may be made in either order.
pub copy_at_comm :
    (bs : List ℕ) (o : ℕ) (s : List ℕ) (o' : ℕ) (s' : List ℕ)
    → (o + length s ≤ o') ⊎ (o' + length s' ≤ o)
    → copy_at (copy_at bs o s) o' s' ≡ copy_at (copy_at bs o' s') o s
copy_at_comm [] o s o' s' h = refl
copy_at_comm (b ∷ bs) o [] o' [] h = refl
copy_at_comm (b ∷ bs) o [] zero (y ∷ ys) h = refl
copy_at_comm (b ∷ bs) o [] (suc o') (y ∷ ys) h = refl
copy_at_comm (b ∷ bs) zero (x ∷ xs) o' [] h = refl
copy_at_comm (b ∷ bs) (suc o) (x ∷ xs) o' [] h = refl
copy_at_comm (b ∷ bs) zero (x ∷ xs) zero (y ∷ ys) h = absurd (omega arith)
copy_at_comm (b ∷ bs) zero (x ∷ xs) (suc o') (y ∷ ys) h =
    ap (λ t. x ∷ t) (copy_at_comm bs zero xs o' (y ∷ ys) (omega arith))
copy_at_comm (b ∷ bs) (suc o) (x ∷ xs) zero (y ∷ ys) h =
    ap (λ t. y ∷ t) (copy_at_comm bs o (x ∷ xs) zero ys (omega arith))
copy_at_comm (b ∷ bs) (suc o) (x ∷ xs) (suc o') (y ∷ ys) h =
    ap (λ t. b ∷ t) (copy_at_comm bs o (x ∷ xs) o' (y ∷ ys) (omega arith))
