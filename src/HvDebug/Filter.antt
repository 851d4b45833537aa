-- ===== src/HvDebug/Filter.antt =====
-- The filter after any calls of setLevel, enable and disable.
use Prim.Native.Nat.{bit_and}
use Prim.Native.String.{String}
use hv_frame_test.Base.{
  ℕ, ◌-◌, ◌^◌, ◌≤◌, ◌<◌, ◌≡◌, ◌≢◌, ◌↔◌, inl, inr, refl, ◌∙◌, ap, sym, Bool, true, false, not, ◌&&◌,
  ◌||◌, List, [], ◌∷◌, arith, All, ltb, ◌==◌, if◌then◌else◌, ltb→le, le→ltb, ==_iff, ne→==, subst,
}
use hv_frame_test.Base.Bits.{
  bit, bit-bit_and, bit-bit_or, bit-complement, bit_some, bit_and-le, bit_zero,
}
use hv_frame_test.HvDebug.{
  Level, info, rank, HvDebug, initial, set_level, enable, disable, log, all_modules,
}

pub data Call : Type 0 where
  sets_level : Level → Call
  enables disables : ℕ → Call

abbrev pub CallFits : Call → Type 0
CallFits (sets_level level) = Unit
CallFits (enables mask) = mask < 2 ^ 32
CallFits (disables mask) = mask < 2 ^ 32

unfoldable pub call : HvDebug → Call → HvDebug
call d (sets_level level) = set_level d level
call d (enables mask) = enable d mask
call d (disables mask) = disable d mask

unfoldable pub run : HvDebug → List Call → HvDebug
run d [] = d
run d (c ∷ cs) = run (call d c) cs

-- The specification: whether the module of bit `i` is on, and the level, after the calls.
abbrev switch : ℕ → Bool → Call → Bool
switch i on (sets_level level) = on
switch i on (enables mask) = if bit i mask then true else on
switch i on (disables mask) = if bit i mask then false else on

unfoldable pub is_on : ℕ → Bool → List Call → Bool
is_on i on [] = on
is_on i on (c ∷ cs) = is_on i (switch i on c) cs

abbrev adjust : Level → Call → Level
adjust old (sets_level level) = level
adjust old (enables mask) = old
adjust old (disables mask) = old

unfoldable pub last_level : Level → List Call → Level
last_level old [] = old
last_level old (c ∷ cs) = last_level (adjust old c) cs

or_switch : (a b : Bool) → (a || b) ≡ (if b then true else a)
or_switch true true = refl
or_switch true false = refl
or_switch false true = refl
or_switch false false = refl

and_switch : (a b : Bool) → (a && not b) ≡ (if b then false else a)
and_switch true true = refl
and_switch true false = refl
and_switch false true = refl
and_switch false false = refl

false≢true : false ≢ true
false≢true e = cc

bit-call :
    (d : HvDebug) (c : Call) (i : ℕ)
    → CallFits c
    → i < 32
    → bit i (call d c).module_mask ≡ switch i (bit i d.module_mask) c
unfolding call set_level enable disable
bit-call d (sets_level level) i f h = refl
bit-call d (enables mask) i f h =
    bit-bit_or i d.module_mask mask ∙ or_switch (bit i d.module_mask) (bit i mask)
bit-call d (disables mask) i f h =
    bit-bit_and i d.module_mask (2 ^ 32 - 1 - mask)
    ∙ ap (λ b. bit i d.module_mask && b) (bit-complement 32 i mask h f)
    ∙ and_switch (bit i d.module_mask) (bit i mask)

bit-run :
    (d : HvDebug) (cs : List Call) (i : ℕ)
    → All CallFits cs
    → i < 32
    → bit i (run d cs).module_mask ≡ is_on i (bit i d.module_mask) cs
unfolding run is_on
bit-run d [] i f h = refl
bit-run d (c ∷ cs) i f h =
    bit-run (call d c) cs i f.1 h ∙ ap (λ b. is_on i b cs) (bit-call d c i f.0 h)

level-run : (d : HvDebug) (cs : List Call) → (run d cs).level ≡ last_level d.level cs
unfolding run last_level call set_level enable disable
level-run d [] = refl
level-run d (sets_level level ∷ cs) = level-run (set_level d level) cs
level-run d (enables mask ∷ cs) = level-run (enable d mask) cs
level-run d (disables mask ∷ cs) = level-run (disable d mask) cs

all_on : (i : ℕ) → i < 32 → bit i all_modules ≡ true
all_on i h = bit-complement 32 i 0 h (omega arith) ∙ ap not (bit_zero i)

printed_iff :
    (low off : Bool) (text : String)
    → ((if low then [] else if off then [] else text ∷ []) ≡ text ∷ [])
      ↔ ((low ≡ false) × (off ≡ false))
printed_iff true off text = ((λ e. cc), λ p. cc)
printed_iff false true text = ((λ e. cc), λ p. cc)
printed_iff false false text = ((λ e. (refl, refl)), λ p. refl)

and_iff : (a b : Bool) → ((a && b) ≡ true) ↔ ((a ≡ true) × (b ≡ true))
and_iff true true = ((λ e. (refl, refl)), λ p. refl)
and_iff true false = ((λ e. cc), λ p. cc)
and_iff false b = ((λ e. cc), λ p. cc)

-- Two masks meet exactly when they have a bit in common.
meets_iff :
    (a m : ℕ)
    → m < 2 ^ 32
    → ((bit_and a m == 0) ≡ false) ↔ ((i : ℕ) × (i < 32) × (bit i m ≡ true) × (bit i a ≡ true))
meets_iff a m h = (to, from)
  where
    to : (bit_and a m == 0) ≡ false → (i : ℕ) × (i < 32) × (bit i m ≡ true) × (bit i a ≡ true)
    to e = elim (bit_some 32 (bit_and a m) (omega (arith, bit_and-le a m))) [
      | inl z ↦ absurd (false≢true (sym e ∙ (==_iff (bit_and a m) 0).1 z))
      | inr (i, lt, b) ↦
          let both = (and_iff (bit i a) (bit i m)).0 (sym (bit-bit_and i a m) ∙ b) in
          (i, lt, both.1, both.0)
    ]

    from : (i : ℕ) × (i < 32) × (bit i m ≡ true) × (bit i a ≡ true) → (bit_and a m == 0) ≡ false
    from (i, lt, in_m, in_a) = ne→== (bit_and a m) 0 λ z. false≢true (
        sym (bit_zero i)
        ∙ sym (ap (bit i) z)
        ∙ bit-bit_and i a m
        ∙ (and_iff (bit i a) (bit i m)).1 (in_a, in_m))

-- After any calls of setLevel, enable and disable, with masks of 32 bits, log prints a message
-- exactly when its level is at most the last level that was set, or Info if none was, and its
-- module mask has a bit that is on: one that the last of the calls of enable and disable that names
-- it enabled, or that none names.
pub log-run_iff :
    (cs : List Call) (level : Level) (m : ℕ) (text : String)
    → All CallFits cs
    → m < 2 ^ 32
    → (log (run initial cs) level m text ≡ text ∷ []) ↔ (
        (rank level ≤ rank (last_level info cs))
        × ((i : ℕ) × (i < 32) × (bit i m ≡ true) × (is_on i true cs ≡ true)))
unfolding log
log-run_iff cs level m text f h = (to, from)
  where
    d : HvDebug
    d = run initial cs

    level_d : d.level ≡ last_level info cs
    level_d = unfold initial in level-run initial cs

    bit_d : (i : ℕ) → i < 32 → bit i d.module_mask ≡ is_on i true cs
    bit_d i lt = bit-run initial cs i f lt ∙ ap (λ b. is_on i b cs) (unfold initial in all_on i lt)

    to :
        log d level m text ≡ text ∷ []
        → (rank level ≤ rank (last_level info cs))
          × ((i : ℕ) × (i < 32) × (bit i m ≡ true) × (is_on i true cs ≡ true))
    to e =
        let tests =
          (printed_iff (ltb (rank d.level) (rank level)) (bit_and d.module_mask m == 0) text).0 e in
        let (i, lt, in_m, in_d) = (meets_iff d.module_mask m h).0 tests.1 in
        (
          subst (λ l. rank level ≤ rank l) level_d (ltb→le (rank d.level) (rank level) tests.0),
          (i, lt, in_m, sym (bit_d i lt) ∙ in_d),
        )

    from :
        (rank level ≤ rank (last_level info cs))
          × ((i : ℕ) × (i < 32) × (bit i m ≡ true) × (is_on i true cs ≡ true))
        → log d level m text ≡ text ∷ []
    from (le, (i, lt, in_m, on)) =
        (printed_iff (ltb (rank d.level) (rank level)) (bit_and d.module_mask m == 0) text).1 (
          le→ltb (rank d.level) (rank level) (subst (λ l. rank level ≤ rank l) (sym level_d) le),
          (meets_iff d.module_mask m h).1 (i, lt, in_m, bit_d i lt ∙ on),
        )
