-- ===== src/Receiver/Logging.antt =====
-- What the receiver prints of its log, once main has set the filter up.
use Prim.Native.String.{String}
use hv_frame_test.Base.{
  ℕ, ◌^◌, ◌<◌, ◌≤◌, ◌≡◌, inl, inr, refl, ◌∙◌, ap, sym, Bool, true, false, List, [], ◌∷◌, arith,
  if◌then◌else◌,
}
use hv_frame_test.Base.Bits.{bit, bit_some}
use hv_frame_test.HvDebug.{Level, error, warn, info, debug, rank, initial, log}
use hv_frame_test.HvDebug.Filter.{
  Call, sets_level, enables, run, call, is_on, last_level, log-run_iff,
}
use hv_frame_test.Receiver.Main.{log_setup}

abbrev setup_calls : List Call
setup_calls = sets_level debug ∷ enables 5 ∷ []

setup_run : run initial setup_calls ≡ log_setup
unfolding log_setup run call
setup_run = refl

highest : (level : Level) → rank level ≤ 3
highest error = omega arith
highest warn = omega arith
highest info = omega arith
highest debug = omega arith

stays_on : (b : Bool) → (if b then true else true) ≡ true
stays_on true = refl
stays_on false = refl

-- After the receiver's setup of the log every message is printed, whatever its level and its
-- modules, if it names a module at all: enable(RX | FRAME) turns nothing off.
pub log-log_setup :
    (level : Level) (m : ℕ) (text : String)
    → 0 < m
    → m < 2 ^ 32
    → log log_setup level m text ≡ text ∷ []
log-log_setup level m text some_module fits = elim (bit_some 32 m fits) [
  | inl z ↦ absurd (omega arith)
  | inr (i, lt, b) ↦
      ap (λ d. log d level m text) (sym setup_run)
      ∙ (log-run_iff setup_calls level m text (tt, (omega arith, tt)) fits).1
          (unfold last_level in highest level, (i, lt, b, unfold is_on in stays_on (bit i 5)))
]
