-- ===== src/HvDebug.antt =====
-- src/debug/hv_debug.cpp and include/debug/hv_debug_cfg.hpp: which lines of the log are printed.
pub mod Filter
use Prim.Native.Nat.{bit_and, bit_or}
use Prim.Native.String.{String}
use hv_frame_test.Base.{ℕ, ◌-◌, ◌^◌, List, [], ◌∷◌, ltb, ◌==◌, if◌then◌else◌, u32_mod}

-- Level.
pub data Level : Type 0 where
  error warn info debug : Level

-- static_cast<uint8_t>.
abbrev pub rank : Level → ℕ
rank error = 0
rank warn = 1
rank info = 2
rank debug = 3

-- Module.
abbrev pub rx_module : ℕ
rx_module = 1

abbrev tx_module : ℕ
tx_module = 2

abbrev pub frame_module : ℕ
frame_module = 4

abbrev queue_module : ℕ
queue_module = 8

abbrev pub all_modules : ℕ
all_modules = 2 ^ 32 - 1

-- g_module_mask and g_level.
pub record HvDebug : Type 0 where
  pub module_mask : ℕ
  pub level : Level

unfoldable pub initial : HvDebug
initial = record { module_mask = all_modules; level = info }

pub set_level : HvDebug → Level → HvDebug
set_level d level = record d { level = level }

pub enable : HvDebug → ℕ → HvDebug
enable d mask = record d { module_mask = bit_or d.module_mask mask }

-- ~ on a uint32_t.
pub disable : HvDebug → ℕ → HvDebug
disable d mask = record d { module_mask = bit_and d.module_mask (u32_mod - 1 - mask) }

-- The lines that are printed, `text` being the formatted message.
pub log : HvDebug → Level → ℕ → String → List String
log d level module_ text =
    if ltb (rank d.level) (rank level)
    then []
    else if bit_and d.module_mask module_ == 0
    then []
    else text ∷ []

-- The macros.
abbrev hv_loge : HvDebug → ℕ → String → List String
hv_loge d module_ text = log d error module_ text

abbrev hv_logw : HvDebug → ℕ → String → List String
hv_logw d module_ text = log d warn module_ text

abbrev pub hv_logi : HvDebug → ℕ → String → List String
hv_logi d module_ text = log d info module_ text

abbrev hv_logd : HvDebug → ℕ → String → List String
hv_logd d module_ text = log d debug module_ text
