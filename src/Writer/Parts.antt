-- ===== src/Writer/Parts.antt =====
-- The three files of a frame.
use Prim.Native.String.{String}
use hv_frame_test.Base.{
  ℕ, ◌-◌, ◌≤◌, ◌≡◌, ◌∙◌, sym, ap, Bool, true, List, [], ◌∷◌, ◌++◌, some, take, drop,
  take-append-drop, drop-take, take-take, le→ltb,
}
use hv_frame_test.Writer.{file_name, write_file, write_frame, write_frame_to_file}

-- Where fopen succeeds, a frame that is long enough for a header is written three times: its first
-- `n` bytes, their first 16, and the rest of them, so that the last two files together are the
-- first.
pub write_frame_to_file_lem :
    (can_open : String → Bool) (frame : List ℕ) (n : ℕ) (is_partial : Bool)
    → ((name : String) → can_open name ≡ true)
    → 16 ≤ n
    → (header raw : List ℕ) × (write_frame_to_file can_open (some frame) n is_partial
        ≡ record { name = file_name is_partial "_frame.bin"; bytes = take n frame }
          ∷ record { name = file_name is_partial "_header.bin"; bytes = header }
          ∷ record { name = file_name is_partial "_raw.bin"; bytes = raw }
          ∷ [])
      × (header ≡ take 16 (take n frame))
      × (raw ≡ drop 16 (take n frame))
      × (header ++ raw ≡ take n frame)
unfolding write_frame_to_file write_frame write_file
write_frame_to_file_lem can_open frame n is_partial opens long = (
  take 16 frame,
  take (n - 16) (drop 16 frame),
  rw (le→ltb n 16 long, opens, opens, opens),
  sym (take-take 16 n frame long),
  sym (drop-take 16 n frame),
  ap (λ t. t ++ take (n - 16) (drop 16 frame)) (sym (take-take 16 n frame long))
      ∙ ap (λ t. take 16 (take n frame) ++ t) (sym (drop-take 16 n frame))
      ∙ take-append-drop 16 (take n frame),
)
