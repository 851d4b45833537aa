-- ===== src/Writer.antt =====
-- src/common/frame_writer.cpp: the three files that a frame is written to.
pub mod Parts
use Prim.Native.String.{String}
use Prim.Native.String
use hv_frame_test.Base.{
  ℕ, ◌-◌, Bool, List, [], ◌∷◌, ◌++◌, Option, none, some, ltb, if◌then◌else◌, take, drop,
}
use hv_frame_test.Protocol.{sizeof_frame_header}

-- A file that was opened with "wb", written once and closed: it holds these bytes.
pub record FileWrite : Type 0 where
  pub name : String
  pub bytes : List ℕ

-- std::string("received_") + base + the suffix of the file.
abbrev pub file_name : Bool → String → String
file_name is_partial suffix =
    String.◌++◌ "received_" (String.◌++◌ (if is_partial then "partial" else "full") suffix)

-- Which files fopen can open for writing is up to the file system. A write to a file that is open
-- takes all its bytes.
module _ (can_open : String → Bool) where
  unfoldable pub write_file : String → List ℕ → List FileWrite
  write_file name bytes = if can_open name then record { name = name; bytes = bytes } ∷ [] else []

  -- What is written once the frame is there and long enough for a header.
  unfoldable pub write_frame : List ℕ → ℕ → Bool → List FileWrite
  unfolding write_file
  write_frame frame frame_size is_partial =
      write_file (file_name is_partial "_frame.bin") (take frame_size frame)
      ++ (write_file (file_name is_partial "_header.bin") (take sizeof_frame_header frame)
          ++ write_file (file_name is_partial "_raw.bin")
              (take (frame_size - sizeof_frame_header) (drop sizeof_frame_header frame)))

  -- `none` is a null pointer.
  unfoldable pub write_frame_to_file : Option (List ℕ) → ℕ → Bool → List FileWrite
  write_frame_to_file none frame_size is_partial = []
  write_frame_to_file (some frame) frame_size is_partial =
      if ltb frame_size sizeof_frame_header then [] else write_frame frame frame_size is_partial
