-- ===== src/Sender/Main.antt =====
-- src/sender/main_sender.cpp, and the file source that it reads (src/sender/file_source.cpp).
use Prim.Native.String.{String}
use hv_frame_test.Base.{
  ℕ, Bool, Option, none, some, List, [], ◌∷◌, leb, if◌then◌else◌, length, take,
}
use hv_frame_test.Protocol.{sizeof_frame_header}
use hv_frame_test.Writer.{FileWrite, write_file}
use hv_frame_test.Sender.{Attempt, Sent, Status, finished, broken_off, waiting, encode, send_frame}

pub record FileSource : Type 0 where
  pub path : String

-- `files` says what a file holds, if it can be opened. `none` is the answer false.
module _ (files : String → Option (List ℕ)) where
  abbrev whole : Option (List ℕ) → Option (List ℕ)
  whole none = none
  whole (some []) = none
  whole (some (x ∷ xs)) = some (x ∷ xs)

  unfoldable pub get_next_frame : FileSource → Option (List ℕ)
  get_next_frame src = whole (files src.path)

-- How main ends: with -1 and a message, with an exception of stoi, or with 0; or it is still in
-- sendFrame.
pub data Ending : Type 0 where
  usage cannot_open aborted no_frame done sending : Ending

-- `sent` is what sendFrame did, if it was called.
pub record SenderRun : Type 0 where
  pub ending : Ending
  pub writes : List FileWrite
  pub sent : Option Sent

abbrev stopped : Ending → SenderRun
stopped e = record { ending = e; writes = []; sent = none }

abbrev pub raw_path_of : List String → String
raw_path_of [] = "test_data/raw/gradient_1920x1080.raw"
raw_path_of (path ∷ rest) = path

-- main returns 0 behind sendFrame, however that comes to its end.
abbrev pub after_sending : Status → Ending
after_sending finished = done
after_sending broken_off = done
after_sending waiting = sending

-- The encoded frame, its header in a file of its own, and the packets.
module _ (can_open : String → Bool) (attempts : List Attempt) where
  unfoldable pub send_raw : List ℕ → SenderRun
  send_raw raw =
      let frame = encode raw 1920 1080 12 in
      let out = (send_frame (record { frame_id = 0 }) frame attempts).1 in
      record {
        ending = after_sending out.status;
        writes =
            if leb sizeof_frame_header (length frame)
            then write_file can_open "sender_header.bin" (take sizeof_frame_header frame)
            else [];
        sent = some out;
      }

  -- The raw file is opened once to see that it is there, and once to be read. `parses` says of which
  -- texts stoi makes a number.
  module _ (files : String → Option (List ℕ)) (parses : String → Bool) where
    abbrev send_next : Option (List ℕ) → SenderRun
    send_next none = stopped no_frame
    send_next (some raw) = send_raw raw

    abbrev send_from : String → String → Option (List ℕ) → SenderRun
    send_from port path none = stopped cannot_open
    send_from port path (some check) =
        if parses port
        then send_next (get_next_frame files (record { path = path }))
        else stopped aborted

    -- The arguments behind the program's name.
    unfoldable pub sender_main : List String → SenderRun
    unfolding send_raw get_next_frame
    sender_main [] = stopped usage
    sender_main (ip ∷ []) = stopped usage
    sender_main (ip ∷ port ∷ rest) = send_from port (raw_path_of rest) (files (raw_path_of rest))
