-- ===== src/Receiver/Main.antt =====
-- What main of src/receiver/main_receiver.cpp does before the threads run.
use Prim.Native.Nat.{bit_or}
use Prim.Native.String.{String}
use hv_frame_test.Base.{ℕ, Bool, true, false, List, [], ◌∷◌, if◌then◌else◌}
use hv_frame_test.HvDebug.{HvDebug, debug, initial, set_level, enable, rx_module, frame_module}
use hv_frame_test.System.State.{System, launch}

-- What the system calls say. A setsockopt that fails is only reported.
record Socket : Type 0 where
  socket_opens : Bool
  rcvbuf_set : Bool
  reuse_set : Bool
  binds : Bool

-- main ends with -1, with an exception of stoi, or has both threads running.
pub data StartUp : Type 0 where
  usage aborted no_socket not_bound : StartUp
  running : System → StartUp

-- The messages of perror, by the call that failed.
data Message : Type 0 where
  socket_failed rcvbuf_failed reuse_failed bind_failed : Message

record Started : Type 0 where
  pub start : StartUp
  log_filter : HvDebug
  messages : List Message

abbrev unless : Bool → Message → List Message → List Message
unless true m ms = ms
unless false m ms = m ∷ ms

-- hv::debug is set up before bind.
unfoldable pub log_setup : HvDebug
log_setup = enable (set_level initial debug) (bit_or rx_module frame_module)

open_socket : Socket → ℕ → Started
unfolding log_setup
open_socket s now =
    if s.socket_opens
    then record {
      start = if s.binds then running (launch now) else not_bound;
      log_filter = log_setup;
      messages =
          unless s.rcvbuf_set rcvbuf_failed
            (unless s.reuse_set reuse_failed (unless s.binds bind_failed []));
    }
    else record { start = no_socket; log_filter = initial; messages = socket_failed ∷ [] }

-- The arguments behind the program's name. `parses` says of which texts stoi makes a number.
unfoldable receiver_start : (String → Bool) → List String → Socket → ℕ → Started
unfolding open_socket
receiver_start parses [] s now = record { start = usage; log_filter = initial; messages = [] }
receiver_start parses (port ∷ rest) s now =
    if parses port
    then open_socket s now
    else record { start = aborted; log_filter = initial; messages = [] }
