-- ===== src/Receiver/Return.antt =====
-- How main of src/receiver/main_receiver.cpp ends, and what on_exit_dump does behind it.
use Prim.Native.String.{String}
use hv_frame_test.Base.{Bool, true, false, Option, none, some, List, [], ◌∷◌, ◌++◌}
use hv_frame_test.DebugLog.{DebugLog, DumpLine, initial, dump_ring}
use hv_frame_test.Receiver.Main.{StartUp, usage, aborted, no_socket, not_bound, running}

pub data ExitStatus : Type 0 where
  succeeded failed terminated : ExitStatus

-- `dumps` is what is written to packet_trace.log, each dump over the one before.
pub record Returned : Type 0 where
  pub status : ExitStatus
  socket_closed : Bool
  pub dumps : List (List DumpLine)

abbrev pub listed : Option (List DumpLine) → List (List DumpLine)
listed none = []
listed (some lines) = lines ∷ []

module _ (can_open : String → Bool) where
  -- The handler that atexit registers, behind the creation of the socket.
  unfoldable pub on_exit_dump : DebugLog → List (List DumpLine)
  on_exit_dump l = listed (dump_ring can_open l "packet_trace.log")

  -- main's last lines, once it has joined both threads.
  unfoldable pub finish : DebugLog → Returned
  unfolding on_exit_dump
  finish l = record {
    status = succeeded;
    socket_closed = true;
    dumps = listed (dump_ring can_open l "packet_trace.log") ++ on_exit_dump l;
  }

  -- How main comes to its end, with `l` as the log that the threads leave.
  unfoldable pub main_end : StartUp → DebugLog → Returned
  unfolding finish
  main_end usage l = record { status = failed; socket_closed = false; dumps = [] }
  main_end aborted l = record { status = terminated; socket_closed = false; dumps = [] }
  main_end no_socket l = record { status = failed; socket_closed = false; dumps = [] }
  main_end not_bound l = record {
    status = failed;
    socket_closed = true;
    dumps = on_exit_dump initial;
  }
  main_end (running s) l = finish l
