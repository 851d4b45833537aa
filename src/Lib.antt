-- ===== src/Lib.antt =====
-- A UDP link for raw camera images. A sender puts a 16-byte header before an image, cuts the frame
-- into packets of at most 1400 bytes, and sends them. A receiver takes the datagrams in one thread,
-- passes them through a bounded queue to a second thread, puts each frame together again, whatever
-- the order of its packets, and writes it to three files.
--
-- The parts, and the files that model them:
--   Protocol        include/protocol: the packet and the frame header; Protocol.Bytes has their packed
--                   little-endian layout, as the memcpys of the sender and the receiver use it.
--   Sender          src/sender/ccsds_stub_encoder.cpp (encode) and src/sender/udp_sender.cpp
--                   (waitWritable: wait_writable, sendFrame: send_frame and its loop send_loop);
--                   Sender.Main is src/sender/main_sender.cpp with src/sender/file_source.cpp.
--                   Sender.Socket is the constructor of UdpSender (construct) and its address.
--   Receiver        src/receiver/main_receiver.cpp. Receiver.Rx is what udp_rx_thread does with one
--                   datagram, and Receiver.Loop its loop over poll and recvfrom (rx_loop);
--                   Receiver.Worker is frame_worker_thread: one round of its loop (turn), its parts, and
--                   the loop with its end (work); Receiver.Main is main up to the start of the threads,
--                   Receiver.Return its end. Receiver.Outputs says what the calls of the manager's
--                   methods write.
--   System          src/receiver/main_receiver.cpp once more, as a whole: udp_rx_thread,
--                   frame_worker_thread, main and the signal handler, in every interleaving.
--                   System.State says where each thread stands and what they share, System.Steps
--                   has one constructor for each move between two accesses of the queue or the flag,
--                   and its moves use the definitions of Receiver.Worker and Receiver.Rx.
--   PacketQueue     src/common/packet_queue.cpp: push, try_pop, pop, pop_or_shutdown, pop_until, each
--                   as one step; PacketQueue.Monitor has push and pop_until once more, access by access,
--                   in two threads.
--   Manager         src/common/frame_reassembler_manager.cpp: Manager.State has the map of frames and
--                   pushPacket, Manager.Timers emitFrame, pollTimers and forceEmitAll, Manager.Flush
--                   pollFlush and flushAll.
--   Reassembler     src/common/frame_reassembler_v2.cpp: one frame in a fixed buffer.
--   ReassemblerV1   src/common/frame_reassembler.cpp: the first reassembler, which is not built.
--   FrameResult     src/common/frame_result.cpp: what is known of a frame that is handed over, and
--                   the statistics of a stream of them.
--   Writer          src/common/frame_writer.cpp: the files that are written.
--   HvDebug         src/debug/hv_debug.cpp and include/debug/hv_debug_cfg.hpp: the filter of the log.
--   DebugLog        src/debug/debug_log.cpp and include/debug/debug_log.hpp: the counters and the trace
--                   ring (trace_packet, dump_ring); DebugLog.Sources has the entries that the receiver
--                   and the manager trace, DebugLog.Tracers the two threads that trace at once.
--   Delivery        the parts together, from the sender's file to the receiver's files.
--   Base            lists, slices, bit vectors, machine words, and std::map as a sorted list.
--   Tests           runs of the theorems at small inputs.
--
-- How the state is modelled. An object is a record with the fields of its class, and a method is a
-- function from the object to the object. A byte is a number, a vector a list, and a pointer to a
-- buffer the list of the bytes behind it. An integer of w bits keeps its wrap-around: inc16, dec16,
-- inc32 and inc64 are its ++ and --, add_size, mul_size and sub_size the operations of size_t, with 64
-- bits. std::map is the list of its entries in the order of their keys. The clock is steady_clock in
-- nanoseconds; each reading is an argument of the call that takes it, and since a difference of two
-- readings is signed, `a - b > d` is written `b + d < a`. Calls of onFrameDone are a list of results,
-- written files a list of names and contents.
--
-- The threads meet in the queue and in g_shutdown. A call of the queue holds its mutex, so that it is
-- one step. Receiver looks at one thread at a time: where it waits or lies between two calls, what the
-- others do to the queue and the flag is an argument, a list of actions that may be any. System looks
-- at all of them: a step is one move of one thread, and Reach says which states there are after any
-- number of steps, with the packets that the queue took or refused and the manager got on the way. The
-- clock of a step is any, and so is what poll and recvfrom say. A condition variable may wake a thread
-- for no reason. Elsewhere what poll, sendto and recvfrom say is a list of replies, and whether fopen
-- can open a file is a function. A list of replies or rounds that is too
-- short leaves the status `waiting` or `running`, or a loop that has not left; the theorems on the ends
-- of send_loop and work say which lists are long enough. No definition has fuel besides these.
--
-- Not modelled: the text of log messages and of the lines of a dump; the HV_LOG calls inside the
-- components, which do not feed back into the state; src/debug/debug_stats.cpp, which nothing
-- uses. What stoi takes for a number, what inet_pton makes of a text and what a file holds are
-- functions. A memcpy past RxPacket's array is the outcome `overrun`, and nothing is said of what
-- comes after it. The write of an entry of the trace is one move, although
-- nothing makes it atomic.
pub mod Base
pub mod Protocol
pub mod FrameResult
pub mod Reassembler
pub mod ReassemblerV1
pub mod Writer
pub mod PacketQueue
pub mod HvDebug
pub mod Manager
pub mod Sender
pub mod Receiver
pub mod System
pub mod DebugLog
pub mod Delivery
pub mod Tests
