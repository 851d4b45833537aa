-- ===== src/Receiver/Files.antt =====
-- Which files the worker's timers write.
use Prim.Native.String.{String}
use mathlib.Core.List.{Mem, mem-cons_self}
use hv_frame_test.Base.{
  ℕ, ◌<◌, ◌≤◌, ◌≡◌, ◌≢◌, refl, sym, subst, arith, Bool, true, false, Option, none, some, List, [],
  ◌∷◌, ltb, leb, Bool-cases, ◌⊎◌, inl, inr, All, All-append, take, drop, ◌-◌, ◌+◌,
}
use hv_frame_test.Protocol.{RxPacket}
use hv_frame_test.FrameResult.{FrameState, FrameResult}
use hv_frame_test.Writer.{FileWrite, write_file, write_frame, write_frame_to_file}
use hv_frame_test.Writer.Parts.{write_frame_to_file_lem}
use hv_frame_test.Base.SortedMap.{find}
use hv_frame_test.Manager.State.{FrameEntry}
use hv_frame_test.Manager.Loop.{mem-emit_loop}
use hv_frame_test.Receiver.Outputs.{written, written-on_frame_done}
use hv_frame_test.PacketQueue.{World, act_all, pop_until}
use hv_frame_test.Manager.Timers.{poll_timers, timer_verdict, emitted_result}
use hv_frame_test.Manager.Ending.{poll_timers_never_partial}
use hv_frame_test.Receiver.Worker.{feed, Worker, Round, turn, run_timers, on_frame_done}

-- One of the three files of a full frame.
abbrev pub IsFull : FileWrite → Type 0
IsFull f =
    (f.name ≡ "received_full_frame.bin")
    ⊎ (f.name ≡ "received_full_header.bin")
    ⊎ (f.name ≡ "received_full_raw.bin")

module _ (can_open : String → Bool) where
  write_file-IsFull :
      (name : String) (bytes : List ℕ)
      → IsFull (record { name = name; bytes = bytes })
      → All IsFull (write_file can_open name bytes)
  unfolding write_file
  write_file-IsFull name bytes h = elim (Bool-cases (can_open name)) [
    | inl e ↦ rw e (h, tt)
    | inr e ↦ rw e tt
  ]

  write_frame-IsFull : (frame : List ℕ) (n : ℕ) → All IsFull (write_frame can_open frame n false)
  unfolding write_frame
  write_frame-IsFull frame n =
      All-append IsFull (write_file can_open "received_full_frame.bin" (take n frame)) _
        (write_file-IsFull "received_full_frame.bin" (take n frame) (inl refl))
        (All-append IsFull (write_file can_open "received_full_header.bin" (take 16 frame)) _
          (write_file-IsFull "received_full_header.bin" (take 16 frame) (inr (inl refl)))
          (write_file-IsFull "received_full_raw.bin" (take (n - 16) (drop 16 frame))
            (inr (inr refl))))

  write-IsFull :
      (frame : List ℕ) (n : ℕ) → All IsFull (write_frame_to_file can_open (some frame) n false)
  unfolding write_frame_to_file
  write-IsFull frame n = elim (Bool-cases (ltb n 16)) [
    | inl e ↦ rw e tt
    | inr e ↦ rw e (write_frame-IsFull frame n)
  ]

  on_frame_done-IsFull :
      (rs : List FrameResult)
      → All (λ r. r.state ≡ FrameState.complete_frame) rs
      → All IsFull (on_frame_done can_open rs)
  unfolding on_frame_done
  on_frame_done-IsFull [] h = tt
  on_frame_done-IsFull (r ∷ rs) h = rw h.0 (
      All-append IsFull (write_frame_to_file can_open (some r.frame_data) r.frame_size false) _
        (write-IsFull r.frame_data r.frame_size) (on_frame_done-IsFull rs h.1))

  run_timers-IsFull :
      (k : Worker) (w : World RxPacket) (now poll_time : ℕ)
      → All IsFull (run_timers can_open k w now poll_time).1
  unfolding run_timers
  run_timers-IsFull k w now poll_time = elim (Bool-cases (leb (k.last_timer + 5_000_000) now)) [
    | inl e ↦ rw e (
        on_frame_done-IsFull (poll_timers k.manager w.queue.dropped poll_time).1
          (poll_timers_never_partial k.manager w.queue.dropped poll_time).0)
    | inr e ↦ rw e tt
  ]

  turn_writes-IsFull :
      (k : Worker) (w : World RxPacket) (i : Round) → All IsFull (turn can_open k w i).writes
  unfolding turn
  turn_writes-IsFull k w i =
      let (w1, got) = pop_until w i.while_waiting in
      let w2 = act_all w1 i.before_push in
      run_timers-IsFull (feed k got w2 i.push_time) (act_all w2 i.before_timers) i.timer_time
        i.poll_time

-- The worker in the middle of a round, when the packet that it popped has gone to its manager.
abbrev pub fed_worker : Worker → World RxPacket → Round → Worker
fed_worker k w i =
    let (w1, got) = pop_until w i.while_waiting in feed k got (act_all w1 i.before_push) i.push_time

last_timer-feed :
    (k : Worker) (got : Option RxPacket) (w : World RxPacket) (now : ℕ)
    → (feed k got w now).last_timer ≡ k.last_timer
unfolding feed
last_timer-feed k none w now = refl
last_timer-feed k (some x) w now = refl

-- The file that a frame ends in that is taken for a full one.
abbrev pub full_file : FrameEntry → FileWrite
full_file e = record {
  name = "received_full_frame.bin";
  bytes = take e.reassembler.frame_size e.reassembler.frame_buffer;
}

module _ (can_open : String → Bool) (opens : (name : String) → can_open name ≡ true) (id : ℕ)
    (e : FrameEntry)
    (short : e.reassembler.received_packets_count ≢ e.reassembler.expected_packet_count)
    (long : 16 ≤ e.reassembler.frame_size) where
  run_timers-full_file :
      (k : Worker) (w : World RxPacket) (now poll_time : ℕ)
      → k.manager.has_handler ≡ true
      → find id k.manager.frames ≡ some e
      → (e.last_update + 30_000_000 < poll_time) ⊎ (e.first_packet_time + 8_000_000_000 < poll_time)
      → k.last_timer + 5_000_000 ≤ now
      → Mem (full_file e) (run_timers can_open k w now poll_time).1
  unfolding run_timers poll_timers written emitted_result
  run_timers-full_file k w now poll_time on found over due =
      let (header, raw, files, _, _, _) =
        write_frame_to_file_lem can_open e.reassembler.frame_buffer e.reassembler.frame_size false
          opens long in
      let ended : timer_verdict e poll_time ≡ some FrameState.complete_frame =
        unfold timer_verdict in ground arith in
      let runs : leb (k.last_timer + 5_000_000) now ≡ true = ground arith in
      rw (runs, on)
        (written-on_frame_done can_open (full_file e)
          (emitted_result e FrameState.complete_frame w.queue.dropped) _
          (mem-emit_loop (λ v. timer_verdict v poll_time) w.queue.dropped k.manager.stats
            k.manager.frames id e _ found ended)
          (subst (λ fs. Mem (full_file e) fs) (sym files) mem-cons_self))

  -- A frame that lacks packets is taken for a full one. It has at least 16 bytes, and when the
  -- packet of a round of the worker's loop has gone to the manager, which has a handler, it has run
  -- out of time, of the 30 ms since its last packet or of the 8 s since its first; the timers run
  -- in that round, and every file can be opened. Then the round writes the bytes that are there to
  -- received_full_frame.bin, and it writes no file but those of full frames, none of the three of a
  -- partial one.
  pub turn-IsFull :
      (k : Worker) (w : World RxPacket) (i : Round)
      → (fed_worker k w i).manager.has_handler ≡ true
      → find id (fed_worker k w i).manager.frames ≡ some e
      → (e.last_update + 30_000_000 < i.poll_time)
        ⊎ (e.first_packet_time + 8_000_000_000 < i.poll_time)
      → k.last_timer + 5_000_000 ≤ i.timer_time
      → Mem (full_file e) (turn can_open k w i).writes × All IsFull (turn can_open k w i).writes
  unfolding turn
  turn-IsFull k w i on found over due =
      let (w1, got) = pop_until w i.while_waiting in
      let w2 = act_all w1 i.before_push in
      (
        run_timers-full_file (feed k got w2 i.push_time) (act_all w2 i.before_timers) i.timer_time
            i.poll_time on found over (omega (arith, due, last_timer-feed k got w2 i.push_time)),
        turn_writes-IsFull can_open k w i,
      )
