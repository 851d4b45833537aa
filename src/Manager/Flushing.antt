-- ===== src/Manager/Flushing.antt =====
-- How pollFlush and flushAll end frames.
use Prim.Native.String.{String}
use mathlib.Core.List.{Mem, mem-cons_self, mem-append_right, mem-append_left}
use hv_frame_test.Base.{
  ℕ, ◌+◌, ◌≤◌, ◌<◌, ◌≡◌, refl, ◌∙◌, ap, Bool, true, not, ◌&&◌, none, some, List, [], ◌∷◌, ◌++◌,
  arith, Option-cases, inl, inr, take, lt→ltb, le→ltb, ◌==◌, leb,
}
use hv_frame_test.Base.SortedMap.{find, retain, if_kept, find-retain, find-cases}
use hv_frame_test.Reassembler
use hv_frame_test.Manager.State.{FrameReassemblerManager, FrameEntry}
use hv_frame_test.Writer.{FileWrite, write_frame_to_file, write_frame, write_file}
use hv_frame_test.Manager.Flush.{
  flush_entries, write_entry, flush_all, flush_verdict, flush_loop, poll_flush,
}
use hv_frame_test.Manager.Inv.{IsValid}
use hv_frame_test.Manager.Loop.{is_none}

-- A frame that pollFlush leaves: it is not complete, and its first packet came at most 8 s ago.
abbrev pub is_pending : ℕ → FrameEntry → Bool
is_pending now e =
    not (
      e.reassembler.received_packets_count == e.reassembler.expected_packet_count
      && not e.reassembler.corrupted_detected)
    && leb now (e.first_packet_time + 8_000_000_000)

pub flush_verdict-pending :
    (now : ℕ) (e : FrameEntry) → is_none (flush_verdict e now) ≡ is_pending now e
unfolding flush_verdict Reassembler.is_frame_complete Reassembler.has_gap
flush_verdict-pending now e = ground arith

module _ (can_open : String → Bool) (now id : ℕ) (e : FrameEntry)
    (rest : List (ℕ × FrameEntry)) where
  flush_loop_kept :
      flush_verdict e now ≡ none
      → (flush_loop can_open now ((id, e) ∷ rest)).frames
        ≡ (id, e) ∷ (flush_loop can_open now rest).frames
  unfolding flush_loop
  flush_loop_kept k = rw (k, flush_loop)

  flush_loop_ended :
      {b : Bool}
      → flush_verdict e now ≡ some b
      → (flush_loop can_open now ((id, e) ∷ rest)).frames ≡ (flush_loop can_open now rest).frames
  unfolding flush_loop
  flush_loop_ended k = rw (k, flush_loop)

  flush_writes_kept :
      flush_verdict e now ≡ none
      → (flush_loop can_open now ((id, e) ∷ rest)).writes ≡ (flush_loop can_open now rest).writes
  unfolding flush_loop
  flush_writes_kept k = rw (k, flush_loop)

  flush_writes_ended :
      {b : Bool}
      → flush_verdict e now ≡ some b
      → (flush_loop can_open now ((id, e) ∷ rest)).writes
        ≡ write_entry can_open e b ++ (flush_loop can_open now rest).writes
  unfolding flush_loop
  flush_writes_ended k = rw (k, flush_loop)

pub frames-flush_loop :
    (can_open : String → Bool) (now : ℕ) (m : List (ℕ × FrameEntry))
    → (flush_loop can_open now m).frames ≡ retain (is_pending now) m
unfolding retain
frames-flush_loop can_open now [] = unfold flush_loop in refl
frames-flush_loop can_open now ((id, e) ∷ rest) = elim (Option-cases (flush_verdict e now)) [
  | inl k ↦
      rw (← flush_verdict-pending now e, k)
        (flush_loop_kept can_open now id e rest k
          ∙ ap (λ t. (id, e) ∷ t) (frames-flush_loop can_open now rest))
  | inr (b, k) ↦
      rw (← flush_verdict-pending now e, k)
        (flush_loop_ended can_open now id e rest k ∙ frames-flush_loop can_open now rest)
]

module _ (can_open : String → Bool) (now : ℕ) where
  -- What is written of an entry that pollFlush ends is among what pollFlush writes.
  pub mem-flush_loop :
      (w : FileWrite) (m : List (ℕ × FrameEntry)) (k : ℕ) (e : FrameEntry) (b : Bool)
      → find k m ≡ some e
      → flush_verdict e now ≡ some b
      → Mem w (write_entry can_open e b)
      → Mem w (flush_loop can_open now m).writes
  mem-flush_loop w [] k e b f d h = unfold find in cc
  mem-flush_loop w ((j, x) ∷ rest) k e b f d h = elim (find-cases k j x rest e f) [
    | inl xe ↦
        rw (flush_writes_ended can_open now j x rest (ap (λ y. flush_verdict y now) xe ∙ d), xe)
          (mem-append_left _ h)
    | inr later ↦ elim (Option-cases (flush_verdict x now)) [
      | inl kept ↦
          rw (flush_writes_kept can_open now j x rest kept) (mem-flush_loop w rest k e b later d h)
      | inr (b', ended) ↦
          rw (flush_writes_ended can_open now j x rest ended)
            (mem-append_right (write_entry can_open x b') (mem-flush_loop w rest k e b later d h))
    ]
  ]

-- After pollFlush of a valid manager exactly the frames that are pending are left, each with its
-- entry as it was.
pub find-poll_flush :
    (can_open : String → Bool) (m : FrameReassemblerManager) (now k : ℕ)
    → IsValid m
    → find k (poll_flush can_open m now).0.frames ≡ if_kept (is_pending now) (find k m.frames)
unfolding poll_flush
find-poll_flush can_open m now k v =
    ap (find k) (frames-flush_loop can_open now m.frames)
    ∙ find-retain (is_pending now) k 0 m.frames v.sorted

module _ (can_open : String → Bool) where
  mem-write_entry :
      (e : FrameEntry)
      → 16 ≤ e.reassembler.frame_size
      → can_open "received_partial_frame.bin" ≡ true
      → Mem
          (record {
            name = "received_partial_frame.bin";
            bytes = take e.reassembler.frame_size e.reassembler.frame_buffer;
          })
          (write_entry can_open e true)
  unfolding write_entry write_frame_to_file write_frame write_file
  mem-write_entry e long opens = rw (le→ltb e.reassembler.frame_size 16 long, opens) mem-cons_self

  mem-flush_entries_later :
      (w : FileWrite) (j : ℕ) (x : FrameEntry) (rest : List (ℕ × FrameEntry))
      → Mem w (flush_entries can_open rest)
      → Mem w (flush_entries can_open ((j, x) ∷ rest))
  unfolding flush_entries
  mem-flush_entries_later w j x rest h = mem-append_right _ h

  mem-flush_entries_first :
      (w : FileWrite) (j : ℕ) (x : FrameEntry) (rest : List (ℕ × FrameEntry))
      → 0 < x.reassembler.received_packets_count
      → Mem w (write_entry can_open x true)
      → Mem w (flush_entries can_open ((j, x) ∷ rest))
  unfolding flush_entries Reassembler.has_any_packet
  mem-flush_entries_first w j x rest p h =
      rw (lt→ltb 0 x.reassembler.received_packets_count p) (mem-append_left _ h)

  pub mem-flush_entries :
      (w : FileWrite) (m : List (ℕ × FrameEntry)) (k : ℕ) (e : FrameEntry)
      → find k m ≡ some e
      → 0 < e.reassembler.received_packets_count
      → Mem w (write_entry can_open e true)
      → Mem w (flush_entries can_open m)
  mem-flush_entries w [] k e f p h = unfold find in cc
  mem-flush_entries w ((j, x) ∷ rest) k e f p h = elim (find-cases k j x rest e f) [
    | inl xe ↦ mem-flush_entries_first w j x rest (rw xe p) (rw xe h)
    | inr later ↦ mem-flush_entries_later w j x rest (mem-flush_entries w rest k e later p h)
  ]

-- flushAll leaves no frame. Each that has a packet, and enough bytes for a header, is written to
-- the file of a partial frame, where that can be opened, also when no packet of it is missing.
pub flush_all_lem :
    (can_open : String → Bool) (m : FrameReassemblerManager) (k : ℕ) (e : FrameEntry)
    → find k m.frames ≡ some e
    → 0 < e.reassembler.received_packets_count
    → 16 ≤ e.reassembler.frame_size
    → can_open "received_partial_frame.bin" ≡ true
    → ((flush_all can_open m).0.frames ≡ [])
      × Mem
          (record {
            name = "received_partial_frame.bin";
            bytes = take e.reassembler.frame_size e.reassembler.frame_buffer;
          })
          (flush_all can_open m).1
unfolding flush_all
flush_all_lem can_open m k e f some_packet long opens = (
  refl,
  mem-flush_entries can_open _ m.frames k e f some_packet (mem-write_entry can_open e long opens),
)
