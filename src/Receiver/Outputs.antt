-- ===== src/Receiver/Outputs.antt =====
-- What the calls of the manager's methods write, in the methods or by onFrameDone.
use Prim.Native.String.{String}
use mathlib.Core.List.{
  Mem, mem-append_left, mem-append_right, mem-cons_self, Mem-prop, eq-or-mem_of_mem-cons,
  not-mem-nil,
}
use mathlib.Core.Logic.{∥∥₁_elim}
use hv_frame_test.Base.{
  ℕ, ◌+◌, ◌*◌, ◌≤◌, ◌<◌, ◌≡◌, refl, ◌∙◌, sym, ap, subst, ◌⊎◌, inl, inr, Bool, true, false, some,
  List, [], ◌∷◌, ◌++◌, arith, length, get_or, get_or-take, length-take, take, le→ltb,
}
use hv_frame_test.Protocol.{RxPacket}
use hv_frame_test.FrameResult.{FrameResult}
use hv_frame_test.Writer.{FileWrite, file_name, write_file, write_frame, write_frame_to_file}
use hv_frame_test.Reassembler.Carry.{Carries}
use hv_frame_test.Manager.State.{FrameReassemblerManager, FrameEntry}
use hv_frame_test.Manager.Timers.{poll_timers, force_emit_all}
use hv_frame_test.Manager.Flush.{poll_flush, flush_all}
use hv_frame_test.Manager.Run.{Call, pushes, polls_timers, forces, polls_flush, flushes, step}
use hv_frame_test.Manager.Track.{Tracks, HasIf}
use hv_frame_test.Receiver.Worker.{on_frame_done, is_partial_state}

module _ (can_open : String → Bool) where
  -- The writes of one call.
  abbrev pub written_by : FrameReassemblerManager → Call → List FileWrite
  written_by m (pushes x drops now) = []
  written_by m (polls_timers drops now) = on_frame_done can_open (poll_timers m drops now).1
  written_by m (forces drops) = on_frame_done can_open (force_emit_all m drops).1
  written_by m (polls_flush now) = (poll_flush can_open m now).1
  written_by m flushes = (flush_all can_open m).1

  -- The writes of a sequence of calls.
  unfoldable pub written_in : List Call → FrameReassemblerManager → List FileWrite
  written_in [] m = []
  written_in (c ∷ cs) m = written_by m c ++ written_in cs (step can_open m c)

  unfoldable pub written : FrameResult → List FileWrite
  written r =
      write_frame_to_file can_open (some r.frame_data) r.frame_size (is_partial_state r.state)

  -- What is written of one result is among what is written of all.
  pub written-on_frame_done :
      (f : FileWrite) (r : FrameResult) (rs : List FrameResult)
      → Mem r rs
      → Mem f (written r)
      → Mem f (on_frame_done can_open rs)
  unfolding on_frame_done written
  written-on_frame_done f r [] m w = absurd (not-mem-nil m)
  written-on_frame_done f r (q ∷ rs) m w =
      ∥∥₁_elim (eq-or-mem_of_mem-cons m) Mem-prop (here_or_later (written-on_frame_done f r rs))
    where
      here_or_later :
          (Mem r rs → Mem f (written r) → Mem f (on_frame_done can_open rs))
          → (r ≡ q) ⊎ Mem r rs
          → Mem f (written q ++ on_frame_done can_open rs)
      here_or_later later (inl e) =
          mem-append_left (on_frame_done can_open rs) (subst (λ t. Mem f (written t)) e w)
      here_or_later later (inr n) = mem-append_right (written q) (later n w)

-- A file of a whole frame's bytes, with the packet's at their place.
pub record IsIn (payload_stride : ℕ) (x : RxPacket) (f : FileWrite) : Type 0 where
  pub named : (f.name ≡ "received_full_frame.bin") ⊎ (f.name ≡ "received_partial_frame.bin")
  pub bytes :
      (i : ℕ)
      → i < x.hdr.payload_size
      → get_or f.bytes (x.hdr.packet_id * payload_stride + i) 0 ≡ get_or x.payload i 0
  pub long : x.hdr.packet_id * payload_stride + x.hdr.payload_size ≤ length f.bytes

frame_file_name :
    (is_partial : Bool)
    → (file_name is_partial "_frame.bin" ≡ "received_full_frame.bin")
      ⊎ (file_name is_partial "_frame.bin" ≡ "received_partial_frame.bin")
frame_file_name true = inr refl
frame_file_name false = inl refl

-- The first of an entry's three files.
abbrev frame_file : FrameEntry → Bool → FileWrite
frame_file e is_partial = record {
  name = file_name is_partial "_frame.bin";
  bytes = take e.reassembler.frame_size e.reassembler.frame_buffer;
}

module _ (can_open : String → Bool) (opens : (name : String) → can_open name ≡ true)
    (max_frame_size payload_stride : ℕ) (x : RxPacket)
    (long : 16 ≤ x.hdr.packet_id * payload_stride + x.hdr.payload_size) (e : FrameEntry)
    (t : Tracks max_frame_size payload_stride x e)
    (h : HasIf max_frame_size payload_stride x (some e)) where
  carried : Carries x e.reassembler
  carried = t.agrees h

  place : x.hdr.packet_id * e.reassembler.payload_stride ≡ x.hdr.packet_id * payload_stride
  place = ap (λ s. x.hdr.packet_id * s) t.valid.own_stride

  pub mem-frame_file :
      (is_partial : Bool)
      → Mem (frame_file e is_partial) (
          write_frame_to_file can_open
            (some e.reassembler.frame_buffer)
            e.reassembler.frame_size
            is_partial)
  unfolding write_frame_to_file write_frame write_file
  mem-frame_file is_partial =
      rw
        (
          le→ltb e.reassembler.frame_size 16 (omega (arith, carried.covered, place)),
          opens (file_name is_partial "_frame.bin"),
        )
        mem-cons_self

  pub frame_file-IsIn : (is_partial : Bool) → IsIn payload_stride x (frame_file e is_partial)
  frame_file-IsIn is_partial = record {
    named = frame_file_name is_partial;
    bytes = λ i lt.
        get_or-take e.reassembler.frame_size e.reassembler.frame_buffer
          (x.hdr.packet_id * payload_stride + i) 0 (omega (arith, carried.covered, place))
        ∙ ap (λ n. get_or e.reassembler.frame_buffer (n + i) 0) (sym place)
        ∙ carried.bytes i lt;
    long = omega (
      arith,
      carried.covered,
      place,
      t.valid.valid.buffer,
      t.valid.valid.within,
      length-take e.reassembler.frame_size e.reassembler.frame_buffer,
    );
  }
