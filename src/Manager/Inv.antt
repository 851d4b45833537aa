-- ===== src/Manager/Inv.antt =====
-- The invariant of FrameReassemblerManager over its frames.
use hv_frame_test.Base.{
  ℕ, ◌<◌, ◌≡◌, refl, ◌∙◌, Bool, none, some, List, arith, u32_mod, Option-cases, inl, inr,
  length-replicate,
}
use hv_frame_test.Base.SortedMap.{
  find, emplace, Above, Each, retain, emplace-Above, adjust-Above, emplace-Each, adjust-Each,
  retain-Above, retain-Each,
}
use hv_frame_test.Protocol.{UdpPacketHeader, RxPacket}
use hv_frame_test.Reassembler
use hv_frame_test.Reassembler.{FrameReassemblerV2}
use hv_frame_test.Reassembler.Inv as Single
use hv_frame_test.Reassembler.Inv.{HeaderFits}
use hv_frame_test.Manager.State.{
  FrameReassemblerManager, FrameEntry, Stats, init, push_packet, with_entry, receive, new_entry,
}

-- An entry of the map: a valid reassembler for the frame of its key, of the manager's dimensions.
pub record EntryValid (max_frame_size payload_stride key : ℕ) (e : FrameEntry) : Type 0 where
  pub valid : Single.IsValid e.reassembler
  pub own_id : e.reassembler.current_frame_id ≡ key
  pub own_max : e.reassembler.max_frame_size ≡ max_frame_size
  pub own_stride : e.reassembler.payload_stride ≡ payload_stride

pub record IsValid (m : FrameReassemblerManager) : Type 0 where
  pub stride_fits : m.payload_stride < u32_mod
  pub sorted : Above 0 m.frames
  pub entries : Each (EntryValid m.max_frame_size m.payload_stride) m.frames

pub init-IsValid : (max stride : ℕ) → stride < u32_mod → IsValid (init max stride)
unfolding init
init-IsValid max stride h = record { stride_fits = h; sorted = tt; entries = tt }

push_packet-keeps :
    (r : FrameReassemblerV2) (x : RxPacket)
    → ((Reassembler.push_packet r x.hdr x.payload x.gap_before).current_frame_id
        ≡ r.current_frame_id)
      × ((Reassembler.push_packet r x.hdr x.payload x.gap_before).max_frame_size ≡ r.max_frame_size)
      × ((Reassembler.push_packet r x.hdr x.payload x.gap_before).payload_stride ≡ r.payload_stride)
unfolding Reassembler.push_packet Reassembler.store
push_packet-keeps r x = ground arith

module _ (m : FrameReassemblerManager) (v : IsValid m) where
  pub new_entry-EntryValid :
      (h : UdpPacketHeader) (drops now : ℕ)
      → HeaderFits h
      → EntryValid m.max_frame_size m.payload_stride h.frame_id (new_entry m h drops now)
  unfolding new_entry Reassembler.start_new_frame Reassembler.init
  new_entry-EntryValid h drops now f = record {
    valid =
        Single.start_new_frame-IsValid (Reassembler.init m.max_frame_size m.payload_stride)
          h.frame_id h.packet_count f.packet_count_fits (length-replicate m.max_frame_size 0)
          v.stride_fits;
    own_id = refl;
    own_max = refl;
    own_stride = refl;
  }

  pub receive-EntryValid :
      (x : RxPacket) (now key : ℕ) (e : FrameEntry)
      → HeaderFits x.hdr
      → EntryValid m.max_frame_size m.payload_stride key e
      → EntryValid m.max_frame_size m.payload_stride key (receive x now e)
  unfolding receive
  receive-EntryValid x now key e f w = record {
    valid = Single.push_packet-IsValid e.reassembler x.hdr x.payload x.gap_before f w.valid;
    own_id = (push_packet-keeps e.reassembler x).0 ∙ w.own_id;
    own_max = (push_packet-keeps e.reassembler x).1 ∙ w.own_max;
    own_stride = (push_packet-keeps e.reassembler x).2 ∙ w.own_stride;
  }

  pub with_entry_new :
      (x : RxPacket) (drops now : ℕ)
      → find x.hdr.frame_id m.frames ≡ none
      → with_entry m x drops now ≡ emplace x.hdr.frame_id (new_entry m x.hdr drops now) m.frames
  unfolding with_entry
  with_entry_new x drops now e = rw (e, with_entry)

  pub with_entry_old :
      (x : RxPacket) (drops now : ℕ) {w : FrameEntry}
      → find x.hdr.frame_id m.frames ≡ some w
      → with_entry m x drops now ≡ m.frames
  unfolding with_entry
  with_entry_old x drops now e = rw (e, with_entry)

  with_entry-valid :
      (x : RxPacket) (drops now : ℕ)
      → HeaderFits x.hdr
      → Above 0 (with_entry m x drops now)
        × Each (EntryValid m.max_frame_size m.payload_stride) (with_entry m x drops now)
  with_entry-valid x drops now f = elim (Option-cases (find x.hdr.frame_id m.frames)) [
    | inl e ↦ rw (with_entry_new x drops now e) (
      emplace-Above x.hdr.frame_id (new_entry m x.hdr drops now) 0 m.frames (omega arith) v.sorted,
      emplace-Each (EntryValid m.max_frame_size m.payload_stride) x.hdr.frame_id
          (new_entry m x.hdr drops now) m.frames (new_entry-EntryValid x.hdr drops now f) v.entries,
    )
    | inr (w, e) ↦ rw (with_entry_old x drops now e) (v.sorted, v.entries)
  ]

  -- Whatever packet comes, each frame's reassembler stays valid and under its own frame's number,
  -- and the keys stay sorted.
  pub push_packet-IsValid :
      (x : RxPacket) (drops now : ℕ) → HeaderFits x.hdr → IsValid (push_packet m x drops now)
  unfolding push_packet
  push_packet-IsValid x drops now f = record {
    stride_fits = v.stride_fits;
    sorted =
        adjust-Above x.hdr.frame_id (receive x now) 0 (with_entry m x drops now)
          (with_entry-valid x drops now f).0;
    entries =
        adjust-Each (EntryValid m.max_frame_size m.payload_stride) x.hdr.frame_id (receive x now)
          (with_entry m x drops now) (λ i e _. receive-EntryValid x now i e f)
          (with_entry-valid x drops now f).1;
  }

-- A method that only takes entries away keeps the invariant.
pub retain-IsValid :
    (m : FrameReassemblerManager) (keep : FrameEntry → Bool) (left : List (ℕ × FrameEntry))
    (s : Stats)
    → IsValid m
    → left ≡ retain keep m.frames
    → IsValid (record m { frames = left; stats = s })
retain-IsValid m keep left s v e = record {
  stride_fits = v.stride_fits;
  sorted = rw e (retain-Above keep 0 m.frames v.sorted);
  entries =
      rw e (retain-Each keep (EntryValid m.max_frame_size m.payload_stride) m.frames v.entries);
}
