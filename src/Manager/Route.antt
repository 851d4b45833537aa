-- ===== src/Manager/Route.antt =====
-- Which frame a packet reaches.
use mathlib.Core.Option
use hv_frame_test.Base.{ℕ, ◌≡◌, some, arith, ◌==◌, if◌then◌else◌, Option-cases, inl, inr, ==_iff}
use hv_frame_test.Base.SortedMap.{find, find-emplace, find-adjust}
use hv_frame_test.Protocol.{RxPacket}
use hv_frame_test.Manager.State.{
  FrameReassemblerManager, FrameEntry, push_packet, with_entry, receive, new_entry,
}
use hv_frame_test.Manager.Inv.{IsValid, with_entry_new, with_entry_old}

-- The entry of the packet's frame, a fresh one for a frame that is not there yet.
abbrev entry_of : FrameReassemblerManager → RxPacket → ℕ → ℕ → FrameEntry
entry_of m x drops now = Option.get_or (find x.hdr.frame_id m.frames) (new_entry m x.hdr drops now)

find-with_entry :
    (m : FrameReassemblerManager) (x : RxPacket) (drops now i : ℕ)
    → IsValid m
    → find i (with_entry m x drops now)
      ≡ (if x.hdr.frame_id == i then some (entry_of m x drops now) else find i m.frames)
find-with_entry m x drops now i v = elim (Option-cases (find x.hdr.frame_id m.frames)) [
  | inl e ↦
      rw (with_entry_new m v x drops now e, e)
        (find-emplace x.hdr.frame_id i (new_entry m x.hdr drops now) 0 m.frames v.sorted e)
  | inr (w, e) ↦ rw (with_entry_old m v x drops now e) (ground (arith, ==_iff x.hdr.frame_id i))
]

-- A packet reaches the entry of its own frame in a valid manager, which it starts if need be, and
-- no other entry.
pub find-push_packet :
    (m : FrameReassemblerManager) (x : RxPacket) (drops now i : ℕ)
    → IsValid m
    → find i (push_packet m x drops now).frames ≡ (
        if x.hdr.frame_id == i
        then some (receive x now (entry_of m x drops now))
        else find i m.frames)
unfolding push_packet
find-push_packet m x drops now i v = ground (
  arith,
  find-adjust x.hdr.frame_id i (receive x now) (with_entry m x drops now),
  find-with_entry m x drops now i v,
)
