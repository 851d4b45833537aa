-- ===== src/Manager/Track.antt =====
-- One packet in the machine of its frame.
use mathlib.Core.Option
use hv_frame_test.Base.{
  ℕ, ◌≤◌, ◌≡◌, refl, ◌∙◌, sym, subst, inl, inr, Bool, true, Option, none, some, ◌==◌, ==_iff,
  Bool-cases, arith, u32_mod, ◌<◌,
}
use hv_frame_test.Base.SortedMap.{if_kept}
use hv_frame_test.Protocol.{RxPacket}
use hv_frame_test.Reassembler
use hv_frame_test.Reassembler.{has_packet}
use hv_frame_test.Reassembler.Carry.{
  IsFellow, Agrees, HasPlace, push_rx-stays, push_rx-Agrees, push_rx-there, push_rx-count,
  start_new_frame-Agrees,
}
use hv_frame_test.Manager.State.{FrameEntry, init, new_entry, receive}
use hv_frame_test.Manager.Inv.{EntryValid, init-IsValid, new_entry-EntryValid, receive-EntryValid}
use hv_frame_test.Manager.Ending.{is_waiting}
use hv_frame_test.Manager.Flushing.{is_pending}
use hv_frame_test.Manager.Run.{Call, pushes, polls_timers, forces, polls_flush, flushes}
use hv_frame_test.Manager.Apart.{follow}

module _ (max_frame_size payload_stride : ℕ) (x : RxPacket) where
  -- An entry of the packet's frame, in which nothing stands under the packet's number but its bytes.
  pub record Tracks (e : FrameEntry) : Type 0 where
    pub valid : EntryValid max_frame_size payload_stride x.hdr.frame_id e
    pub count : e.reassembler.expected_packet_count ≡ x.hdr.packet_count
    pub agrees : Agrees x e.reassembler

  abbrev pub TracksIf : Option FrameEntry → Type 0
  TracksIf none = Unit
  TracksIf (some e) = Tracks e

  -- A packet that a call pushes for the frame of `x` is one of that frame.
  abbrev pub IsFellowCall : Call → Type 0
  IsFellowCall (pushes y drops now) = y.hdr.frame_id ≡ x.hdr.frame_id → IsFellow payload_stride x y
  IsFellowCall (polls_timers drops now) = Unit
  IsFellowCall (forces drops) = Unit
  IsFellowCall (polls_flush now) = Unit
  IsFellowCall flushes = Unit

  -- The packet is in the entry.
  abbrev pub HasIf : Option FrameEntry → Type 0
  HasIf none = ⊥
  HasIf (some e) = has_packet e.reassembler x.hdr.packet_id ≡ true

  module _ (fits : payload_stride < u32_mod) (short : x.hdr.payload_size ≤ payload_stride) where
    receive-Tracks :
        (y : RxPacket) (now : ℕ) (e : FrameEntry)
        → IsFellow payload_stride x y
        → y.hdr.frame_id ≡ x.hdr.frame_id
        → Tracks e
        → Tracks (receive y now e)
    unfolding receive init
    receive-Tracks y now e f own t =
        let stride = t.valid.own_stride in
        let f' = subst (λ s. IsFellow s x y) (sym stride) f in
        record {
          valid =
              receive-EntryValid (init max_frame_size payload_stride)
                (init-IsValid max_frame_size payload_stride fits) y now x.hdr.frame_id e
                f.packet.fits t.valid;
          count = push_rx-count e.reassembler y ∙ t.count;
          agrees = push_rx-Agrees e.reassembler x y t.valid.valid f' (omega arith) t.agrees;
        }

    new_entry-Tracks :
        (y : RxPacket) (drops now : ℕ)
        → IsFellow payload_stride x y
        → y.hdr.frame_id ≡ x.hdr.frame_id
        → Tracks (new_entry (init max_frame_size payload_stride) y.hdr drops now)
    unfolding init
    new_entry-Tracks y drops now f own = record {
      valid =
          subst
            (λ k.
              EntryValid max_frame_size payload_stride k
                (new_entry (init max_frame_size payload_stride) y.hdr drops now))
            own
            (new_entry-EntryValid (init max_frame_size payload_stride)
              (init-IsValid max_frame_size payload_stride fits) y.hdr drops now f.packet.fits);
      count = unfold new_entry Reassembler.start_new_frame in f.same_count;
      agrees = unfold new_entry in start_new_frame-Agrees _ x y.hdr.frame_id y.hdr.packet_count;
    }

    got-Tracks :
        (o : Option FrameEntry) (y : RxPacket) (drops now : ℕ)
        → IsFellow payload_stride x y
        → y.hdr.frame_id ≡ x.hdr.frame_id
        → TracksIf o
        → Tracks (Option.get_or o (new_entry (init max_frame_size payload_stride) y.hdr drops now))
    got-Tracks none y drops now f own t = new_entry-Tracks y drops now f own
    got-Tracks (some e) y drops now f own t = t

    kept-TracksIf :
        (keep : FrameEntry → Bool) (o : Option FrameEntry) → TracksIf o → TracksIf (if_kept keep o)
    kept-TracksIf keep none t = tt
    kept-TracksIf keep (some e) t = elim (Bool-cases (keep e)) [ inl q ↦ rw q t | inr q ↦ rw q tt ]

    follow-own :
        (o : Option FrameEntry) (y : RxPacket) (drops now : ℕ)
        → y.hdr.frame_id ≡ x.hdr.frame_id
        → follow max_frame_size payload_stride x.hdr.frame_id o (pushes y drops now)
          ≡ some (
              receive y now
                (Option.get_or o (new_entry (init max_frame_size payload_stride) y.hdr drops now)))
    follow-own o y drops now own = rw ((==_iff y.hdr.frame_id x.hdr.frame_id).1 own) refl

    -- Whatever call is made, nothing but the packet's bytes comes to stand under its number.
    pub follow-TracksIf :
        (o : Option FrameEntry) (c : Call)
        → IsFellowCall c
        → TracksIf o
        → TracksIf (follow max_frame_size payload_stride x.hdr.frame_id o c)
    follow-TracksIf o (pushes y drops now) f t =
        elim (Bool-cases (y.hdr.frame_id == x.hdr.frame_id)) [
          | inl q ↦
              let own = (==_iff y.hdr.frame_id x.hdr.frame_id).0 q in
              rw q (receive-Tracks y now _ (f own) own (got-Tracks o y drops now (f own) own t))
          | inr q ↦ rw q t
        ]
    follow-TracksIf o (polls_timers drops now) f t = kept-TracksIf (is_waiting now) o t
    follow-TracksIf o (forces drops) f t = tt
    follow-TracksIf o (polls_flush now) f t = kept-TracksIf (is_pending now) o t
    follow-TracksIf o flushes f t = tt

    -- The call that pushes the packet leaves it in its frame's entry.
    pub follow_puts :
        (o : Option FrameEntry) (drops now : ℕ)
        → HasPlace max_frame_size payload_stride x
        → IsFellow payload_stride x x
        → TracksIf o
        → HasIf (follow max_frame_size payload_stride x.hdr.frame_id o (pushes x drops now))
    unfolding receive
    follow_puts o drops now place f t =
        let e = Option.get_or o (new_entry (init max_frame_size payload_stride) x.hdr drops now) in
        let t' = got-Tracks o x drops now f refl t in
        let stride = t'.valid.own_stride in
        rw (follow-own o x drops now refl) (
          push_rx-there e.reassembler x x t'.valid.valid
            (subst (λ s. IsFellow s x x) (sym stride) f) refl t'.count
            (subst (λ s. HasPlace s e.reassembler.payload_stride x) (sym t'.valid.own_max)
              (subst (λ s. HasPlace max_frame_size s x) (sym stride) place)))

    -- A packet that is there stays while its frame's entry does, through any push.
    pub follow_keeps :
        (e : FrameEntry) (y : RxPacket) (drops now : ℕ)
        → IsFellowCall (pushes y drops now)
        → Tracks e
        → HasIf (some e)
        → HasIf (follow max_frame_size payload_stride x.hdr.frame_id (some e) (pushes y drops now))
    unfolding receive
    follow_keeps e y drops now f t h = elim (Bool-cases (y.hdr.frame_id == x.hdr.frame_id)) [
      | inl q ↦
          let own = (==_iff y.hdr.frame_id x.hdr.frame_id).0 q in
          rw q (
            push_rx-stays e.reassembler x y t.valid.valid
              (subst (λ s. IsFellow s x y) (sym t.valid.own_stride) (f own)) x.hdr.packet_id h)
      | inr q ↦ rw q h
    ]
