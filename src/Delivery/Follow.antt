-- ===== src/Delivery/Follow.antt =====
-- One frame's packets on their way through the manager, whatever other packets come in between.
use mathlib.Core.Option
use hv_frame_test.Base.{
  ℕ, ◌<◌, ◌≡◌, refl, ◌∙◌, sym, ap, ap₂, subst, true, false, Option, none, some, List, [], ◌∷◌, All,
  arith, length, ◌==◌, ==_iff, Bool-cases, inl, inr, if◌then◌else◌,
}
use hv_frame_test.Base.SortedMap.{if_kept}
use hv_frame_test.Protocol.{RxPacket}
use hv_frame_test.Reassembler
use hv_frame_test.Reassembler.{FrameReassemblerV2, is_frame_complete}
use hv_frame_test.Reassembler.Sequence.{push_all}
use hv_frame_test.Manager.State.{FrameEntry, init, new_entry, receive}
use hv_frame_test.Manager.Ending.{is_waiting}
use hv_frame_test.Manager.Flushing.{is_pending}
use hv_frame_test.Manager.Run.{Call, pushes, polls_timers, forces, polls_flush, flushes}
use hv_frame_test.Manager.Apart.{follow, follow_all}

-- The packets of frame `k`, in the order in which they come.
unfoldable pub packets_for : ℕ → List Call → List RxPacket
packets_for k [] = []
packets_for k (pushes x drops now ∷ cs) =
    let rest = packets_for k cs in if x.hdr.frame_id == k then x ∷ rest else rest
packets_for k (polls_timers drops now ∷ cs) = packets_for k cs
packets_for k (forces drops ∷ cs) = packets_for k cs
packets_for k (polls_flush now ∷ cs) = packets_for k cs
packets_for k (flushes ∷ cs) = packets_for k cs

packets_for-own :
    (k : ℕ) (x : RxPacket) (drops now : ℕ) (cs : List Call)
    → (x.hdr.frame_id == k) ≡ true
    → packets_for k (pushes x drops now ∷ cs) ≡ x ∷ packets_for k cs
unfolding packets_for
packets_for-own k x drops now cs own =
    ap (λ b. if b then x ∷ packets_for k cs else packets_for k cs) own

packets_for-other :
    (k : ℕ) (x : RxPacket) (drops now : ℕ) (cs : List Call)
    → (x.hdr.frame_id == k) ≡ false
    → packets_for k (pushes x drops now ∷ cs) ≡ packets_for k cs
unfolding packets_for
packets_for-other k x drops now cs other =
    ap (λ b. if b then x ∷ packets_for k cs else packets_for k cs) other

-- The call does not end the frame, of which the entry is given.
abbrev Keeps : Option FrameEntry → Call → Type 0
Keeps e (pushes x drops now) = Unit
Keeps e (polls_timers drops now) = if_kept (is_waiting now) e ≡ e
Keeps e (forces drops) = ⊥
Keeps e (polls_flush now) = if_kept (is_pending now) e ≡ e
Keeps e flushes = ⊥

module _ (max_frame_size payload_stride k : ℕ) where
  -- No call ends frame `k` on the way.
  abbrev pub Undisturbed : Option FrameEntry → List Call → Type 0
  Undisturbed e [] = Unit
  Undisturbed e (c ∷ cs) = Keeps e c × Undisturbed (follow max_frame_size payload_stride k e c) cs

  -- The entry holds what a reassembler holds that is given the frame's packets.
  unfoldable pub Follows : Option FrameEntry → FrameReassemblerV2 → List Call → Type 0
  Follows e r cs =
      (e' : FrameEntry) × (follow_all max_frame_size payload_stride k e cs ≡ some e')
      × (e'.reassembler ≡ push_all r (packets_for k cs))

  own_packet :
      (e : Option FrameEntry) (e' : FrameEntry) (r : FrameReassemblerV2) (x : RxPacket)
      (drops now : ℕ) (cs : List Call)
      → (x.hdr.frame_id == k) ≡ true
      → follow max_frame_size payload_stride k e (pushes x drops now) ≡ some e'
      → e'.reassembler ≡ Reassembler.push_packet r x.hdr x.payload x.gap_before
      → Follows (some e') e'.reassembler cs
      → Follows e r (pushes x drops now ∷ cs)
  unfolding Follows follow_all push_all
  own_packet e e' r x drops now cs own s q (e'', f, g) = (
    e'',
    ap (λ o. follow_all max_frame_size payload_stride k o cs) s ∙ f,
    g
        ∙ ap (λ t. push_all t (packets_for k cs)) q
        ∙ ap (push_all r) (sym (packets_for-own k x drops now cs own)),
  )

  -- Another call that leaves the entry as it is.
  passed :
      (e : Option FrameEntry) (r : FrameReassemblerV2) (c : Call) (cs : List Call)
      → follow max_frame_size payload_stride k e c ≡ e
      → packets_for k (c ∷ cs) ≡ packets_for k cs
      → Follows e r cs
      → Follows e r (c ∷ cs)
  unfolding Follows follow_all
  passed e r c cs s q (e'', f, g) = (
    e'',
    ap (λ o. follow_all max_frame_size payload_stride k o cs) s ∙ f,
    g ∙ ap (push_all r) (sym q),
  )

  follow-own :
      (e : Option FrameEntry) (x : RxPacket) (drops now : ℕ)
      → (x.hdr.frame_id == k) ≡ true
      → follow max_frame_size payload_stride k e (pushes x drops now)
        ≡ some (
            receive x now
              (Option.get_or e (new_entry (init max_frame_size payload_stride) x.hdr drops now)))
  follow-own e x drops now own = rw own refl

  follow-other :
      (e : Option FrameEntry) (x : RxPacket) (drops now : ℕ)
      → (x.hdr.frame_id == k) ≡ false
      → follow max_frame_size payload_stride k e (pushes x drops now) ≡ e
  follow-other e x drops now other = rw other refl

  follow-some :
      (e : FrameEntry) (cs : List Call)
      → Undisturbed (some e) cs
      → Follows (some e) e.reassembler cs
  unfolding receive
  follow-some e [] u = unfold Follows follow_all packets_for push_all in (e, refl, refl)
  follow-some e (pushes x drops now ∷ cs) u = elim (Bool-cases (x.hdr.frame_id == k)) [
    | inl own ↦
        let s = follow-own (some e) x drops now own in
        own_packet (some e) (receive x now e) e.reassembler x drops now cs own s refl
          (follow-some (receive x now e) cs (subst (λ o. Undisturbed o cs) s u.1))
    | inr other ↦
        let s = follow-other (some e) x drops now other in
        passed (some e) e.reassembler (pushes x drops now) cs s
          (packets_for-other k x drops now cs other)
          (follow-some e cs (subst (λ o. Undisturbed o cs) s u.1))
  ]
  follow-some e (polls_timers drops now ∷ cs) u =
      passed (some e) e.reassembler (polls_timers drops now) cs u.0 (unfold packets_for in refl)
        (follow-some e cs (subst (λ o. Undisturbed o cs) u.0 u.1))
  follow-some e (forces drops ∷ cs) u = absurd u.0
  follow-some e (polls_flush now ∷ cs) u =
      passed (some e) e.reassembler (polls_flush now) cs u.0 (unfold packets_for in refl)
        (follow-some e cs (subst (λ o. Undisturbed o cs) u.0 u.1))
  follow-some e (flushes ∷ cs) u = absurd u.0

  -- The reassembler that the frame's first packet finds.
  abbrev first_reassembler : ℕ → FrameReassemblerV2
  first_reassembler count =
      Reassembler.start_new_frame (Reassembler.init max_frame_size payload_stride) k count

  new_entry-reassembler :
      (x : RxPacket) (drops now count : ℕ)
      → (x.hdr.frame_id == k) ≡ true
      → x.hdr.packet_count ≡ count
      → (new_entry (init max_frame_size payload_stride) x.hdr drops now).reassembler
        ≡ first_reassembler count
  unfolding new_entry init
  new_entry-reassembler x drops now count own c =
      ap₂ (Reassembler.start_new_frame (Reassembler.init max_frame_size payload_stride))
        ((==_iff x.hdr.frame_id k).0 own) c

  pub follow-none :
      (count : ℕ) (cs : List Call)
      → All (λ x. x.hdr.packet_count ≡ count) (packets_for k cs)
      → 0 < length (packets_for k cs)
      → Undisturbed none cs
      → Follows none (first_reassembler count) cs
  follow-none count [] a some_packet u = unfold packets_for in absurd (omega arith)
  follow-none count (pushes x drops now ∷ cs) a some_packet u =
      elim (Bool-cases (x.hdr.frame_id == k)) [
        | inl own ↦
            let s = follow-own none x drops now own in
            let e =
              receive x now (new_entry (init max_frame_size payload_stride) x.hdr drops now) in
            let own_count =
              (subst (All (λ x. x.hdr.packet_count ≡ count)) (packets_for-own k x drops now cs own)
                a).0 in
            own_packet none e (first_reassembler count) x drops now cs own s
              (unfold receive in
                ap (λ r. Reassembler.push_packet r x.hdr x.payload x.gap_before)
                  (new_entry-reassembler x drops now count own own_count))
              (follow-some e cs (subst (λ o. Undisturbed o cs) s u.1))
        | inr other ↦
            let s = follow-other none x drops now other in
            let q = packets_for-other k x drops now cs other in
            passed none (first_reassembler count) (pushes x drops now) cs s q (
              follow-none count cs (subst (All (λ x. x.hdr.packet_count ≡ count)) q a)
                (subst (λ l. 0 < length l) q some_packet) (subst (λ o. Undisturbed o cs) s u.1))
      ]
  follow-none count (polls_timers drops now ∷ cs) a some_packet u =
      let q : packets_for k (polls_timers drops now ∷ cs) ≡ packets_for k cs =
        unfold packets_for in refl in
      passed none (first_reassembler count) (polls_timers drops now) cs u.0 q (
        follow-none count cs (subst (All (λ x. x.hdr.packet_count ≡ count)) q a)
          (subst (λ l. 0 < length l) q some_packet) (subst (λ o. Undisturbed o cs) u.0 u.1))
  follow-none count (forces drops ∷ cs) a some_packet u = absurd u.0
  follow-none count (polls_flush now ∷ cs) a some_packet u =
      let q : packets_for k (polls_flush now ∷ cs) ≡ packets_for k cs =
        unfold packets_for in refl in
      passed none (first_reassembler count) (polls_flush now) cs u.0 q (
        follow-none count cs (subst (All (λ x. x.hdr.packet_count ≡ count)) q a)
          (subst (λ l. 0 < length l) q some_packet) (subst (λ o. Undisturbed o cs) u.0 u.1))
  follow-none count (flushes ∷ cs) a some_packet u = absurd u.0
