-- ===== src/Receiver/Kept.antt =====
-- A packet in the manager, through any calls of its methods: it stays there or is written.
use Prim.Native.String.{String}
use mathlib.Core.List.{Mem, mem-append_left, mem-append_right}
use hv_frame_test.Base.{
  ℕ, ◌+◌, ◌*◌, ◌≤◌, ◌<◌, ◌≡◌, refl, ◌∙◌, sym, ap, ap₂, subst, ◌⊎◌, inl, inr, Bool, true, Option,
  none, some, List, [], ◌∷◌, All, Among, Bool-cases, Option-cases, u32_mod,
}
use hv_frame_test.Base.SortedMap.{find, if_kept}
use hv_frame_test.Protocol.{RxPacket}
use hv_frame_test.Writer.{FileWrite}
use hv_frame_test.FrameResult.{FrameState}
use hv_frame_test.Reassembler.Carry.{IsFellow, HasPlace, has_packet-received}
use hv_frame_test.Manager.State.{FrameReassemblerManager, FrameEntry}
use hv_frame_test.Manager.Timers.{
  poll_timers, force_emit_all, timer_verdict, forced_state, emit_loop, emitted_result,
}
use hv_frame_test.Manager.Flush.{poll_flush, flush_all, flush_verdict, write_entry}
use hv_frame_test.Manager.Inv.{IsValid}
use hv_frame_test.Manager.Loop.{mem-emit_loop, is_none}
use hv_frame_test.Manager.Ending.{is_waiting, timer_verdict-waiting}
use hv_frame_test.Manager.Flushing.{
  is_pending, flush_verdict-pending, mem-flush_loop, mem-flush_entries,
}
use hv_frame_test.Manager.Run.{
  Call, pushes, polls_timers, forces, polls_flush, flushes, CallFits, step, step-IsValid, run,
  pushed_in,
}
use hv_frame_test.Manager.Apart.{follow, find-step, step-has_handler, step-dimensions}
use hv_frame_test.Manager.Track.{
  Tracks, TracksIf, HasIf, IsFellowCall, follow-TracksIf, follow_puts, follow_keeps,
}
use hv_frame_test.Receiver.Worker.{on_frame_done, is_partial_state}
use hv_frame_test.Receiver.Outputs.{
  written_by, written_in, written, written-on_frame_done, IsIn, mem-frame_file, frame_file-IsIn,
}

module _ (max_frame_size payload_stride : ℕ) where
  -- The manager is valid, has a handler and these dimensions.
  pub record Ready (m : FrameReassemblerManager) : Type 0 where
    pub valid : IsValid m
    pub on : m.has_handler ≡ true
    pub own_max : m.max_frame_size ≡ max_frame_size
    pub own_stride : m.payload_stride ≡ payload_stride

  step-Ready :
      (can_open : String → Bool) (m : FrameReassemblerManager) (c : Call)
      → CallFits c
      → Ready m
      → Ready (step can_open m c)
  step-Ready can_open m c fits r = record {
    valid = step-IsValid can_open m c fits r.valid;
    on = step-has_handler can_open m c ∙ r.on;
    own_max = (step-dimensions can_open m c).0 ∙ r.own_max;
    own_stride = (step-dimensions can_open m c).1 ∙ r.own_stride;
  }

module _ (can_open : String → Bool) (opens : (name : String) → can_open name ≡ true)
    (max_frame_size payload_stride : ℕ) (x : RxPacket)
    (long : 16 ≤ x.hdr.packet_id * payload_stride + x.hdr.payload_size)
    (fits : payload_stride < u32_mod) (self : IsFellow payload_stride x x) where
  -- The packet is in one of the files.
  abbrev pub Saved : List FileWrite → Type 0
  Saved ws = (f : FileWrite) × Mem f ws × IsIn payload_stride x f

  module _ (m : FrameReassemblerManager) (e : FrameEntry)
      (t : Tracks max_frame_size payload_stride x e)
      (h : HasIf max_frame_size payload_stride x (some e))
      (found : find x.hdr.frame_id m.frames ≡ some e) where
    entry-Saved :
        (ws : List FileWrite) (b : Bool)
        → ((f : FileWrite) → Mem f (write_entry can_open e b) → Mem f ws)
        → Saved ws
    unfolding write_entry
    entry-Saved ws b into = (
      _,
      into _ (mem-frame_file can_open opens max_frame_size payload_stride x long e t h b),
      frame_file-IsIn can_open opens max_frame_size payload_stride x long e t h b,
    )

    result-Saved :
        (verdict : FrameEntry → Option FrameState) (drops : ℕ) (st : FrameState)
        → verdict e ≡ some st
        → Saved (on_frame_done can_open (emit_loop verdict true drops m.stats m.frames).results)
    unfolding written emitted_result write_entry
    result-Saved verdict drops st ended = entry-Saved _ (is_partial_state st) (λ f w.
        written-on_frame_done can_open f (emitted_result e st drops) _
          (mem-emit_loop verdict drops m.stats m.frames x.hdr.frame_id e st found ended) w)

    step_polls :
        (drops now : ℕ)
        → m.has_handler ≡ true
        → HasIf max_frame_size payload_stride x (if_kept (is_waiting now) (some e))
          ⊎ Saved (written_by can_open m (polls_timers drops now))
    unfolding poll_timers
    step_polls drops now on = elim (Bool-cases (is_waiting now e)) [
      | inl q ↦ inl (rw q h)
      | inr q ↦ elim (Option-cases (timer_verdict e now)) [
        | inl k ↦ absurd (cc (timer_verdict-waiting now e, ap is_none k))
        | inr (st, k) ↦ inr (rw on (result-Saved (λ w. timer_verdict w now) drops st k))
      ]
    ]

    step_forces : (drops : ℕ) → m.has_handler ≡ true → Saved (written_by can_open m (forces drops))
    unfolding force_emit_all
    step_forces drops on =
        rw on (result-Saved (λ w. some (forced_state w)) drops (forced_state e) refl)

    step_polls_flush :
        (now : ℕ)
        → HasIf max_frame_size payload_stride x (if_kept (is_pending now) (some e))
          ⊎ Saved (written_by can_open m (polls_flush now))
    unfolding poll_flush
    step_polls_flush now = elim (Bool-cases (is_pending now e)) [
      | inl q ↦ inl (rw q h)
      | inr q ↦ elim (Option-cases (flush_verdict e now)) [
        | inl k ↦ absurd (cc (flush_verdict-pending now e, ap is_none k))
        | inr (b, k) ↦ inr (
            entry-Saved _ b
              (λ f w. mem-flush_loop can_open now f m.frames x.hdr.frame_id e b found k w))
      ]
    ]

    step_flushes : Saved (written_by can_open m flushes)
    unfolding flush_all
    step_flushes = entry-Saved _ true (λ f w.
        mem-flush_entries can_open f m.frames x.hdr.frame_id e found
          (has_packet-received e.reassembler x.hdr.packet_id t.valid.valid h) w)

  -- What a call does to the frame of the packet.
  find_after :
      (m : FrameReassemblerManager) (c : Call) (o : Option FrameEntry)
      → Ready max_frame_size payload_stride m
      → find x.hdr.frame_id m.frames ≡ o
      → find x.hdr.frame_id (step can_open m c).frames
        ≡ follow max_frame_size payload_stride x.hdr.frame_id o c
  find_after m c o r found =
      find-step can_open m x.hdr.frame_id c r.valid
      ∙ ap₂ (λ a b. follow a b x.hdr.frame_id (find x.hdr.frame_id m.frames) c) r.own_max
          r.own_stride
      ∙ ap (λ o'. follow max_frame_size payload_stride x.hdr.frame_id o' c) found

  call_keeps :
      (m : FrameReassemblerManager) (c : Call) (e : FrameEntry)
      → Ready max_frame_size payload_stride m
      → IsFellowCall max_frame_size payload_stride x c
      → Tracks max_frame_size payload_stride x e
      → HasIf max_frame_size payload_stride x (some e)
      → find x.hdr.frame_id m.frames ≡ some e
      → HasIf max_frame_size payload_stride x
          (follow max_frame_size payload_stride x.hdr.frame_id (some e) c)
        ⊎ Saved (written_by can_open m c)
  call_keeps m (pushes y drops now) e r f t h found =
      inl (follow_keeps max_frame_size payload_stride x fits self.packet.short e y drops now f t h)
  call_keeps m (polls_timers drops now) e r f t h found = step_polls m e t h found drops now r.on
  call_keeps m (forces drops) e r f t h found = inr (step_forces m e t h found drops r.on)
  call_keeps m (polls_flush now) e r f t h found = step_polls_flush m e t h found now
  call_keeps m flushes e r f t h found = inr (step_flushes m e t h found)

  later-Saved :
      (c : Call) (cs : List Call) (m : FrameReassemblerManager)
      → Saved (written_in can_open cs (step can_open m c))
      → Saved (written_in can_open (c ∷ cs) m)
  unfolding written_in
  later-Saved c cs m (f, w, i) = (f, mem-append_right (written_by can_open m c) w, i)

  now-Saved :
      (c : Call) (cs : List Call) (m : FrameReassemblerManager)
      → Saved (written_by can_open m c)
      → Saved (written_in can_open (c ∷ cs) m)
  unfolding written_in
  now-Saved c cs m (f, w, i) =
      (f, mem-append_left (written_in can_open cs (step can_open m c)) w, i)

  abbrev AllFellows : List Call → Type 0
  AllFellows cs = All (IsFellowCall max_frame_size payload_stride x) cs

  -- What became of the packet by the end of the calls.
  abbrev Fate : List Call → FrameReassemblerManager → Type 0
  Fate cs m =
      HasIf max_frame_size payload_stride x (find x.hdr.frame_id (run can_open m cs).frames)
      ⊎ Saved (written_in can_open cs m)

  later-Fate :
      (c : Call) (cs : List Call) (m : FrameReassemblerManager)
      → Fate cs (step can_open m c)
      → Fate (c ∷ cs) m
  later-Fate c cs m (inl kept) = inl (unfold run in kept)
  later-Fate c cs m (inr s) = inr (later-Saved c cs m s)

  -- A packet that is there is there at the end, or has been written.
  held-Fate :
      (cs : List Call) (m : FrameReassemblerManager) (o : Option FrameEntry)
      → Ready max_frame_size payload_stride m
      → All CallFits cs
      → AllFellows cs
      → find x.hdr.frame_id m.frames ≡ o
      → TracksIf max_frame_size payload_stride x o
      → HasIf max_frame_size payload_stride x o
      → Fate cs m
  held-Fate [] m o r a f found t h =
      inl (unfold run in subst (HasIf max_frame_size payload_stride x) (sym found) h)
  held-Fate (c ∷ cs) m none r a f found t h = absurd h
  held-Fate (c ∷ cs) m (some e) r a f found t h = elim (call_keeps m c e r f.0 t h found) [
    | inl h' ↦ later-Fate c cs m (
        held-Fate cs (step can_open m c) _
          (step-Ready max_frame_size payload_stride can_open m c a.0 r) a.1 f.1
          (find_after m c (some e) r found)
          (follow-TracksIf max_frame_size payload_stride x fits self.packet.short (some e) c f.0 t)
          h')
    | inr s ↦ inr (now-Saved c cs m s)
  ]

  -- The first of the calls pushes the packet, or a later one does.
  pushes_now :
      (c : Call) (cs : List Call) (o : Option FrameEntry)
      → HasPlace max_frame_size payload_stride x
      → TracksIf max_frame_size payload_stride x o
      → Among x (pushed_in (c ∷ cs))
      → HasIf max_frame_size payload_stride x
          (follow max_frame_size payload_stride x.hdr.frame_id o c)
        ⊎ Among x (pushed_in cs)
  pushes_now (pushes y drops now) cs o place t (inl e) = inl (
      subst
        (λ z.
          HasIf max_frame_size payload_stride x
            (follow max_frame_size payload_stride x.hdr.frame_id o (pushes z drops now)))
        (sym e)
        (follow_puts max_frame_size payload_stride x fits self.packet.short o drops now place self
          t))
  pushes_now (pushes y drops now) cs o place t (inr later) = inr later
  pushes_now (polls_timers drops now) cs o place t later = inr later
  pushes_now (forces drops) cs o place t later = inr later
  pushes_now (polls_flush now) cs o place t later = inr later
  pushes_now flushes cs o place t later = inr later

  pub pushed-Fate :
      (cs : List Call) (m : FrameReassemblerManager) (o : Option FrameEntry)
      → HasPlace max_frame_size payload_stride x
      → Ready max_frame_size payload_stride m
      → All CallFits cs
      → AllFellows cs
      → Among x (pushed_in cs)
      → find x.hdr.frame_id m.frames ≡ o
      → TracksIf max_frame_size payload_stride x o
      → Fate cs m
  pushed-Fate [] m o place r a f among found t = absurd among
  pushed-Fate (c ∷ cs) m o place r a f among found t =
      let found' = find_after m c o r found in
      let r' = step-Ready max_frame_size payload_stride can_open m c a.0 r in
      let t' = follow-TracksIf max_frame_size payload_stride x fits self.packet.short o c f.0 t in
      later-Fate c cs m (elim (pushes_now c cs o place t among) [
        | inl h ↦ held-Fate cs (step can_open m c) _ r' a.1 f.1 found' t' h
        | inr later ↦ pushed-Fate cs (step can_open m c) _ place r' a.1 f.1 later found' t'
      ])
