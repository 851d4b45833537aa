-- ===== src/System/Kept.antt =====
-- What becomes of the packets that the worker hands to its manager.
use Prim.Native.String.{String}
use mathlib.Core.List.{Mem}
use hv_frame_test.Base.{
  ℕ, ◌+◌, ◌*◌, ◌≤◌, ◌≡◌, refl, ◌∙◌, sym, ap, subst, ◌⊎◌, inl, inr, Bool, true, Option, none, List,
  [], ◌∷◌, All, length, Among, Among-append, arith,
}
use hv_frame_test.Base.SortedMap.{find}
use hv_frame_test.Protocol.{RxPacket}
use hv_frame_test.Writer.{FileWrite}
use hv_frame_test.Reassembler.Carry.{IsFellow, HasPlace}
use hv_frame_test.Manager.State.{FrameEntry, init}
use hv_frame_test.Manager.Run.{Call, pushes, polls_timers, forces, polls_flush, flushes, pushed_in}
use hv_frame_test.Manager.Track.{IsFellowCall, HasIf}
use hv_frame_test.Receiver.Worker.{start, max_frame_size, payload_stride}
use hv_frame_test.Receiver.Outputs.{IsIn}
use hv_frame_test.Receiver.Kept.{Ready, pushed-Fate}
use hv_frame_test.System.State.{System, returned}
use hv_frame_test.System.Steps.{Event, Reach}
use hv_frame_test.System.Channel.{accepted_in, fed_in}
use hv_frame_test.System.Calls.{Reach-run}
use hv_frame_test.System.End.{returned_lem}
use hv_frame_test.System.Last.{left_few}

-- Of the frame of `x`, the worker hands over only packets of that frame.
abbrev pub OwnFellows : RxPacket → List RxPacket → Type 0
OwnFellows x ys = All (λ y. y.hdr.frame_id ≡ x.hdr.frame_id → IsFellow payload_stride x y) ys

fellow_calls :
    (x : RxPacket) (cs : List Call)
    → OwnFellows x (pushed_in cs)
    → All (IsFellowCall max_frame_size payload_stride x) cs
fellow_calls x [] a = tt
fellow_calls x (pushes y drops now ∷ cs) a = (a.0, fellow_calls x cs a.1)
fellow_calls x (polls_timers drops now ∷ cs) a = (tt, fellow_calls x cs a)
fellow_calls x (forces drops ∷ cs) a = (tt, fellow_calls x cs a)
fellow_calls x (polls_flush now ∷ cs) a = (tt, fellow_calls x cs a)
fellow_calls x (flushes ∷ cs) a = (tt, fellow_calls x cs a)

own-IsFellow :
    (x : RxPacket) (ys : List RxPacket) → Among x ys → OwnFellows x ys → IsFellow payload_stride x x
own-IsFellow x [] among a = absurd among
own-IsFellow x (y ∷ ys) (inl e) a =
    subst (λ z. IsFellow payload_stride x z) e (a.0 (ap (λ z. z.hdr.frame_id) e))
own-IsFellow x (y ∷ ys) (inr later) a = own-IsFellow x ys later a.1

find_nothing : (k : ℕ) → ◌≡◌ {A = Option FrameEntry} (find k []) none
unfolding find
find_nothing k = refl

start-Ready : Ready max_frame_size payload_stride (start 0).manager
unfolding start init
start-Ready = record {
  valid = record { stride_fits = omega arith; sorted = tt; entries = tt };
  on = refl;
  own_max = refl;
  own_stride = refl;
}

-- A packet that the worker has handed over.
fed_packet_saved :
    (can_open : String → Bool) {trace : List Event} {s : System} (x : RxPacket)
    → Reach can_open trace s
    → s.main ≡ returned
    → Among x (fed_in trace)
    → OwnFellows x (fed_in trace)
    → HasPlace max_frame_size payload_stride x
    → 16 ≤ x.hdr.packet_id * payload_stride + x.hdr.payload_size
    → ((name : String) → can_open name ≡ true)
    → (f : FileWrite) × Mem f s.writes × IsIn payload_stride x f
fed_packet_saved can_open {trace} {s} x r end among fellows place long opens =
    let (cs, made, pushed, wrote, fit) = Reach-run can_open r in
    let self = own-IsFellow x (fed_in trace) among fellows in
    elim (pushed-Fate can_open opens max_frame_size payload_stride x long (omega arith) self cs
      (start 0).manager none place start-Ready fit
      (fellow_calls x cs (subst (OwnFellows x) (sym pushed) fellows))
      (subst (Among x) (sym pushed) among) (unfold start init find in refl) tt) [
        | inl h ↦
            let (_, _, _, gone, _) = returned_lem can_open r end in
            absurd (
              subst (HasIf max_frame_size payload_stride x)
                (ap (λ m. find x.hdr.frame_id m.frames) (sym made)
                  ∙ ap (find x.hdr.frame_id) gone
                  ∙ find_nothing x.hdr.frame_id)
                h)
        | inr (f, w, i) ↦ (f, subst (Mem f) (sym wrote) w, i)
      ]

only : (x : RxPacket) (q : List RxPacket) → length q ≤ 1 → Among x q → q ≡ x ∷ []
only x [] few a = absurd a
only x (y ∷ []) few (inl e) = ap (λ z. z ∷ []) e
only x (y ∷ []) few (inr later) = absurd later
only x (y ∷ z ∷ q) few a = absurd (omega arith)

-- No packet vanishes. When main has returned, a packet that the queue took is the one packet that
-- is left in the queue, or its bytes stand at their place in a full or a partial frame's file that
-- has been written. It must have a place in its frame, with a number below its packet count and
-- room in the buffer, and reach up to the frame's sixteenth byte at least; every packet of its
-- frame number that the worker hands over must be no longer than 1400 bytes, have the same packet
-- count and, under the same packet number, the same payload bytes; and every file can be opened. A
-- file may be written over later.
pub accepted_packet_lem :
    (can_open : String → Bool) {trace : List Event} {s : System} (x : RxPacket)
    → Reach can_open trace s
    → s.main ≡ returned
    → Among x (accepted_in trace)
    → OwnFellows x (fed_in trace)
    → HasPlace max_frame_size payload_stride x
    → 16 ≤ x.hdr.packet_id * payload_stride + x.hdr.payload_size
    → ((name : String) → can_open name ≡ true)
    → (s.queue.q ≡ x ∷ []) ⊎ ((f : FileWrite) × Mem f s.writes × IsIn payload_stride x f)
accepted_packet_lem can_open {trace} {s} x r end among fellows place long opens =
    let (_, _, _, _, all) = returned_lem can_open r end in
    elim (Among-append x (fed_in trace) s.queue.q (subst (Among x) (sym all) among)) [
      | inl handed ↦ inr (fed_packet_saved can_open x r end handed fellows place long opens)
      | inr left ↦ inl (only x s.queue.q (left_few can_open r end) left)
    ]
