-- ===== src/Tests/Streaming.antt =====
-- Frames through the manager, and an image the whole way.
use mathlib.Core.List.{Mem}
use hv_frame_test.Base.{
  ℕ, ◌≡◌, ◌∙◌, ap, refl, true, List, [], ◌∷◌, arith, take, ==_iff, ◌++◌, if◌then◌else◌, none,
  Option, All,
}
use hv_frame_test.Base.SortedMap.{find}
use hv_frame_test.Protocol.{RxPacket}
use hv_frame_test.FrameResult.{FrameState, FrameResult}
use hv_frame_test.Manager.State.{FrameReassemblerManager, FrameEntry}
use hv_frame_test.Manager.State as Manager
use hv_frame_test.Manager.Timers.{poll_timers}
use hv_frame_test.Manager.Inv.{IsValid}
use hv_frame_test.Manager.Run.{Call, pushes, polls_timers, CallFits, run}
use hv_frame_test.Delivery.Follow.{packets_for, Undisturbed}
use hv_frame_test.Delivery.Stream.{stream_lem}
use hv_frame_test.Delivery.Pipeline.{pipeline_lem}
use hv_frame_test.Receiver.Worker.{on_frame_done}
use hv_frame_test.Protocol.Bytes.{encode_frame_header}
use hv_frame_test.Reassembler.Inv.{HeaderFits}
use hv_frame_test.Sender.{frame_header}
use hv_frame_test.Delivery.Assembly.{packets_of, IsPart}
use hv_frame_test.Delivery.EndToEnd.{Arrived, send_frame-Arrived}
use hv_frame_test.Receiver.Rx.{received}
use hv_frame_test.Tests.Data.{opens_all}
use hv_frame_test.Tests.Sending.{length-sevens, sender, attempts, attempts-IsClean}
use hv_frame_test.Tests.Delivering.{
  raw, frame, length-frame, enough, arrived, arrived-Delivers, short_frame, only_part,
  only-HeaderFits, only-IsPart, only-Covers,
}

-- The packet comes between those of another frame, and pollTimers runs before it does.
abbrev other_part : RxPacket
other_part = record only_part {
  hdr = record { frame_id = 6; packet_id = 0; packet_count = 2; payload_size = 3 };
}

other-HeaderFits : HeaderFits other_part.hdr
other-HeaderFits = record {
  frame_id_fits = omega arith;
  packet_id_fits = omega arith;
  packet_count_fits = omega arith;
  payload_size_fits = omega arith;
}

abbrev receiver : FrameReassemblerManager
receiver = record (Manager.init 2000 1400) { has_handler = true }

receiver-IsValid : IsValid receiver
unfolding Manager.init
receiver-IsValid = record { stride_fits = omega arith; sorted = tt; entries = tt }

abbrev calls : List Call
calls =
    pushes other_part 0 1000
    ∷ polls_timers 0 2000
    ∷ pushes only_part 0 3000
    ∷ pushes other_part 0 4000
    ∷ pushes only_part 0 5000
    ∷ []

stream_lem_example :
    (r : FrameResult) × Mem r (poll_timers (run opens_all receiver calls) 0 6000).1
    × (r.frame_id ≡ 5)
    × (r.state ≡ FrameState.complete_frame)
    × (r.complete ≡ true)
    × (r.frame_size ≡ 3)
    × (take r.frame_size r.frame_data ≡ short_frame)
unfolding Manager.init packets_for find
stream_lem_example =
    stream_lem opens_all receiver short_frame 5 calls 0 6000 receiver-IsValid refl refl
      (omega arith) (omega arith) (omega arith) refl
      (other-HeaderFits, (tt, (only-HeaderFits, (other-HeaderFits, (only-HeaderFits, tt)))))
      (tt, (refl, (tt, (tt, (tt, tt))))) (refl, (refl, tt)) (only-IsPart, (only-IsPart, tt))
      only-Covers

-- Each packet goes to the manager as it comes.
abbrev calls_of : List RxPacket → List Call
calls_of [] = []
calls_of (x ∷ xs) = pushes x 0 1000 ∷ calls_of xs

packets_for-calls_of :
    (k count : ℕ) (xs : List RxPacket)
    → All (λ x. (x.hdr.frame_id ≡ k) × (x.hdr.packet_count ≡ count)) xs
    → packets_for k (calls_of xs) ≡ xs
unfolding packets_for
packets_for-calls_of k count [] a = refl
packets_for-calls_of k count (x ∷ xs) a =
    ap (λ b. if b then x ∷ packets_for k (calls_of xs) else packets_for k (calls_of xs))
      ((==_iff x.hdr.frame_id k).1 a.0.0)
    ∙ ap (λ l. x ∷ l) (packets_for-calls_of k count xs a.1)

calls_of-CallFits :
    (whole : List ℕ) (xs : List RxPacket) → All (IsPart whole) xs → All CallFits (calls_of xs)
calls_of-CallFits whole [] a = tt
calls_of-CallFits whole (x ∷ xs) a = (a.0.fits, calls_of-CallFits whole xs a.1)

calls_of-Undisturbed :
    (max_frame_size stride k : ℕ) (xs : List RxPacket) (e : Option FrameEntry)
    → Undisturbed max_frame_size stride k e (calls_of xs)
calls_of-Undisturbed max_frame_size stride k [] e = tt
calls_of-Undisturbed max_frame_size stride k (x ∷ xs) e =
    (tt, calls_of-Undisturbed max_frame_size stride k xs _)

arrived-Arrived : Arrived frame 42 (received arrived)
arrived-Arrived =
    send_frame-Arrived sender frame attempts arrived (omega (arith, length-frame)) attempts-IsClean
      enough arrived-Delivers

pipeline_lem_example :
    let header = encode_frame_header (frame_header raw 40 30 12) in
    let files =
      on_frame_done opens_all
        (poll_timers (run opens_all receiver (calls_of (received arrived))) 0 2000).1 in
    Mem (record { name = "received_full_frame.bin"; bytes = header ++ raw }) files
    × Mem (record { name = "received_full_header.bin"; bytes = header }) files
    × Mem (record { name = "received_full_raw.bin"; bytes = raw }) files
unfolding Manager.init find
pipeline_lem_example =
    pipeline_lem opens_all sender raw 40 30 12 attempts arrived receiver
      (calls_of (received arrived)) 0 2000 (omega (arith, length-sevens 1385))
      (omega (arith, length-sevens 1385)) attempts-IsClean enough arrived-Delivers (λ name. refl)
      receiver-IsValid refl refl refl
      (calls_of-CallFits frame (received arrived) arrived-Arrived.parts)
      (calls_of-Undisturbed 2000 1400 42 (received arrived) none)
      (packets_for-calls_of 42 (packets_of frame) (received arrived) arrived-Arrived.numbers)
