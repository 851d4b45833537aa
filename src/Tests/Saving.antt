-- ===== src/Tests/Saving.antt =====
-- The receiver's threads, from a packet that is fed to the manager to the return of main, and when
-- the signal comes.
use mathlib.Core.List.{Mem}
use hv_frame_test.Base.{
  length, ◌≤◌, true, ◌≡◌, refl, sym, ap, subst, ◌⊎◌, inl, List, [], ◌∷◌, ◌++◌, Among, arith,
}
use hv_frame_test.Protocol.{RxPacket}
use hv_frame_test.Writer.{FileWrite}
use hv_frame_test.PacketQueue.{make, push}
use hv_frame_test.Reassembler.Carry.{IsFellow, HasPlace}
use hv_frame_test.Receiver.Worker.{max_frame_size, payload_stride}
use hv_frame_test.Reassembler.Inv.{HeaderFits}
use hv_frame_test.System.Channel.{accepted_in, fed_in}
use hv_frame_test.Receiver.Outputs.{IsIn}
use hv_frame_test.System.State.{System, launch, pushing, rx_finished}
use hv_frame_test.System.Steps.{silent, push_event, rx_pushes, rx_stops, moves, Way, here, and_then}
use hv_frame_test.System.Told.{rx_moves, main_moves, offers_in, told_lem}
use hv_frame_test.System.Last.{all_but_one}
use hv_frame_test.System.Kept.{OwnFellows, accepted_packet_lem}
use hv_frame_test.Tests.Data.{second_header, second-HeaderFits, opens_all}
use hv_frame_test.Tests.Systems.{arrival, x, datagram, datagram-IsBytes}
use hv_frame_test.Tests.Passing.{ended, whole_trace, Reach-ended}

x-hdr : x.hdr ≡ second_header
x-hdr = arrival.2

x-IsFellow : IsFellow payload_stride x x
x-IsFellow = record {
  packet = record {
    fits = subst HeaderFits (sym x-hdr) second-HeaderFits;
    short = omega (arith, ap (λ h. h.payload_size) x-hdr);
    present = omega (arith, ap (λ h. h.payload_size) x-hdr, arrival.3);
  };
  same_count = refl;
  same_payload = λ e. (refl, λ i lt. refl);
}

x-HasPlace : HasPlace max_frame_size payload_stride x
x-HasPlace = record {
  in_range = omega (arith, ap (λ h. h.packet_id) x-hdr, ap (λ h. h.packet_count) x-hdr);
  has_room = omega (arith, ap (λ h. h.packet_id) x-hdr, ap (λ h. h.payload_size) x-hdr);
}

x_accepted : Among x (accepted_in (whole_trace x))
unfolding push make
x_accepted = inl refl

x_alone : OwnFellows x (fed_in (whole_trace x))
unfolding push make
x_alone = (λ e. x-IsFellow, tt)

accepted_packet_lem_example :
    ((ended x).queue.q ≡ x ∷ [])
    ⊎ ((f : FileWrite) × Mem f (ended x).writes × IsIn payload_stride x f)
accepted_packet_lem_example =
    accepted_packet_lem opens_all x (Reach-ended datagram x datagram-IsBytes arrival.1) refl
      x_accepted x_alone x-HasPlace
      (omega (arith, ap (λ h. h.packet_id) x-hdr, ap (λ h. h.payload_size) x-hdr)) (λ name. refl)

all_but_one_example :
    (last : List RxPacket) × (length last ≤ 1)
    × (fed_in (whole_trace x) ++ last ≡ accepted_in (whole_trace x))
all_but_one_example = all_but_one opens_all (Reach-ended datagram x datagram-IsBytes arrival.1) refl

-- The signal comes while the receiving thread holds a packet; it pushes that, and stops.
abbrev caught_out : System
caught_out = record (launch 0) { rx = pushing x; shutdown = true }

abbrev last_moves :
    Way opens_all caught_out
      ([] ++ push_event x (push caught_out.queue x).1 ∷ [] ++ silent ∷ [])
      (record caught_out { queue = (push caught_out.queue x).0; rx = rx_finished })
last_moves = and_then (and_then here (moves (rx_pushes x refl))) (moves (rx_stops refl refl))

told_lem_example :
    (rx_moves opens_all last_moves ≤ 3)
    × (main_moves opens_all last_moves ≤ 3)
    × (offers_in ([] ++ push_event x (push caught_out.queue x).1 ∷ [] ++ silent ∷ []) ≤ 1)
told_lem_example = told_lem opens_all last_moves refl
