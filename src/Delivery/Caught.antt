-- ===== src/Delivery/Caught.antt =====
-- A frame that is sent, perhaps in part, over a network that may lose its packets, and the receiver's
-- threads from their start to their end.
use Prim.Native.String.{String}
use mathlib.Core.List.{Mem}
use hv_frame_test.Base.{
  ℕ, zero, suc, ◌+◌, ◌*◌, ◌≤◌, ◌<◌, ◌≡◌, ◌∙◌, sym, ap, subst, ◌⊎◌, inl, inr, Bool, true, List, [],
  ◌∷◌, All, Among, All-Among, arith, length, get_or, inc32,
}
use hv_frame_test.Protocol.{RxPacket}
use hv_frame_test.Writer.{FileWrite}
use hv_frame_test.Reassembler.Carry.{IsFellow, HasPlace}
use hv_frame_test.Sender.{UdpSender, Attempt, send_frame, packet_count_of}
use hv_frame_test.Sender.Loop.{datagrams_from, send_loop-InOrder, packet_count-fits}
use hv_frame_test.Sender.Payload.{packet_count_of_lem}
use hv_frame_test.Receiver.Rx.{received}
use hv_frame_test.Receiver.Worker.{max_frame_size, payload_stride}
use hv_frame_test.System.State.{System, returned}
use hv_frame_test.System.Steps.{Event, Reach}
use hv_frame_test.System.Channel.{accepted_in, fed_in}
use hv_frame_test.System.Kept.{OwnFellows, accepted_packet_lem}
use hv_frame_test.Delivery.Assembly.{packets_of, IsPart}
use hv_frame_test.Delivery.EndToEnd.{received-IsPart, received-numbers}

-- The first datagrams are among all.
Among-more :
    (frame : List ℕ) (id count pid k n : ℕ) (d : List ℕ)
    → k ≤ n
    → Among d (datagrams_from frame id count pid k)
    → Among d (datagrams_from frame id count pid n)
Among-more frame id count pid zero n d le m = absurd m
Among-more frame id count pid (suc k) zero d le m = absurd (omega arith)
Among-more frame id count pid (suc k) (suc n) d le (inl e) = inl e
Among-more frame id count pid (suc k) (suc n) d le (inr m) =
    inr (Among-more frame id count (pid + 1) k n d (omega arith) m)

All-more :
    (frame : List ℕ) (id count k n : ℕ) (ds : List (List ℕ))
    → k ≤ n
    → All (λ d. Among d (datagrams_from frame id count 0 k)) ds
    → All (λ d. Among d (datagrams_from frame id count 0 n)) ds
All-more frame id count k n [] le a = tt
All-more frame id count k n (d ∷ ds) le a =
    (Among-more frame id count 0 k n d le a.0, All-more frame id count k n ds le a.1)

-- A packet of the frame: a part of it with its number and its count.
record IsOf (frame : List ℕ) (id : ℕ) (x : RxPacket) : Type 0 where
  part : IsPart frame x
  own_id : x.hdr.frame_id ≡ id
  own_count : x.hdr.packet_count ≡ packets_of frame

both-IsOf :
    (frame : List ℕ) (id : ℕ) (xs : List RxPacket)
    → All (IsPart frame) xs
    → All (λ x. (x.hdr.frame_id ≡ id) × (x.hdr.packet_count ≡ packets_of frame)) xs
    → All (IsOf frame id) xs
both-IsOf frame id [] a b = tt
both-IsOf frame id (x ∷ xs) a b =
    (record { part = a.0; own_id = b.0.0; own_count = b.0.1 }, both-IsOf frame id xs a.1 b.1)

-- What the receiving thread makes of datagrams that the sender has sent, however far it came.
received-IsOf :
    (s : UdpSender) (frame : List ℕ) (attempts : List Attempt) (ds : List (List ℕ))
    → length frame ≤ 65535 * 1400
    → All (λ d. Among d (send_frame s frame attempts).1.datagrams) ds
    → All (IsOf frame (inc32 s.frame_id)) (received ds)
unfolding send_frame
received-IsOf s frame attempts ds countable sent =
    let id = inc32 s.frame_id in
    let count = packet_count_of frame in
    let fits = packet_count-fits frame in
    let all = packet_count_of_lem frame countable in
    let o = send_loop-InOrder frame id count fits 0 attempts (omega arith) in
    let genuine =
      All-more frame id count o.k (packets_of frame) ds (omega (arith, o.in_range, all))
        (subst (λ l. All (λ d. Among d l) ds) o.exactly sent) in
    both-IsOf frame id (received ds)
      (received-IsPart frame id count countable (omega arith) fits ds genuine)
      (subst (λ n. All (λ x. (x.hdr.frame_id ≡ id) × (x.hdr.packet_count ≡ n)) (received ds)) all
        (received-numbers frame id count countable (omega arith) fits ds genuine))

module _ (frame : List ℕ) (id : ℕ) (x : RxPacket) (of_x : IsOf frame id x) where
  IsOf-IsFellow : (y : RxPacket) → IsOf frame id y → IsFellow payload_stride x y
  IsOf-IsFellow y of_y = record {
    packet = record {
      fits = of_y.part.fits;
      short = omega (arith, of_y.part.size);
      present = of_y.part.present;
    };
    same_count = of_y.own_count ∙ sym of_x.own_count;
    same_payload = λ e. (
      omega (arith, of_y.part.size, of_x.part.size, e),
      λ i lt.
          of_y.part.bytes i (omega (arith, of_y.part.size, of_x.part.size, e, lt))
          ∙ ap (λ n. get_or frame (n * 1400 + i) 0) e
          ∙ sym (of_x.part.bytes i lt),
    );
  }

  IsOf-OwnFellows :
      (xs ys : List RxPacket)
      → All (IsOf frame id) xs
      → All (λ y. y.hdr.frame_id ≡ id → Among y xs) ys
      → OwnFellows x ys
  IsOf-OwnFellows xs [] a own = tt
  IsOf-OwnFellows xs (y ∷ ys) a own = (
    λ e. IsOf-IsFellow y (All-Among (IsOf frame id) y xs a (own.0 (e ∙ of_x.own_id))),
    IsOf-OwnFellows xs ys a own.1,
  )

  IsOf-HasPlace : length frame ≤ max_frame_size → HasPlace max_frame_size payload_stride x
  IsOf-HasPlace room = record {
    in_range = omega (arith, of_x.own_count, of_x.part.in_range);
    has_room = omega (arith, of_x.part.size, of_x.part.in_range);
  }

-- From the sender to main's return, with loss. sendFrame sends a frame, perhaps only the start of
-- it; the frame has 16 bytes at least, no more than 65535 packets, and fits the receiver's buffer.
-- Of the datagrams sent some arrive, in any order and number. The receiver's threads run, in any
-- interleaving, until main has returned, every file can be opened, and each packet of this frame
-- number that the worker handed over is one that the receiving thread makes of the datagrams that
-- arrived. Then a packet among those that the queue took is the one packet left in the queue, or a
-- full or a partial frame's file has been written in which the bytes at the packet's place are
-- those of the frame. A file may be written over later.
pub caught_lem :
    (can_open : String → Bool) {trace : List Event} {t : System} (s : UdpSender) (frame : List ℕ)
    (attempts : List Attempt) (ds : List (List ℕ)) (x : RxPacket)
    → 16 ≤ length frame
    → length frame ≤ 65535 * 1400
    → length frame ≤ max_frame_size
    → All (λ d. Among d (send_frame s frame attempts).1.datagrams) ds
    → Reach can_open trace t
    → t.main ≡ returned
    → All (λ y. y.hdr.frame_id ≡ inc32 s.frame_id → Among y (received ds)) (fed_in trace)
    → Among x (received ds)
    → Among x (accepted_in trace)
    → ((name : String) → can_open name ≡ true)
    → (t.queue.q ≡ x ∷ [])
      ⊎ ((f : FileWrite) × Mem f t.writes
          × ((f.name ≡ "received_full_frame.bin") ⊎ (f.name ≡ "received_partial_frame.bin"))
          × ((i : ℕ)
              → i < x.hdr.payload_size
              → get_or f.bytes (x.hdr.packet_id * 1400 + i) 0
                ≡ get_or frame (x.hdr.packet_id * 1400 + i) 0))
caught_lem can_open s frame attempts ds x some_bytes countable room sent r end own of_it taken
      opens =
    let all_of = received-IsOf s frame attempts ds countable sent in
    let of_x = All-Among (IsOf frame (inc32 s.frame_id)) x (received ds) all_of of_it in
    elim (accepted_packet_lem can_open x r end taken
      (IsOf-OwnFellows frame (inc32 s.frame_id) x of_x (received ds) _ all_of own)
      (IsOf-HasPlace frame (inc32 s.frame_id) x of_x room)
      (omega (arith, of_x.part.size, of_x.part.in_range)) opens) [
        | inl left ↦ inl left
        | inr (f, w, i) ↦ inr (f, w, i.named, λ j lt. i.bytes j lt ∙ of_x.part.bytes j lt)
      ]
