-- ===== src/Delivery/EndToEnd.antt =====
-- A frame on its way: the sender, a network that reorders and repeats, the receiver's first thread, and
-- the reassembler.
use hv_frame_test.Base.{
  ℕ, zero, suc, ◌+◌, ◌*◌, ◌≤◌, ◌<◌, ◌≡◌, ◌∙◌, sym, ap, subst, inl, inr, true, List, [], ◌∷◌, All,
  Among, arith, length, take, u16_mod, u32_mod, inc32, ℕ_discrete,
}
use hv_frame_test.Protocol.{RxPacket}
use hv_frame_test.Reassembler.{is_frame_complete}
use hv_frame_test.Reassembler.Sequence.{push_all}
use hv_frame_test.Sender.{UdpSender, Attempt, send_frame, packet_count_of, datagram}
use hv_frame_test.Sender.Loop.{
  IsClean, count_sent, datagrams_from, send_frame_lem, packet_count-fits,
}
use hv_frame_test.Sender.Payload.{packet_count_of_lem}
use hv_frame_test.Receiver.Rx.{queued, rx_datagram, queue_packet, received}
use hv_frame_test.Delivery.Assembly.{packets_of, IsPart, Covers}
use hv_frame_test.Delivery.Part.{rx_datagram-datagram, rx_datagram-numbers}
use hv_frame_test.Delivery.Whole.{fresh, assemble_lem}

-- The network delivers each datagram at least once, and nothing else.
pub record Delivers (sent ds : List (List ℕ)) : Type 0 where
  pub nothing_new : All (λ d. Among d sent) ds
  pub none_lost : All (λ d. Among d ds) sent

module _ (frame : List ℕ) (id count : ℕ) where
  -- A datagram that was sent is one of the frame's.
  number_of :
      (pid k : ℕ) (d : List ℕ)
      → Among d (datagrams_from frame id count pid k)
      → (i : ℕ) × (i < pid + k) × (datagram frame id count i ≡ d)
  number_of pid zero d m = absurd m
  number_of pid (suc k) d (inl e) = (pid, omega arith, e)
  number_of pid (suc k) d (inr m) =
      let (i, lt, e) = number_of (pid + 1) k d m in (i, omega arith, e)

  -- Each of the frame's datagrams is there, if all that were sent are.
  delivered_number :
      (ds : List (List ℕ)) (pid k i : ℕ)
      → All (λ d. Among d ds) (datagrams_from frame id count pid k)
      → pid ≤ i
      → i < pid + k
      → Among (datagram frame id count i) ds
  delivered_number ds pid zero i a lo hi = absurd (omega arith)
  delivered_number ds pid (suc k) i a lo hi = elim (ℕ_discrete pid i) [
    | yes e ↦ subst (λ j. Among (datagram frame id count j) ds) e a.0
    | no ne ↦ delivered_number ds (pid + 1) k i a.1 (omega (arith, ne)) (omega arith)
  ]

pub received_queued :
    (d : List ℕ) (ds : List (List ℕ)) (x : RxPacket)
    → rx_datagram d ≡ queued x
    → received (d ∷ ds) ≡ x ∷ received ds
unfolding received
received_queued d ds x e = ap (λ o. queue_packet o (received ds)) e

module _ (frame : List ℕ) (id count : ℕ) (countable : length frame ≤ 65535 * 1400)
    (id_fits : id < u32_mod) (count_fits : count < u16_mod) where
  arrives :
      (i : ℕ) (d : List ℕ) (ds : List (List ℕ))
      → i < packets_of frame
      → datagram frame id count i ≡ d
      → (x : RxPacket) × (received (d ∷ ds) ≡ x ∷ received ds)
        × IsPart frame x
        × (x.hdr.packet_id ≡ i)
  arrives i d ds lt e =
      let (x, q, part, pid) =
        rx_datagram-datagram frame id count i countable lt id_fits count_fits in
      (x, received_queued d ds x (ap rx_datagram (sym e) ∙ q), part, pid)

  pub received-IsPart :
      (ds : List (List ℕ))
      → All (λ d. Among d (datagrams_from frame id count 0 (packets_of frame))) ds
      → All (IsPart frame) (received ds)
  received-IsPart [] a = unfold received in tt
  received-IsPart (d ∷ ds) a =
      let (i, lt, e) = number_of frame id count 0 (packets_of frame) d a.0 in
      let (x, q, part, _) = arrives i d ds (omega arith) e in rw q (part, received-IsPart ds a.1)

  pub received-numbers :
      (ds : List (List ℕ))
      → All (λ d. Among d (datagrams_from frame id count 0 (packets_of frame))) ds
      → All (λ x. (x.hdr.frame_id ≡ id) × (x.hdr.packet_count ≡ count)) (received ds)
  received-numbers [] a = unfold received in tt
  received-numbers (d ∷ ds) a =
      let (i, lt, e) = number_of frame id count 0 (packets_of frame) d a.0 in
      let (x, q, own_id, own_count) =
        rx_datagram-numbers frame id count i countable (omega arith) id_fits count_fits in
      rw (received_queued d ds x (ap rx_datagram (sym e) ∙ q))
        ((own_id, own_count), received-numbers ds a.1)

  received-Covers :
      (ds : List (List ℕ)) (i : ℕ)
      → All (λ d. Among d (datagrams_from frame id count 0 (packets_of frame))) ds
      → i < packets_of frame
      → Among (datagram frame id count i) ds
      → Covers i (received ds)
  received-Covers [] i a lt m = absurd m
  received-Covers (d ∷ ds) i a lt (inl e) =
      let (x, q, _, pid) = arrives i d ds lt (sym e) in rw q (inl pid)
  received-Covers (d ∷ ds) i a lt (inr m) =
      let (j, lt', e) = number_of frame id count 0 (packets_of frame) d a.0 in
      let (x, q, _, _) = arrives j d ds (omega arith) e in
      rw q (inr (received-Covers ds i a.1 lt m))

-- What the receiver's thread queues of a frame that is sent, as Delivers has it: parts of the frame,
-- with its number and its count, and for each packet number one.
pub record Arrived (frame : List ℕ) (id : ℕ) (xs : List RxPacket) : Type 0 where
  pub parts : All (IsPart frame) xs
  pub covers : (i : ℕ) → i < packets_of frame → Covers i xs
  pub numbers : All (λ x. (x.hdr.frame_id ≡ id) × (x.hdr.packet_count ≡ packets_of frame)) xs

pub send_frame-Arrived :
    (s : UdpSender) (frame : List ℕ) (attempts : List Attempt) (ds : List (List ℕ))
    → length frame ≤ 65535 * 1400
    → All IsClean attempts
    → packet_count_of frame ≤ count_sent attempts
    → Delivers (send_frame s frame attempts).1.datagrams ds
    → Arrived frame (inc32 s.frame_id) (received ds)
unfolding send_frame
send_frame-Arrived s frame attempts ds countable clean enough delivers = record {
  parts = received-IsPart frame id count countable id_fits (packet_count-fits frame) ds genuine;
  covers = λ i lt.
      received-Covers frame id count countable id_fits (packet_count-fits frame) ds i genuine lt (
        delivered_number frame id count ds 0 (packets_of frame) i complete (omega arith)
          (omega arith));
  numbers =
      subst (λ n. All (λ x. (x.hdr.frame_id ≡ id) × (x.hdr.packet_count ≡ n)) (received ds))
        (packet_count_of_lem frame countable)
        (received-numbers frame id count countable id_fits (packet_count-fits frame) ds genuine);
}
  where
    id : ℕ
    id = inc32 s.frame_id

    count : ℕ
    count = packet_count_of frame

    id_fits : id < u32_mod
    id_fits = omega arith

    sent :
        (send_frame s frame attempts).1.datagrams
        ≡ datagrams_from frame id count 0 (packets_of frame)
    sent =
        (send_frame_lem s frame attempts clean enough).2
        ∙ ap (datagrams_from frame id count 0) (packet_count_of_lem frame countable)

    genuine : All (λ d. Among d (datagrams_from frame id count 0 (packets_of frame))) ds
    genuine = subst (λ l. All (λ d. Among d l) ds) sent delivers.nothing_new

    complete : All (λ d. Among d ds) (datagrams_from frame id count 0 (packets_of frame))
    complete = subst (λ l. All (λ d. Among d ds) l) sent delivers.none_lost

-- A frame of at most 65535 packets that fits the receiver's buffer, sent over a socket that takes
-- every packet in the end, and over a network that loses none of the datagrams but may reorder and
-- repeat them: the reassembler that is fed with what the receiver's thread queues ends complete,
-- with the frame's length as its size and the frame's bytes at the start of its buffer.
pub delivery_lem :
    (s : UdpSender) (frame : List ℕ) (attempts : List Attempt) (ds : List (List ℕ))
    (max_frame_size : ℕ)
    → length frame ≤ 65535 * 1400
    → length frame ≤ max_frame_size
    → All IsClean attempts
    → packet_count_of frame ≤ count_sent attempts
    → Delivers (send_frame s frame attempts).1.datagrams ds
    → let r = push_all (fresh max_frame_size (inc32 s.frame_id) frame) (received ds) in
      (is_frame_complete r ≡ true)
      × (r.frame_size ≡ length frame)
      × (take r.frame_size r.frame_buffer ≡ frame)
delivery_lem s frame attempts ds max_frame_size countable room clean enough delivers =
    let a = send_frame-Arrived s frame attempts ds countable clean enough delivers in
    assemble_lem frame max_frame_size (inc32 s.frame_id) (received ds) countable room a.parts
      a.covers
