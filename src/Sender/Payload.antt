-- ===== src/Sender/Payload.antt =====
-- What the packets of a frame carry.
use hv_frame_test.Base.{
  ℕ, zero, suc, ◌+◌, ◌-◌, ◌*◌, ◌/◌, ◌^◌, ◌≤◌, ◌<◌, min, ◌≡◌, refl, ◌∙◌, sym, ap, ap₂, List, [], ◌∷◌,
  ◌++◌, arith, length, take, drop, mul_size, take-add, length-append, length-take, All, inc32,
  take-min, length-drop, take_all, drop-drop,
}
use hv_frame_test.Protocol.Bytes.{encode_packet_header}
use hv_frame_test.Sender.{
  UdpSender, Attempt, send_frame, send_loop, packet_count_of, packet_size, datagram,
}
use hv_frame_test.Sender.Loop.{
  datagrams_from, IsClean, count_sent, send_frame_lem, InOrder, send_loop-InOrder,
  packet_count-fits,
}

-- The longest frame whose packets can be counted in 16 bits.
abbrev max_sendable : ℕ
max_sendable = 65535 * 1400

pub packet_count_of_lem :
    (frame : List ℕ)
    → length frame ≤ max_sendable
    → packet_count_of frame ≡ (length frame + 1399) / 1400
unfolding packet_count_of
packet_count_of_lem frame h = omega arith

pub packet_size_lem :
    (frame : List ℕ) (pid : ℕ)
    → length frame ≤ max_sendable
    → pid * 1400 ≤ length frame
    → packet_size frame pid ≡ min 1400 (length frame - pid * 1400)
unfolding packet_size
packet_size_lem frame pid h p = omega arith

-- What stands behind the headers, one datagram after the other.
abbrev pub payloads : List (List ℕ) → List ℕ
payloads [] = []
payloads (d ∷ ds) = drop 12 d ++ payloads ds

drop-datagram :
    (frame : List ℕ) (id count pid : ℕ)
    → drop 12 (datagram frame id count pid)
      ≡ take (packet_size frame pid) (drop (mul_size pid 1400) frame)
unfolding datagram encode_packet_header
drop-datagram frame id count pid = refl

-- The bytes of one packet, wherever the frame ends.
payload_lem :
    (frame : List ℕ) (id count pid : ℕ)
    → length frame ≤ max_sendable
    → pid * 1400 ≤ length frame
    → drop 12 (datagram frame id count pid) ≡ take 1400 (drop (pid * 1400) frame)
payload_lem frame id count pid h p =
    drop-datagram frame id count pid
    ∙ ap₂ (λ n o. take n (drop o frame)) size start
    ∙ take-min 1400 (drop (pid * 1400) frame)
  where
    size : packet_size frame pid ≡ min 1400 (length (drop (pid * 1400) frame))
    size = omega (arith, packet_size_lem frame pid h p, length-drop (pid * 1400) frame)

    start : mul_size pid 1400 ≡ pid * 1400
    start = omega arith

payloads-from :
    (frame : List ℕ) (id count pid k : ℕ)
    → length frame ≤ max_sendable
    → (pid + k) * 1400 < length frame + 1400
    → payloads (datagrams_from frame id count pid k) ≡ take (k * 1400) (drop (pid * 1400) frame)
payloads-from frame id count pid zero h p = refl
payloads-from frame id count pid (suc k) h p =
    ap₂ ◌++◌ (payload_lem frame id count pid h (omega arith))
      (payloads-from frame id count (pid + 1) k h (omega arith) ∙ ap (take (k * 1400)) further)
    ∙ sym (take-add 1400 (k * 1400) (drop (pid * 1400) frame))
    ∙ ap (λ n. take n (drop (pid * 1400) frame)) (omega arith)
  where
    further : drop ((pid + 1) * 1400) frame ≡ drop 1400 (drop (pid * 1400) frame)
    further = ap (λ n. drop n frame) (omega arith) ∙ sym (drop-drop 1400 (pid * 1400) frame)

-- The packets of a frame that 16 bits can count carry the frame: their payloads, one after the
-- other, are its bytes.
payloads-datagrams_from :
    (frame : List ℕ) (id count : ℕ)
    → length frame ≤ max_sendable
    → payloads (datagrams_from frame id count 0 (packet_count_of frame)) ≡ frame
payloads-datagrams_from frame id count h =
    payloads-from frame id count 0 (packet_count_of frame) h
      (omega (arith, packet_count_of_lem frame h))
    ∙ take_all (packet_count_of frame * 1400) frame (omega (arith, packet_count_of_lem frame h))

-- A longer frame loses bytes: fewer packets go out than it takes to carry it.
packet_count_short :
    (frame : List ℕ)
    → max_sendable < length frame
    → length frame < 2 ^ 63
    → packet_count_of frame * 1400 < length frame
unfolding packet_count_of
packet_count_short frame h k = omega arith

-- sendFrame of at most 65535 full packets over a socket that takes every packet in the end: the
-- payloads that go out are the frame, cut in pieces.
pub send_frame-carries :
    (s : UdpSender) (frame : List ℕ) (attempts : List Attempt)
    → length frame ≤ max_sendable
    → All IsClean attempts
    → packet_count_of frame ≤ count_sent attempts
    → payloads (send_frame s frame attempts).1.datagrams ≡ frame
send_frame-carries s frame attempts h clean enough =
    ap payloads (send_frame_lem s frame attempts clean enough).2
    ∙ payloads-datagrams_from frame _ (packet_count_of frame) h

length-payloads :
    (frame : List ℕ) (id count pid k : ℕ)
    → length (payloads (datagrams_from frame id count pid k)) ≤ k * 1400
unfolding packet_size
length-payloads frame id count pid zero = omega arith
length-payloads frame id count pid (suc k) = omega (
  arith,
  length-append (drop 12 (datagram frame id count pid))
      (payloads (datagrams_from frame id count (pid + 1) k)),
  ap length (drop-datagram frame id count pid),
  length-take (packet_size frame pid) (drop (mul_size pid 1400) frame),
  length-payloads frame id count (pid + 1) k,
)

-- A frame of fewer than 2 ^ 63 bytes that is too long for 16 bits to count its packets never goes
-- out whole: whatever the socket answers, the packets carry fewer bytes than it has.
pub send_frame_truncates :
    (s : UdpSender) (frame : List ℕ) (attempts : List Attempt)
    → max_sendable < length frame
    → length frame < 2 ^ 63
    → length (payloads (send_frame s frame attempts).1.datagrams) < length frame
unfolding send_frame
send_frame_truncates s frame attempts long fits = omega (
  arith,
  packet_count_short frame long fits,
  order.in_range,
  ap (λ ds. length (payloads ds)) order.exactly,
  length-payloads frame (inc32 s.frame_id) (packet_count_of frame) 0 order.k,
)
  where
    order :
        InOrder frame
          (inc32 s.frame_id)
          (packet_count_of frame)
          0
          (send_loop frame (inc32 s.frame_id) (packet_count_of frame) 0 attempts)
    order =
        send_loop-InOrder frame (inc32 s.frame_id) (packet_count_of frame) (packet_count-fits frame)
          0 attempts (omega arith)
