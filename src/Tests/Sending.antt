-- ===== src/Tests/Sending.antt =====
-- A frame of 1401 bytes, in two packets, over a socket that would block once.
use hv_frame_test.Base.{
  ℕ, ◌<◌, ◌≡◌, ◌≤◌, refl, ◌∙◌, List, [], ◌∷◌, arith, length, replicate, All, length-replicate,
}
use hv_frame_test.Sender.{
  UdpSender, Attempt, interrupted, not_writable, writable, sent, would_block, finished, send_frame,
  send_loop, packet_count_of, wait_writable,
}
use hv_frame_test.Sender.Loop.{
  IsClean, count_sent, datagrams_from, InOrder, send_frame_lem, send_loop-InOrder,
}
use hv_frame_test.Sender.Payload.{
  payloads, packet_count_of_lem, send_frame_truncates, send_frame-carries,
}

-- `n` bytes, all the same.
pub sevens : ℕ → List ℕ
sevens n = replicate n 7

pub length-sevens : (n : ℕ) → length (sevens n) ≡ n
unfolding sevens
length-sevens n = length-replicate {A = ℕ} n 7

abbrev frame : List ℕ
frame = sevens 1401

length-frame : length frame ≡ 1401
length-frame = length-sevens 1401

count-frame : packet_count_of frame ≡ 2
count-frame = packet_count_of_lem frame (omega (arith, length-frame)) ∙ omega (arith, length-frame)

abbrev pub sender : UdpSender
sender = record { frame_id = 41 }

abbrev pub attempts : List Attempt
attempts =
    record { polls = interrupted ∷ writable ∷ []; reply = sent }
    ∷ record { polls = writable ∷ []; reply = would_block }
    ∷ record { polls = not_writable ∷ writable ∷ []; reply = sent }
    ∷ []

-- Every attempt ends with a packet that was taken or that would block.
pub attempts-IsClean : All IsClean attempts
unfolding wait_writable
attempts-IsClean = (
  record { ready = refl; no_error = λ e. cc },
  (record { ready = refl; no_error = λ e. cc }, (record { ready = refl; no_error = λ e. cc }, tt)),
)

enough : packet_count_of frame ≤ count_sent attempts
enough = omega (arith, count-frame)

send_frame_lem_example :
    ((send_frame sender frame attempts).0.frame_id ≡ 42)
    × ((send_frame sender frame attempts).1.status ≡ finished)
    × ((send_frame sender frame attempts).1.datagrams
        ≡ datagrams_from frame
            (send_frame sender frame attempts).0.frame_id
            (packet_count_of frame)
            0
            (packet_count_of frame))
send_frame_lem_example = send_frame_lem sender frame attempts attempts-IsClean enough

send_loop-InOrder_example : InOrder frame 42 2 0 (send_loop frame 42 2 0 attempts)
send_loop-InOrder_example = send_loop-InOrder frame 42 2 (omega arith) 0 attempts (omega arith)

-- One byte more than the 65535 packets carry.
abbrev too_long : List ℕ
too_long = sevens 91_749_001

length-too_long : length too_long ≡ 91_749_001
length-too_long = length-sevens 91_749_001

send_frame_truncates_example :
    length (payloads (send_frame sender too_long attempts).1.datagrams) < length too_long
send_frame_truncates_example =
    send_frame_truncates sender too_long attempts (omega (arith, length-too_long))
      (omega (arith, length-too_long))

send_frame-carries_example : payloads (send_frame sender frame attempts).1.datagrams ≡ frame
send_frame-carries_example =
    send_frame-carries sender frame attempts (omega (arith, length-frame)) attempts-IsClean enough
