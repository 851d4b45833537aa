-- ===== src/Tests/Delivering.antt =====
-- An image of 1385 bytes, whose frame takes two packets, from the sender to the receiver's files.
use Prim.Native.String.{String}
use Prim.Native.String
use Prim.Native.Nat.{Ordering}
use hv_frame_test.Base.{
  ℕ, ◌+◌, ◌<◌, ◌≡◌, ◌≤◌, ◌∙◌, sym, ap, subst, inl, inr, refl, true, false, some, List, [], ◌∷◌,
  ◌++◌, arith, length, get_or, ◌≢◌, none, Option, All, Among,
}
use hv_frame_test.Protocol.{RxPacket}
use hv_frame_test.Reassembler.Inv.{HeaderFits}
use hv_frame_test.Sender.Main.{SenderRun, done, sender_main}
use hv_frame_test.Delivery.Files.{raw_header, datagrams_of, file_to_file, sender_main_silent}
use hv_frame_test.Reassembler.Sequence.{push_all}
use hv_frame_test.Sender.{
  Attempt, interrupted, writable, would_block, poll_failed, sent, wait_writable, send_frame,
  packet_count_of, datagram, encode,
}
use hv_frame_test.Sender.Loop.{IsClean, datagrams_from, count_sent, send_frame_lem}
use hv_frame_test.Sender.Payload.{packet_count_of_lem}
use hv_frame_test.Writer.{write_frame_to_file}
use hv_frame_test.Delivery.Assembly.{packets_of, IsPart, Covers}
use hv_frame_test.Delivery.Whole.{fresh}
use hv_frame_test.Delivery.EndToEnd.{Delivers}
use hv_frame_test.Receiver.Rx.{received}
use hv_frame_test.Delivery.Image.{length-encode}
use hv_frame_test.Tests.Data.{opens_all}
use hv_frame_test.Tests.Sending.{sevens, length-sevens, sender, attempts, attempts-IsClean}

abbrev pub raw : List ℕ
raw = sevens 1385

abbrev pub frame : List ℕ
frame = encode raw 40 30 12

pub length-frame : length frame ≡ 1401
length-frame = length-encode raw 40 30 12 ∙ ap (λ n. 16 + n) (length-sevens 1385)

count-frame : packet_count_of frame ≡ 2
count-frame = packet_count_of_lem frame (omega (arith, length-frame)) ∙ omega (arith, length-frame)

pub enough : packet_count_of frame ≤ count_sent attempts
enough = omega (arith, count-frame)

-- The network brings the second packet first, and brings it twice.
abbrev pub arrived : List (List ℕ)
arrived = datagram frame 42 2 1 ∷ datagram frame 42 2 0 ∷ datagram frame 42 2 1 ∷ []

abbrev departed : List (List ℕ)
departed = datagram frame 42 2 0 ∷ datagram frame 42 2 1 ∷ []

departed_lem : (send_frame sender frame attempts).1.datagrams ≡ departed
departed_lem =
    (send_frame_lem sender frame attempts attempts-IsClean enough).2
    ∙ ap (λ n. datagrams_from frame (send_frame sender frame attempts).0.frame_id n 0 n) count-frame
    ∙ ap (λ id. datagrams_from frame id 2 0 2)
        (send_frame_lem sender frame attempts attempts-IsClean enough).0

departed-Delivers : Delivers departed arrived
departed-Delivers = record {
  nothing_new = (inr (inl refl), (inl refl, (inr (inl refl), tt)));
  none_lost = (inr (inl refl), (inl refl, tt));
}

pub arrived-Delivers : Delivers (send_frame sender frame attempts).1.datagrams arrived
arrived-Delivers = subst (λ l. Delivers l arrived) (sym departed_lem) departed-Delivers

-- The sender's main reads the image from the path that it is given.
abbrev disk : String → Option (List ℕ)
disk path = elim (String.compare path "image.raw") [ Ordering.eq ↦ some raw | _ ↦ none ]

disk-raw : disk "image.raw" ≡ some raw
disk-raw = refl

raw-some : raw ≢ []
raw-some e = absurd (omega (arith, length-sevens 1385, ap length e))

abbrev sent_frame : List ℕ
sent_frame = encode raw 1920 1080 12

length-sent_frame : length sent_frame ≡ 1401
length-sent_frame = length-encode raw 1920 1080 12 ∙ ap (λ n. 16 + n) (length-sevens 1385)

enough_sent : packet_count_of sent_frame ≤ count_sent attempts
enough_sent =
    omega
      (arith, packet_count_of_lem sent_frame (omega (arith, length-sent_frame)), length-sent_frame)

abbrev the_run : SenderRun
the_run =
    sender_main opens_all attempts disk (λ port. true) ("127.0.0.1" ∷ "5000" ∷ "image.raw" ∷ [])

-- The network keeps the order.
same-Delivers : (ds : List (List ℕ)) → Delivers ds ds
same-Delivers ds = record { nothing_new = each ds; none_lost = each ds }
  where
    later :
        (d : List ℕ) (xs ys : List (List ℕ))
        → All (λ x. Among x ys) xs
        → All (λ x. Among x (d ∷ ys)) xs
    later d [] ys a = tt
    later d (x ∷ xs) ys a = (inr a.0, later d xs ys a.1)

    each : (xs : List (List ℕ)) → All (λ x. Among x xs) xs
    each [] = tt
    each (x ∷ xs) = (inl refl, later x xs xs (each xs))

file_to_file_example :
    let r = push_all (fresh 2000 1 sent_frame) (received (datagrams_of the_run)) in
    (the_run.ending ≡ done)
    × (the_run.writes ≡ record { name = "sender_header.bin"; bytes = raw_header raw } ∷ [])
    × (write_frame_to_file opens_all (some r.frame_buffer) r.frame_size false
        ≡ record { name = "received_full_frame.bin"; bytes = sent_frame }
          ∷ record { name = "received_full_header.bin"; bytes = raw_header raw }
          ∷ record { name = "received_full_raw.bin"; bytes = raw }
          ∷ [])
file_to_file_example =
    file_to_file opens_all attempts disk (λ port. true) "127.0.0.1" "5000" ("image.raw" ∷ []) raw
      (datagrams_of the_run) 2000 raw-some refl disk-raw (omega (arith, length-sevens 1385))
      (omega (arith, length-sevens 1385)) attempts-IsClean enough_sent
      (same-Delivers (datagrams_of the_run)) (λ name. refl)

-- The first packet goes out, once it no longer would block; before the second poll fails.
abbrev one_sent : List Attempt
one_sent =
    record { polls = writable ∷ []; reply = would_block }
    ∷ record { polls = interrupted ∷ writable ∷ []; reply = sent }
    ∷ []

one_sent-IsClean : All IsClean one_sent
unfolding wait_writable
one_sent-IsClean =
    (record { ready = refl; no_error = λ e. cc }, (record { ready = refl; no_error = λ e. cc }, tt))

abbrev failing : Attempt
failing = record { polls = interrupted ∷ poll_failed ∷ []; reply = sent }

sender_main_silent_example :
    let run =
      sender_main opens_all
        (one_sent ++ failing ∷ [])
        disk
        (λ port. true)
        ("127.0.0.1" ∷ "5000" ∷ "image.raw" ∷ []) in
    (run.ending ≡ done)
    × (datagrams_of run ≡ datagrams_from sent_frame 1 (packet_count_of sent_frame) 0 1)
sender_main_silent_example =
    sender_main_silent opens_all disk (λ port. true) "127.0.0.1" "5000" ("image.raw" ∷ []) raw
      one_sent failing [] raw-some refl disk-raw one_sent-IsClean
      (omega (
        arith,
        packet_count_of_lem sent_frame (omega (arith, length-sent_frame)),
        length-sent_frame,
      ))
      (inl tt)

-- A frame of three bytes, in one packet, which comes twice.
abbrev pub short_frame : List ℕ
short_frame = 1 ∷ 2 ∷ 3 ∷ []

abbrev pub only_part : RxPacket
only_part = record {
  hdr = record { frame_id = 5; packet_id = 0; packet_count = 1; payload_size = 3 };
  payload = short_frame;
  gap_before = false;
}

pub only-HeaderFits : HeaderFits only_part.hdr
only-HeaderFits = record {
  frame_id_fits = omega arith;
  packet_id_fits = omega arith;
  packet_count_fits = omega arith;
  payload_size_fits = omega arith;
}

pub only-IsPart : IsPart short_frame only_part
only-IsPart = record {
  fits = only-HeaderFits;
  in_range = omega arith;
  size = refl;
  present = omega arith;
  bytes = λ i h. ap (λ j. get_or short_frame j 0) (omega arith);
}

pub only-Covers : (i : ℕ) → i < packets_of short_frame → Covers i (only_part ∷ only_part ∷ [])
only-Covers i h = inl (omega arith)
