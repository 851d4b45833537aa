-- ===== src/Delivery/Files.antt =====
-- From the sender's file to the receiver's files.
use Prim.Native.String.{String}
use hv_frame_test.Base.{
  ℕ, ◌+◌, ◌*◌, ◌<◌, ◌++◌, ◌≤◌, ◌≡◌, ◌≢◌, ◌∙◌, refl, ap, subst, Bool, true, false, Option, some,
  none, List, [], ◌∷◌, arith, length, take, All, leb, if◌then◌else◌,
}
use hv_frame_test.Protocol.Bytes.{encode_frame_header}
use hv_frame_test.Reassembler.Sequence.{push_all}
use hv_frame_test.Receiver.Rx.{received}
use hv_frame_test.Sender.{Attempt, Sent, encode, frame_header, packet_count_of}
use hv_frame_test.Sender.Failure.{Fails, send_frame-Fails}
use hv_frame_test.Sender.Loop.{IsClean, count_sent, datagrams_from, send_frame_lem}
use hv_frame_test.Sender.Main.{
  done, SenderRun, after_sending, raw_path_of, sender_main, send_raw, get_next_frame,
}
use hv_frame_test.Writer.{write_frame_to_file, write_file}
use hv_frame_test.Delivery.Whole.{fresh}
use hv_frame_test.Delivery.EndToEnd.{Delivers}
use hv_frame_test.Delivery.Image.{image_lem, length-encode, header_part}

abbrev pub raw_header : List ℕ → List ℕ
raw_header raw = encode_frame_header (frame_header raw 1920 1080 12)

-- The datagrams of a run, if it came to sending.
abbrev pub datagrams_of : SenderRun → List (List ℕ)
datagrams_of r = sent_datagrams r.sent
  where
    sent_datagrams : Option Sent → List (List ℕ)
    sent_datagrams none = []
    sent_datagrams (some s) = s.datagrams

long : (raw : List ℕ) → leb 16 (length (encode raw 1920 1080 12)) ≡ true
long raw = ground (arith, length-encode raw 1920 1080 12)

first_bytes : (raw : List ℕ) → take 16 (encode raw 1920 1080 12) ≡ raw_header raw
unfolding encode
first_bytes raw = header_part (frame_header raw 1920 1080 12) raw

module _ (can_open : String → Bool) (attempts : List Attempt) (files : String → Option (List ℕ))
    (parses : String → Bool) (ip port : String) (rest : List String) where
  reads :
      (path : String) (b : ℕ) (raw : List ℕ)
      → files path ≡ some (b ∷ raw)
      → get_next_frame files (record { path = path }) ≡ some (b ∷ raw)
  unfolding get_next_frame
  reads path b raw readable = rw readable refl

  sends_raw :
      (raw : List ℕ)
      → raw ≢ []
      → parses port ≡ true
      → files (raw_path_of rest) ≡ some raw
      → sender_main can_open attempts files parses (ip ∷ port ∷ rest)
        ≡ send_raw can_open attempts raw
  unfolding sender_main
  sends_raw [] ne number readable = absurd (ne refl)
  sends_raw (b ∷ raw) ne number readable =
      rw (readable, number, reads (raw_path_of rest) b raw readable) refl

  writes_header :
      (raw : List ℕ)
      → ((name : String) → can_open name ≡ true)
      → (send_raw can_open attempts raw).writes
        ≡ record { name = "sender_header.bin"; bytes = raw_header raw } ∷ []
  unfolding send_raw write_file
  writes_header raw opens =
      let frame = encode raw 1920 1080 12 in
      ap (λ b. if b then write_file can_open "sender_header.bin" (take 16 frame) else []) (long raw)
      ∙ ap
          (λ b. if b then record { name = "sender_header.bin"; bytes = take 16 frame } ∷ [] else [])
          (opens "sender_header.bin")
      ∙ ap (λ h. record { name = "sender_header.bin"; bytes = h } ∷ []) (first_bytes raw)

  -- From file to file. The sender's main, with a port that stoi takes, a raw file that can be
  -- opened and holds some bytes, and everything to be opened for writing; an image that 16 bits can
  -- count the packets of and that fits the receiver's buffer; a socket that takes every packet in
  -- the end; and a network that loses none of the datagrams that main sent, but may reorder and
  -- repeat them: main ends with 0 and writes sender_header.bin, and the reassembler's buffer is
  -- written as a full frame, its header and its raw bytes, of which the header is what
  -- sender_header.bin holds, and the raw bytes are the sender's file.
  pub file_to_file :
      (raw : List ℕ) (ds : List (List ℕ)) (max_frame_size : ℕ)
      → raw ≢ []
      → parses port ≡ true
      → files (raw_path_of rest) ≡ some raw
      → 16 + length raw ≤ 65535 * 1400
      → 16 + length raw ≤ max_frame_size
      → All IsClean attempts
      → packet_count_of (encode raw 1920 1080 12) ≤ count_sent attempts
      → Delivers (datagrams_of (sender_main can_open attempts files parses (ip ∷ port ∷ rest))) ds
      → ((name : String) → can_open name ≡ true)
      → let run = sender_main can_open attempts files parses (ip ∷ port ∷ rest) in
        let r = push_all (fresh max_frame_size 1 (encode raw 1920 1080 12)) (received ds) in
        (run.ending ≡ done)
        × (run.writes ≡ record { name = "sender_header.bin"; bytes = raw_header raw } ∷ [])
        × (write_frame_to_file can_open (some r.frame_buffer) r.frame_size false
            ≡ record { name = "received_full_frame.bin"; bytes = encode raw 1920 1080 12 }
              ∷ record { name = "received_full_header.bin"; bytes = raw_header raw }
              ∷ record { name = "received_full_raw.bin"; bytes = raw }
              ∷ [])
  file_to_file raw ds max_frame_size ne number readable countable room clean enough delivers opens =
      let e = sends_raw raw ne number readable in
      (
        ap (λ r. r.ending) e
            ∙ unfold send_raw in
              ap after_sending
                (send_frame_lem (record { frame_id = 0 }) (encode raw 1920 1080 12) attempts clean
                  enough).1,
        ap (λ r. r.writes) e ∙ writes_header raw opens,
        image_lem (record { frame_id = 0 }) raw 1920 1080 12 attempts ds max_frame_size can_open
            countable room clean enough
            (unfold send_raw in subst (λ r. Delivers (datagrams_of r) ds) e delivers) opens,
      )

-- The socket fails before the frame is out.
module _ (can_open : String → Bool) (files : String → Option (List ℕ)) (parses : String → Bool)
    (ip port : String) (rest : List String) where
  -- The sender's main, with a port that stoi takes and a raw file that can be opened and holds some
  -- bytes. The socket takes some packets of the frame but not all, and may say of others that they
  -- would block; then poll fails with an error other than EINTR before it says that the socket is
  -- writable, or it says so and sendto fails with an error other than EAGAIN and EWOULDBLOCK.
  -- Whatever the socket would have said after that, the packets that were taken are out, the first
  -- ones of the frame in their order, no other ever is, and main still ends with 0.
  pub sender_main_silent :
      (raw : List ℕ) (before : List Attempt) (a : Attempt) (attempts : List Attempt)
      → raw ≢ []
      → parses port ≡ true
      → files (raw_path_of rest) ≡ some raw
      → All IsClean before
      → count_sent before < packet_count_of (encode raw 1920 1080 12)
      → Fails a
      → let run = sender_main can_open (before ++ a ∷ attempts) files parses (ip ∷ port ∷ rest) in
        let frame = encode raw 1920 1080 12 in
        (run.ending ≡ done)
        × (datagrams_of run ≡ datagrams_from frame 1 (packet_count_of frame) 0 (count_sent before))
  sender_main_silent raw before a attempts ne number readable clean lt failure =
      let all = before ++ a ∷ attempts in
      let e = sends_raw can_open all files parses ip port rest raw ne number readable in
      let f =
        send_frame-Fails (record { frame_id = 0 }) (encode raw 1920 1080 12) before a attempts clean
          lt failure in
      (
        ap (λ r. r.ending) e ∙ unfold send_raw in ap (λ o. after_sending o.status) f,
        ap datagrams_of e ∙ unfold send_raw in ap (λ o. o.datagrams) f,
      )
