-- ===== src/Delivery/Image.antt =====
-- A raw image from the sender's file to the receiver's.
use Prim.Native.String.{String}
use hv_frame_test.Base.{
  ℕ, ◌+◌, ◌*◌, ◌≤◌, ◌≡◌, refl, ◌∙◌, ap, Bool, true, false, List, [], ◌∷◌, ◌++◌, some, All, arith,
  length, take, drop, length-append, inc32,
}
use hv_frame_test.Protocol.{FrameHeader}
use hv_frame_test.Protocol.Bytes.{encode_frame_header, length-encode_frame_header}
use hv_frame_test.Reassembler.{FrameReassemblerV2, is_frame_complete}
use hv_frame_test.Reassembler.Sequence.{push_all}
use hv_frame_test.Sender.{UdpSender, Attempt, send_frame, packet_count_of, encode, frame_header}
use hv_frame_test.Sender.Loop.{IsClean, count_sent}
use hv_frame_test.Writer.{write_frame_to_file}
use hv_frame_test.Writer.Parts.{write_frame_to_file_lem}
use hv_frame_test.Delivery.Whole.{fresh}
use hv_frame_test.Delivery.EndToEnd.{Delivers, delivery_lem}
use hv_frame_test.Receiver.Rx.{received}

pub length-encode :
    (raw : List ℕ) (width height bitdepth : ℕ)
    → length (encode raw width height bitdepth) ≡ 16 + length raw
unfolding encode
length-encode raw width height bitdepth = omega (
  arith,
  length-append (encode_frame_header (frame_header raw width height bitdepth)) raw,
  length-encode_frame_header (frame_header raw width height bitdepth),
)

pub header_part :
    (h : FrameHeader) (raw : List ℕ)
    → take 16 (encode_frame_header h ++ raw) ≡ encode_frame_header h
unfolding encode_frame_header
header_part h raw = refl

raw_part : (h : FrameHeader) (raw : List ℕ) → drop 16 (encode_frame_header h ++ raw) ≡ raw
unfolding encode_frame_header
raw_part h raw = refl

-- What the writer makes of a buffer that begins with an encoded image.
pub write_image :
    (can_open : String → Bool) (buffer : List ℕ) (n : ℕ) (h : FrameHeader) (raw : List ℕ)
    → ((name : String) → can_open name ≡ true)
    → n ≡ 16 + length raw
    → take n buffer ≡ encode_frame_header h ++ raw
    → write_frame_to_file can_open (some buffer) n false
      ≡ record { name = "received_full_frame.bin"; bytes = encode_frame_header h ++ raw }
        ∷ record { name = "received_full_header.bin"; bytes = encode_frame_header h }
        ∷ record { name = "received_full_raw.bin"; bytes = raw }
        ∷ []
write_image can_open buffer n h raw opens size e =
    let (header, rest, files, is_header, is_rest, _) =
      write_frame_to_file_lem can_open buffer n false opens (omega arith) in
    files ∙ λ i.
    record { name = "received_full_frame.bin"; bytes = e i }
    ∷ record {
      name = "received_full_header.bin";
      bytes = (is_header ∙ ap (take 16) e ∙ header_part h raw) i;
    }
    ∷ record {
      name = "received_full_raw.bin";
      bytes = (is_rest ∙ ap (drop 16) e ∙ raw_part h raw) i;
    }
    ∷ []

-- An image of any size whose packets 16 bits can count, and which fits the receiver's buffer: sent
-- over a socket that takes every packet in the end and a network that loses none of the datagrams,
-- but may reorder and repeat them, it is written, where every file can be opened, as a full frame,
-- its header and its raw bytes, the last being the image that was sent.
pub image_lem :
    (s : UdpSender) (raw : List ℕ) (width height bitdepth : ℕ) (attempts : List Attempt)
    (ds : List (List ℕ)) (max_frame_size : ℕ) (can_open : String → Bool)
    → 16 + length raw ≤ 65535 * 1400
    → 16 + length raw ≤ max_frame_size
    → All IsClean attempts
    → packet_count_of (encode raw width height bitdepth) ≤ count_sent attempts
    → Delivers (send_frame s (encode raw width height bitdepth) attempts).1.datagrams ds
    → ((name : String) → can_open name ≡ true)
    → let frame = encode raw width height bitdepth in
      let r = push_all (fresh max_frame_size (inc32 s.frame_id) frame) (received ds) in
      write_frame_to_file can_open (some r.frame_buffer) r.frame_size false
      ≡ record { name = "received_full_frame.bin"; bytes = frame }
        ∷ record {
          name = "received_full_header.bin";
          bytes = encode_frame_header (frame_header raw width height bitdepth);
        }
        ∷ record { name = "received_full_raw.bin"; bytes = raw }
        ∷ []
image_lem s raw width height bitdepth attempts ds max_frame_size can_open countable room clean
      enough delivers opens =
    unfold encode in
    write_image can_open r.frame_buffer r.frame_size (frame_header raw width height bitdepth) raw
      opens (delivered.1 ∙ length-encode raw width height bitdepth) delivered.2
  where
    frame : List ℕ
    frame = encode raw width height bitdepth

    r : FrameReassemblerV2
    r = push_all (fresh max_frame_size (inc32 s.frame_id) frame) (received ds)

    delivered :
        (is_frame_complete r ≡ true)
        × (r.frame_size ≡ length frame)
        × (take r.frame_size r.frame_buffer ≡ frame)
    delivered =
        delivery_lem s frame attempts ds max_frame_size
          (omega (arith, length-encode raw width height bitdepth))
          (omega (arith, length-encode raw width height bitdepth)) clean enough delivers
