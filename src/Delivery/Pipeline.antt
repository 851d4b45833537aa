-- ===== src/Delivery/Pipeline.antt =====
-- The whole way of an image: encoder, sender, network, receiving thread, manager, timers, writer.
use Prim.Native.String.{String}
use mathlib.Core.List.{Mem, mem-cons_self, mem-cons_of_mem}
use hv_frame_test.Base.{
  ℕ, ◌+◌, ◌*◌, ◌≤◌, ◌≡◌, ◌∙◌, sym, ap, subst, Bool, true, none, some, List, [], ◌∷◌, ◌++◌, All,
  arith, length, take, inc32,
}
use hv_frame_test.Base.SortedMap.{find}
use hv_frame_test.Protocol.{RxPacket}
use hv_frame_test.Protocol.Bytes.{encode_frame_header}
use hv_frame_test.FrameResult.{FrameState, FrameResult}
use hv_frame_test.Writer.{FileWrite, write_frame_to_file}
use hv_frame_test.Sender.{UdpSender, Attempt, send_frame, packet_count_of, encode, frame_header}
use hv_frame_test.Sender.Loop.{IsClean, count_sent}
use hv_frame_test.Receiver.Rx.{received}
use hv_frame_test.Receiver.Worker.{on_frame_done, is_partial_state}
use hv_frame_test.Receiver.Outputs.{written, written-on_frame_done}
use hv_frame_test.Manager.State.{FrameReassemblerManager}
use hv_frame_test.Manager.Timers.{poll_timers}
use hv_frame_test.Manager.Inv.{IsValid}
use hv_frame_test.Manager.Run.{Call, CallFits, run}
use hv_frame_test.Delivery.Assembly.{IsPart, Covers, packets_of}
use hv_frame_test.Delivery.EndToEnd.{Delivers, send_frame-Arrived}
use hv_frame_test.Delivery.Follow.{packets_for, Undisturbed}
use hv_frame_test.Delivery.Stream.{stream_lem}
use hv_frame_test.Delivery.Image.{length-encode, write_image}

All-map :
    {P Q : RxPacket → Type 0}
    → ((x : RxPacket) → P x → Q x)
    → (xs : List RxPacket) → All P xs
    → All Q xs
All-map f [] a = tt
All-map f (x ∷ xs) a = (f x a.0, All-map f xs a.1)

module _ (can_open : String → Bool) where
  files_of :
      (r : FrameResult) (raw : List ℕ) (width height bitdepth : ℕ)
      → ((name : String) → can_open name ≡ true)
      → r.state ≡ FrameState.complete_frame
      → r.frame_size ≡ 16 + length raw
      → take r.frame_size r.frame_data ≡ encode raw width height bitdepth
      → let header = encode_frame_header (frame_header raw width height bitdepth) in
        Mem
          (record { name = "received_full_frame.bin"; bytes = header ++ raw })
          (written can_open r)
        × Mem (record { name = "received_full_header.bin"; bytes = header }) (written can_open r)
        × Mem (record { name = "received_full_raw.bin"; bytes = raw }) (written can_open r)
  unfolding written
  files_of r raw width height bitdepth opens st size bytes =
      let header = frame_header raw width height bitdepth in
      let e =
        ap (λ s. write_frame_to_file can_open (some r.frame_data) r.frame_size (is_partial_state s))
          st
        ∙ write_image can_open r.frame_data r.frame_size header raw opens size
            (unfold encode in bytes) in
      rw e (
        mem-cons_self,
        mem-cons_of_mem _ mem-cons_self,
        mem-cons_of_mem _ (mem-cons_of_mem _ mem-cons_self),
      )

  -- The whole way of an image. It is of any size whose packets 16 bits can count and that fits the
  -- receiver's buffer; it is sent over a socket that takes every packet in the end and a network
  -- that loses none of the datagrams, but may reorder and repeat them. A valid manager with a
  -- handler and a stride of 1400, without an entry of the frame, gets of this frame the packets
  -- that the receiving thread makes of the datagrams, with packets of other frames and other calls
  -- between them, none of which ends the frame. If every file can be opened, then among what
  -- onFrameDone writes for the results of the next pollTimers are the frame, its header, and the
  -- raw bytes, which are the image that was sent.
  pub pipeline_lem :
      (s : UdpSender) (raw : List ℕ) (width height bitdepth : ℕ) (attempts : List Attempt)
      (ds : List (List ℕ)) (m : FrameReassemblerManager) (cs : List Call) (drops now : ℕ)
      → 16 + length raw ≤ 65535 * 1400
      → 16 + length raw ≤ m.max_frame_size
      → All IsClean attempts
      → packet_count_of (encode raw width height bitdepth) ≤ count_sent attempts
      → Delivers (send_frame s (encode raw width height bitdepth) attempts).1.datagrams ds
      → ((name : String) → can_open name ≡ true)
      → IsValid m
      → m.has_handler ≡ true
      → m.payload_stride ≡ 1400
      → find (inc32 s.frame_id) m.frames ≡ none
      → All CallFits cs
      → Undisturbed m.max_frame_size m.payload_stride (inc32 s.frame_id) none cs
      → packets_for (inc32 s.frame_id) cs ≡ received ds
      → let header = encode_frame_header (frame_header raw width height bitdepth) in
        let files = on_frame_done can_open (poll_timers (run can_open m cs) drops now).1 in
        Mem (record { name = "received_full_frame.bin"; bytes = header ++ raw }) files
        × Mem (record { name = "received_full_header.bin"; bytes = header }) files
        × Mem (record { name = "received_full_raw.bin"; bytes = raw }) files
  pipeline_lem s raw width height bitdepth attempts ds m cs drops now countable room clean enough
        delivers opens v on stride absent fits undisturbed fed =
      let frame = encode raw width height bitdepth in
      let size = length-encode raw width height bitdepth in
      let a = send_frame-Arrived s frame attempts ds (omega arith) clean enough delivers in
      let (r, mem, id, st, _, size_r, bytes_r) =
        stream_lem can_open m frame (inc32 s.frame_id) cs drops now v on stride (omega arith)
          (omega arith) (omega arith) absent fits undisturbed
          (subst (All (λ x. x.hdr.packet_count ≡ packets_of frame)) (sym fed)
            (All-map (λ x n. n.1) _ a.numbers))
          (subst (All (IsPart frame)) (sym fed) a.parts)
          (λ i lt. subst (Covers i) (sym fed) (a.covers i lt)) in
      let files = files_of r raw width height bitdepth opens st (size_r ∙ size) bytes_r in
      let into = λ (f : FileWrite) (w : Mem f (written can_open r)).
        written-on_frame_done can_open f r _ mem w in
      (into _ files.0, into _ files.1, into _ files.2)
