-- ===== src/DebugLog/Missing.antt =====
-- The trace of a partial frame against the packets that the frame lacks.
use hv_frame_test.Base.{
  ℕ, zero, suc, ◌+◌, ◌≤◌, ◌<◌, ◌≡◌, ◌≢◌, inl, inr, refl, ◌∙◌, ap, sym, subst, dec_lt, Bool, true,
  false, List, [], ◌∷◌, arith, length, drop, get_or, All, Among, drop_step, drop_all, count_true,
  Bool-cases, lt→leb, if◌then◌else◌,
}
use hv_frame_test.FrameResult.{FrameState}
use hv_frame_test.Reassembler.{FrameReassemblerV2, has_packet}
use hv_frame_test.Reassembler.Inv.{IsValid}
use hv_frame_test.Manager.State.{FrameEntry}
use hv_frame_test.DebugLog.{PacketTraceEntry}
use hv_frame_test.DebugLog.Sources.{missing_from, missing_entry, emit_trace}

abbrev pub IsMissing : FrameReassemblerV2 → PacketTraceEntry → Type 0
IsMissing r e = (e.packet_id < r.expected_packet_count) × (has_packet r e.packet_id ≡ false)

abbrev pub packet_ids : List PacketTraceEntry → List ℕ
packet_ids [] = []
packet_ids (e ∷ es) = e.packet_id ∷ packet_ids es

-- Of the packets from `i` on.
record Lists (r : FrameReassemblerV2) (n i : ℕ) (es : List PacketTraceEntry) : Type 0 where
  counted : length es + count_true (drop i r.packet_received) ≡ n
  missing : All (IsMissing r) es
  all_of_them :
      (k : ℕ)
      → i ≤ k
      → k < r.expected_packet_count
      → has_packet r k ≡ false
      → Among k (packet_ids es)

true≢false : true ≢ false
true≢false e = cc

has_packet_within :
    (r : FrameReassemblerV2) (i : ℕ)
    → i < r.expected_packet_count
    → has_packet r i ≡ get_or r.packet_received i false
unfolding has_packet
has_packet_within r i h = rw (lt→leb _ _ h) refl

count_true_step :
    (b : Bool) (bs : List Bool) → count_true (b ∷ bs) ≡ (if b then 1 else 0) + count_true bs
count_true_step true bs = omega arith
count_true_step false bs = omega arith

add_there :
    (r : FrameReassemblerV2) (n i : ℕ) (es : List PacketTraceEntry)
    → has_packet r i ≡ true
    → count_true (drop i r.packet_received) ≡ 1 + count_true (drop (i + 1) r.packet_received)
    → Lists r n (i + 1) es
    → Lists r (suc n) i es
add_there r n i es there step l = record {
  counted = omega (arith, l.counted);
  missing = l.missing;
  all_of_them = λ k le lt h. elim (dec_lt i k) [
    | yes after ↦ l.all_of_them k (omega arith) lt h
    | no not_after ↦
        let same : k ≡ i = omega arith in
        absurd (true≢false (sym there ∙ sym (ap (has_packet r) same) ∙ h))
  ];
}

add_missing :
    (r : FrameReassemblerV2) (n i : ℕ) (es : List PacketTraceEntry)
    → i < r.expected_packet_count
    → has_packet r i ≡ false
    → count_true (drop i r.packet_received) ≡ count_true (drop (i + 1) r.packet_received)
    → Lists r n (i + 1) es
    → Lists r (suc n) i (missing_entry r i ∷ es)
add_missing r n i es within lacks step l = record {
  counted = omega (arith, l.counted);
  missing = ((within, lacks), l.missing);
  all_of_them = λ k le lt h. elim (dec_lt i k) [
    | yes after ↦ inr (l.all_of_them k (omega arith) lt h)
    | no not_after ↦ inl (omega arith)
  ];
}

missing_from-Lists :
    (r : FrameReassemblerV2) (n i : ℕ)
    → IsValid r
    → i + n ≡ r.expected_packet_count
    → Lists r n i (missing_from r n i)
unfolding missing_from
missing_from-Lists r zero i v e = record {
  counted = omega (arith, ap count_true (drop_all i r.packet_received (omega (arith, v.flags))));
  missing = tt;
  all_of_them = λ k le lt h. absurd (omega arith);
}
missing_from-Lists r (suc n) i v e =
    let rest = missing_from-Lists r n (i + 1) v (omega arith) in
    let within = has_packet_within r i (omega arith) in
    let step =
      ap count_true (drop_step r.packet_received i false (omega (arith, v.flags)))
      ∙ count_true_step (get_or r.packet_received i false) (drop (i + 1) r.packet_received) in
    elim (Bool-cases (has_packet r i)) [
      | inl there ↦
          subst
            (λ b. Lists r (suc n) i (
              if b then missing_from r n (i + 1) else missing_entry r i ∷ missing_from r n (i + 1)))
            (sym there)
            (add_there r n i _ there
              (step
                ∙ ap (λ b. (if b then 1 else 0) + count_true (drop (i + 1) r.packet_received))
                    (sym within ∙ there))
              rest)
      | inr lacks ↦
          subst
            (λ b. Lists r (suc n) i (
              if b then missing_from r n (i + 1) else missing_entry r i ∷ missing_from r n (i + 1)))
            (sym lacks)
            (add_missing r n i _ (omega arith) lacks
              (omega (
                arith,
                step,
                ap (λ b. (if b then 1 else 0) + count_true (drop (i + 1) r.packet_received))
                    (sym within ∙ lacks),
              ))
              rest)
    ]

-- When emitFrame emits a partial frame with a valid reassembler, it traces as many entries as the
-- frame lacks packets, each for a packet in range that is not there, and every such packet has one.
pub emit_trace_lem :
    (e : FrameEntry)
    → IsValid e.reassembler
    → (length (emit_trace e FrameState.partial_frame) + e.reassembler.received_packets_count
        ≡ e.reassembler.expected_packet_count)
      × All (IsMissing e.reassembler) (emit_trace e FrameState.partial_frame)
      × ((k : ℕ)
          → k < e.reassembler.expected_packet_count
          → has_packet e.reassembler k ≡ false
          → Among k (packet_ids (emit_trace e FrameState.partial_frame)))
unfolding emit_trace
emit_trace_lem e v =
    let l =
      missing_from-Lists e.reassembler e.reassembler.expected_packet_count 0 v (omega arith) in
    (omega (arith, l.counted, v.counted), l.missing, λ k lt h. l.all_of_them k (omega arith) lt h)
