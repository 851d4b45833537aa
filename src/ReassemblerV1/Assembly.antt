-- ===== src/ReassemblerV1/Assembly.antt =====
-- The first reassembler fed with the packets of a frame, in any order and with duplicates.
use hv_frame_test.Base.{
  ℕ, zero, suc, ◌+◌, ◌<◌, ◌≡◌, ◌≢◌, refl, ◌∙◌, sym, ap, subst, ◌⊎◌, inl, inr, true, false, none,
  some, List, [], ◌∷◌, ◌++◌, All, arith, length, take, ◌==◌, if◌then◌else◌, Option-cases,
  ℕ_discrete, ne→==, le→ltb, ==_iff, u16_mod, inc16,
}
use hv_frame_test.Base.SortedMap.{
  find, emplace, Above, Each, find-emplace, find-Each, emplace-Above, emplace-Each,
}
use hv_frame_test.Protocol.{UdpPacketHeader}
use hv_frame_test.ReassemblerV1.{FrameReassembler, start_new_frame, is_timeout, accept, push_packet}
use hv_frame_test.ReassemblerV1.Keys.{length-Above, length-emplace}

-- One call of pushPacket, with what the clock says in it.
pub record Push : Type 0 where
  pub hdr : UdpPacketHeader
  pub payload : List ℕ
  pub start_time : ℕ
  pub check_time : ℕ

abbrev pub push : FrameReassembler → Push → FrameReassembler
push r x = push_packet r x.hdr x.payload x.start_time x.check_time

unfoldable pub push_all : FrameReassembler → List Push → FrameReassembler
push_all r [] = r
push_all r (x ∷ xs) = push_all (push r x) xs

-- The contents of `k` packets from number `i` on, put together.
abbrev pub concat : (ℕ → List ℕ) → ℕ → ℕ → List ℕ
concat content i zero = []
concat content i (suc k) = content i ++ concat content (i + 1) k

-- A packet of the frame, in range, pushed before 5001 ms have passed.
pub record IsPart (id n start : ℕ) (content : ℕ → List ℕ) (x : Push) : Type 0 where
  pub own_frame : x.hdr.frame_id ≡ id
  pub in_range : x.hdr.packet_id < n
  pub bytes : take x.hdr.payload_size x.payload ≡ content x.hdr.packet_id
  pub in_time : x.check_time < start + 5_001_000_000

-- One of the packets has the number `i`.
abbrev pub Covers : ℕ → List Push → Type 0
Covers i [] = ⊥
Covers i (x ∷ xs) = (x.hdr.packet_id ≡ i) ⊎ Covers i xs

pub some≢none : {v : List ℕ} → some v ≢ none
some≢none e = cc

module _ (id n start : ℕ) (content : ℕ → List ℕ) (fits : n < u16_mod) where
  pub record Holds (s : FrameReassembler) : Type 0 where
    pub own_id : s.current_frame_id ≡ id
    pub expected : s.expected_packet_count ≡ n
    pub started : s.frame_start_time ≡ start
    pub sorted : Above 0 s.packets
    pub entries : Each (λ k v. (k < n) × (v ≡ content k)) s.packets
    pub counted : s.received_packet_count ≡ length s.packets

  abbrev pub Has : FrameReassembler → ℕ → Type 0
  Has s i = find i s.packets ≡ some (content i)

  in_time_lem :
      (s : FrameReassembler) (x : Push)
      → Holds s
      → IsPart id n start content x
      → is_timeout s x.check_time ≡ false
  unfolding is_timeout
  in_time_lem s x h p = le→ltb _ _ (omega (arith, h.started, p.in_time))

  same_frame :
      (s : FrameReassembler) (x : Push)
      → Holds s
      → IsPart id n start content x
      → (x.hdr.frame_id == s.current_frame_id) ≡ true
  same_frame s x h p = (==_iff _ _).1 (p.own_frame ∙ sym h.own_id)

  push_same :
      (s : FrameReassembler) (x : Push)
      → Holds s
      → IsPart id n start content x
      → push s x ≡ accept s x.hdr x.payload x.check_time
  unfolding push_packet
  push_same s x h p =
      ap
        (λ b.
          accept (if b then s else start_new_frame s x.hdr.frame_id x.hdr.packet_count x.start_time)
            x.hdr x.payload x.check_time)
        (same_frame s x h p)

  accept_known :
      (s : FrameReassembler) (x : Push) (v : List ℕ)
      → Holds s
      → IsPart id n start content x
      → find x.hdr.packet_id s.packets ≡ some v
      → accept s x.hdr x.payload x.check_time ≡ s
  unfolding accept
  accept_known s x v h p e = rw (in_time_lem s x h p, e) refl

  -- The object with a new packet in it.
  abbrev with_packet : FrameReassembler → Push → FrameReassembler
  with_packet s x = record s {
    packets = emplace x.hdr.packet_id (take x.hdr.payload_size x.payload) s.packets;
    received_packet_count = inc16 s.received_packet_count;
  }

  accept_new :
      (s : FrameReassembler) (x : Push)
      → Holds s
      → IsPart id n start content x
      → find x.hdr.packet_id s.packets ≡ none
      → accept s x.hdr x.payload x.check_time ≡ with_packet s x
  unfolding accept
  accept_new s x h p e = rw (in_time_lem s x h p, e) refl

  find-with_packet :
      (s : FrameReassembler) (x : Push) (i : ℕ)
      → Holds s
      → find x.hdr.packet_id s.packets ≡ none
      → find i (with_packet s x).packets ≡ (
          if x.hdr.packet_id == i
          then some (take x.hdr.payload_size x.payload)
          else find i s.packets)
  find-with_packet s x i h e =
      find-emplace x.hdr.packet_id i (take x.hdr.payload_size x.payload) 0 s.packets h.sorted e

  pub below :
      (m : List (ℕ × List ℕ)) → Each (λ k v. (k < n) × (v ≡ content k)) m → Each (λ k v. k < n) m
  below [] a = tt
  below ((k, v) ∷ m) a = (a.0.0, below m a.1)

  with_packet-Holds :
      (s : FrameReassembler) (x : Push)
      → Holds s
      → IsPart id n start content x
      → find x.hdr.packet_id s.packets ≡ none
      → Holds (with_packet s x)
  with_packet-Holds s x h p e = record {
    own_id = h.own_id;
    expected = h.expected;
    started = h.started;
    sorted = emplace-Above x.hdr.packet_id _ 0 s.packets (omega arith) h.sorted;
    entries = entries;
    counted = omega (
      arith,
      h.counted,
      length-emplace x.hdr.packet_id (take x.hdr.payload_size x.payload) s.packets e,
      length-Above n 0 (with_packet s x).packets
          (emplace-Above x.hdr.packet_id _ 0 s.packets (omega arith) h.sorted) (below _ entries),
    );
  }
    where
      entries : Each (λ k v. (k < n) × (v ≡ content k)) (with_packet s x).packets
      entries = emplace-Each _ x.hdr.packet_id _ s.packets (p.in_range, p.bytes) h.entries

  -- What one packet of the frame does: it is there then, and all that was there stays.
  push-Holds :
      (s : FrameReassembler) (x : Push)
      → Holds s
      → IsPart id n start content x
      → Holds (push s x) × Has (push s x) x.hdr.packet_id × ((i : ℕ) → Has s i → Has (push s x) i)
  push-Holds s x h p = elim (Option-cases (find x.hdr.packet_id s.packets)) [
    | inl e ↦ rw (push_same s x h p ∙ accept_new s x h p e) (
      with_packet-Holds s x h p e,
      find-with_packet s x x.hdr.packet_id h e
          ∙ rw ((==_iff x.hdr.packet_id x.hdr.packet_id).1 refl) (ap some p.bytes),
      λ i there. elim (ℕ_discrete x.hdr.packet_id i) [
        | yes own ↦ absurd (some≢none (sym there ∙ ap (λ j. find j s.packets) (sym own) ∙ e))
        | no other ↦ find-with_packet s x i h e ∙ rw (ne→== x.hdr.packet_id i other) there
      ],
    )
    | inr (v, e) ↦
        rw (push_same s x h p ∙ accept_known s x v h p e)
          (h, e ∙ ap some (find-Each _ _ v s.packets h.entries e).1, λ i there. there)
  ]

  Covers-nil : (s : FrameReassembler) (i : ℕ) → ⊥ ⊎ Has s i → Has s i
  Covers-nil s i (inl c) = absurd c
  Covers-nil s i (inr there) = there

  Covers-cons :
      (r s t : FrameReassembler) (x : Push) (xs : List Push)
      → Has s x.hdr.packet_id
      → ((i : ℕ) → Has r i → Has s i)
      → ((i : ℕ) → Covers i xs ⊎ Has s i → Has t i)
      → (i : ℕ) → Covers i (x ∷ xs) ⊎ Has r i
      → Has t i
  Covers-cons r s t x xs own keep later i (inl (inl mine)) = later i (inr (subst (Has s) mine own))
  Covers-cons r s t x xs own keep later i (inl (inr others)) = later i (inl others)
  Covers-cons r s t x xs own keep later i (inr there) = later i (inr (keep i there))

  pub push_all-Holds :
      (s : FrameReassembler) (xs : List Push)
      → Holds s
      → All (IsPart id n start content) xs
      → Holds (push_all s xs) × ((i : ℕ) → Covers i xs ⊎ Has s i → Has (push_all s xs) i)
  unfolding push_all
  push_all-Holds s [] h a = (h, Covers-nil s)
  push_all-Holds s (x ∷ xs) h a =
      let (h2, own, keep) = push-Holds s x h a.0 in
      let (h3, later) = push_all-Holds (push s x) xs h2 a.1 in
      (h3, Covers-cons s (push s x) (push_all (push s x) xs) x xs own keep later)
