-- ===== src/ReassemblerV1/Pop.antt =====
-- What popFrame hands out once all packets of a frame have been pushed.
use hv_frame_test.Base.{
  ℕ, zero, suc, ◌+◌, ◌-◌, ◌≤◌, ◌<◌, ◌≡◌, ◌≢◌, refl, ◌∙◌, sym, ap, ◌⊎◌, inl, true, ◌&&◌, some, List,
  ◌∷◌, All, arith, length, ltb, ◌==◌, if◌then◌else◌, ne→==, ==_iff, u16_mod,
}
use hv_frame_test.Base.SortedMap.{find}
use hv_frame_test.ReassemblerV1.{
  FrameReassembler, reset, start_new_frame, accept, push_packet, frame_complete, collect, pop_frame,
}
use hv_frame_test.ReassemblerV1.Keys.{length-Above, length-full}
use hv_frame_test.ReassemblerV1.Assembly.{
  Push, push, push_all, concat, IsPart, Covers, some≢none, Holds, Has, below, push_all-Holds,
}

module _ (content : ℕ → List ℕ) where
  collect_lem :
      (m : List (ℕ × List ℕ)) (i k : ℕ)
      → ((j : ℕ) → i ≤ j → j < i + k → find j m ≡ some (content j))
      → collect m i k ≡ some (concat content i k)
  unfolding collect
  collect_lem m i zero all = refl
  collect_lem m i (suc k) all =
      rw
        (
          all i (omega arith) (omega arith),
          collect_lem m (i + 1) k (λ j lo hi. all j (omega arith) (omega arith)),
          collect,
        )
        refl

module _ (id n start : ℕ) (content : ℕ → List ℕ) (fits : n < u16_mod) where
  -- A frame that is all there comes out whole, and the object starts afresh.
  pop_full :
      (s : FrameReassembler)
      → 0 < n
      → Holds id n start content fits s
      → ((i : ℕ) → i < n → Has id n start content fits s i)
      → pop_frame s ≡ (reset s, concat content 0 n)
  unfolding pop_frame frame_complete
  pop_full s some_packets h all =
      rw
        (
          complete,
          ap (λ c. collect s.packets 0 c) h.expected
              ∙ collect_lem content s.packets 0 n (λ j lo hi. all j (omega arith)),
        )
        refl
    where
      at_most : length s.packets ≤ n - 0
      at_most =
          length-Above n 0 s.packets h.sorted (below id n start content fits s.packets h.entries)

      at_least : n - 0 ≤ length s.packets
      at_least = length-full n 0 s.packets h.sorted (λ i lo hi e. some≢none (sym (all i hi) ∙ e))

      complete :
          (ltb 0 s.expected_packet_count && s.received_packet_count == s.expected_packet_count)
          ≡ true
      complete = ground (arith, h.expected, h.counted, at_most, at_least)

-- The frame starts with the first of its packets.
start-Holds :
    (r : FrameReassembler) (id n now : ℕ) (content : ℕ → List ℕ) (fits : n < u16_mod)
    → Holds id n now content fits (start_new_frame r id n now)
unfolding start_new_frame reset
start-Holds r id n now content fits = record {
  own_id = refl;
  expected = refl;
  started = refl;
  sorted = tt;
  entries = tt;
  counted = refl;
}

first_push :
    (r : FrameReassembler) (x : Push)
    → x.hdr.frame_id ≢ r.current_frame_id
    → push r x ≡ push (start_new_frame r x.hdr.frame_id x.hdr.packet_count x.start_time) x
unfolding push_packet
first_push r x new =
    ap (λ b. accept (if b then r else at_first) x.hdr x.payload x.check_time) (ne→== _ _ new)
    ∙ sym (
        ap
          (λ b.
            accept
              (if b
                then at_first
                else start_new_frame at_first x.hdr.frame_id x.hdr.packet_count x.start_time)
              x.hdr x.payload x.check_time)
          (unfold start_new_frame in (==_iff x.hdr.frame_id x.hdr.frame_id).1 refl))
  where
    at_first : FrameReassembler
    at_first = start_new_frame r x.hdr.frame_id x.hdr.packet_count x.start_time

-- The first reassembler puts a new frame, of at most 65535 packets, together again: if each packet
-- is pushed less than 5001 ms after the first, once every packet number is there, in whatever order
-- and with whatever duplicates, popFrame hands out the packets' contents, in the order of their
-- numbers, and resets the object.
pub pop_frame-push_all :
    (r : FrameReassembler) (x : Push) (xs : List Push) (content : ℕ → List ℕ)
    → x.hdr.packet_count < u16_mod
    → x.hdr.frame_id ≢ r.current_frame_id
    → All (IsPart x.hdr.frame_id x.hdr.packet_count x.start_time content) (x ∷ xs)
    → ((i : ℕ) → i < x.hdr.packet_count → Covers i (x ∷ xs))
    → pop_frame (push_all r (x ∷ xs))
      ≡ (reset (push_all r (x ∷ xs)), concat content 0 x.hdr.packet_count)
pop_frame-push_all r x xs content fits new parts covers = rw whole (
    pop_full id n x.start_time content fits (push_all at_first (x ∷ xs))
      (omega (arith, parts.0.in_range)) held.0 (λ i lt. held.1 i (inl (covers i lt))))
  where
    id : ℕ
    id = x.hdr.frame_id

    n : ℕ
    n = x.hdr.packet_count

    at_first : FrameReassembler
    at_first = start_new_frame r id n x.start_time

    whole : push_all r (x ∷ xs) ≡ push_all at_first (x ∷ xs)
    whole = unfold push_all in ap (λ s. push_all s xs) (first_push r x new)

    held :
        Holds id n x.start_time content fits (push_all at_first (x ∷ xs))
        × ((i : ℕ)
            → Covers i (x ∷ xs) ⊎ Has id n x.start_time content fits at_first i
            → Has id n x.start_time content fits (push_all at_first (x ∷ xs)) i)
    held =
        push_all-Holds id n x.start_time content fits at_first (x ∷ xs)
          (start-Holds r id n x.start_time content fits) parts
