-- ===== src/Tests/FirstVersion.antt =====
-- The first reassembler with a frame of two packets.
use hv_frame_test.Base.{ℕ, zero, suc, ◌<◌, ◌≡◌, ◌≢◌, refl, true, inl, inr, List, [], ◌∷◌, arith}
use hv_frame_test.ReassemblerV1
use hv_frame_test.ReassemblerV1.{
  FrameReassembler, pop_frame, push_packet, accept, is_timeout, frame_complete, collect,
}
use hv_frame_test.Base.SortedMap.{find, emplace}
use hv_frame_test.ReassemblerV1.Assembly.{Push, push_all, concat, IsPart, Covers}
use hv_frame_test.ReassemblerV1.Pop.{pop_frame-push_all}
use hv_frame_test.Tests.Data.{first_header, second_header}

abbrev first : Push
first = record { hdr = first_header; payload = 1 ∷ 2 ∷ 3 ∷ 4 ∷ []; start_time = 9; check_time = 10 }

abbrev second : Push
second = record { hdr = second_header; payload = 5 ∷ 6 ∷ []; start_time = 20; check_time = 20 }

abbrev content : ℕ → List ℕ
content zero = 1 ∷ 2 ∷ 3 ∷ 4 ∷ []
content (suc i) = 5 ∷ 6 ∷ []

-- The second packet comes first, and once more behind the first.
abbrev arrivals : List Push
arrivals = first ∷ second ∷ []

second-IsPart : IsPart 7 2 20 content second
second-IsPart = record {
  own_frame = refl;
  in_range = omega arith;
  bytes = refl;
  in_time = omega arith;
}

first-IsPart : IsPart 7 2 20 content first
first-IsPart = record {
  own_frame = refl;
  in_range = omega arith;
  bytes = refl;
  in_time = omega arith;
}

covered : (i : ℕ) → i < 2 → Covers i (second ∷ arrivals)
covered zero lt = inr (inl refl)
covered (suc zero) lt = inl refl
covered (suc (suc i)) lt = absurd (omega arith)

new_frame : 7 ≢ ReassemblerV1.make.current_frame_id
unfolding ReassemblerV1.make
new_frame = omega arith

pop_frame-push_all_example :
    pop_frame (push_all ReassemblerV1.make (second ∷ arrivals))
    ≡ (ReassemblerV1.reset (push_all ReassemblerV1.make (second ∷ arrivals)), concat content 0 2)
pop_frame-push_all_example =
    pop_frame-push_all ReassemblerV1.make second arrivals content (omega arith) new_frame
      (second-IsPart, (first-IsPart, (second-IsPart, tt))) covered

-- A packet with number 5 of 2 is counted: the frame is complete, and popFrame loses it.
abbrev stray : Push
stray = record {
  hdr = record { frame_id = 7; packet_id = 5; packet_count = 2; payload_size = 2 };
  payload = 5 ∷ 6 ∷ [];
  start_time = 30;
  check_time = 30;
}

stray_completes : frame_complete (push_all ReassemblerV1.make (first ∷ stray ∷ [])) ≡ true
unfolding frame_complete push_all push_packet accept is_timeout find emplace ReassemblerV1.make
stray_completes = refl

stray_loses : (pop_frame (push_all ReassemblerV1.make (first ∷ stray ∷ []))).1 ≡ []
unfolding pop_frame frame_complete collect push_all push_packet accept is_timeout find emplace
    ReassemblerV1.make
stray_loses = refl
