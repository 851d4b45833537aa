-- ===== src/Tests/Frames.antt =====
-- One frame in its reassembler, its results, its files, and the headers on the wire.
use hv_frame_test.Base.{
  subst, sym, ℕ, zero, suc, ◌≡◌, ◌↔◌, ◌⊎◌, refl, true, false, List, [], ◌∷◌, arith, All,
}
use hv_frame_test.Protocol.{RxPacket}
use hv_frame_test.Reassembler.{init, start_new_frame, push_packet, is_frame_complete}
use hv_frame_test.Reassembler.Inv.{IsValid, Accepts, Rejects, push_packet-IsValid}
use hv_frame_test.Reassembler.Effect.{Stored, push_packet_lem}
use hv_frame_test.Reassembler.Status.{AllReceived, is_frame_complete_iff}
use hv_frame_test.Reassembler.Order.{IsPacket, push_rx}
use hv_frame_test.Reassembler.Sequence.{IsFrom, push_all}
use hv_frame_test.Reassembler.Arrived.{
  mem-either, push_all-same, Arrived, add, assemble, assemble-add,
}
use mathlib.Core.Quot
use mathlib.Core.List.{Mem, Mem-prop, Subset, mem-cons_self, mem-cons_of_mem, not-mem-nil}
use hv_frame_test.Tests.Data.{
  first_header, second_header, first_packet, second_packet, first-HeaderFits, second-HeaderFits,
  started, started-IsValid,
}

after_first-IsValid : IsValid (push_packet started first_header (1 ∷ 2 ∷ 3 ∷ 4 ∷ []) false)
after_first-IsValid =
    push_packet-IsValid started first_header (1 ∷ 2 ∷ 3 ∷ 4 ∷ []) false first-HeaderFits
      started-IsValid

push_packet_lem_example :
    (Accepts started second_header
      × Stored started second_header
          (5 ∷ 6 ∷ [])
          (push_packet started second_header (5 ∷ 6 ∷ []) false))
    ⊎ (Rejects started second_header
        × (push_packet started second_header (5 ∷ 6 ∷ []) false ≡ started))
push_packet_lem_example =
    push_packet_lem started second_header (5 ∷ 6 ∷ []) false started-IsValid second-HeaderFits
      (omega arith)

is_frame_complete_iff_example :
    (is_frame_complete (push_packet started first_header (1 ∷ 2 ∷ 3 ∷ 4 ∷ []) false) ≡ true)
    ↔ AllReceived (push_packet started first_header (1 ∷ 2 ∷ 3 ∷ 4 ∷ []) false)
is_frame_complete_iff_example =
    is_frame_complete_iff (push_packet started first_header (1 ∷ 2 ∷ 3 ∷ 4 ∷ []) false)
      after_first-IsValid

first-IsPacket : IsPacket started.payload_stride first_header (1 ∷ 2 ∷ 3 ∷ 4 ∷ [])
unfolding start_new_frame init
first-IsPacket = record { fits = first-HeaderFits; short = omega arith; present = omega arith }

second-IsPacket : IsPacket started.payload_stride second_header (5 ∷ 6 ∷ [])
unfolding start_new_frame init
second-IsPacket = record { fits = second-HeaderFits; short = omega arith; present = omega arith }

-- The packet of each number.
abbrev content : ℕ → RxPacket
content zero = first_packet
content (suc i) = second_packet

-- The second packet comes twice.
abbrev in_order : List RxPacket
in_order = first_packet ∷ second_packet ∷ second_packet ∷ []

abbrev out_of_order : List RxPacket
out_of_order = second_packet ∷ first_packet ∷ second_packet ∷ []

in_order-IsFrom : All (IsFrom started.payload_stride content) in_order
in_order-IsFrom = (
  record { packet = first-IsPacket; same = refl },
  (
    record { packet = second-IsPacket; same = refl },
    (record { packet = second-IsPacket; same = refl }, tt),
  ),
)

-- The second and the first, the second three times.
abbrev repeated : List RxPacket
repeated = second_packet ∷ second_packet ∷ first_packet ∷ second_packet ∷ []

repeated-IsFrom : All (IsFrom started.payload_stride content) repeated
repeated-IsFrom =
    let (first, (second, _)) = in_order-IsFrom in (second, (second, (first, (second, tt))))

mem_first : Mem first_packet repeated
mem_first = mem-cons_of_mem second_packet (mem-cons_of_mem second_packet mem-cons_self)

in_order-Subset : Subset in_order repeated
in_order-Subset y =
    mem-either first_packet y _ _ Mem-prop (λ e. subst (λ z. Mem z repeated) (sym e) mem_first)
      (mem-either second_packet y _ _ Mem-prop second
        (mem-either second_packet y _ _ Mem-prop second (λ n. absurd (not-mem-nil n))))
  where
    second : y ≡ second_packet → Mem y repeated
    second e = subst (λ z. Mem z repeated) (sym e) mem-cons_self

mem_second : Mem second_packet in_order
mem_second = mem-cons_of_mem first_packet mem-cons_self

repeated-Subset : Subset repeated in_order
repeated-Subset y = mem-either second_packet y _ _ Mem-prop second (
    mem-either second_packet y _ _ Mem-prop second (
      mem-either first_packet y _ _ Mem-prop
        (λ e. subst (λ z. Mem z in_order) (sym e) mem-cons_self)
        (mem-either second_packet y _ _ Mem-prop second (λ n. absurd (not-mem-nil n)))))
  where
    second : y ≡ second_packet → Mem y in_order
    second e = subst (λ z. Mem z in_order) (sym e) mem_second

push_all-same_example : push_all started in_order ≡ push_all started repeated
push_all-same_example =
    push_all-same content started in_order repeated in_order-Subset repeated-Subset in_order-IsFrom
      repeated-IsFrom started-IsValid

abbrev arrived : Arrived started.payload_stride content
arrived = Quot.mk (in_order, in_order-IsFrom)

assemble-add_example :
    (assemble content started started-IsValid
        (add started.payload_stride content first_packet in_order-IsFrom.0 arrived)
      ≡ push_rx (assemble content started started-IsValid arrived) first_packet)
    × (add started.payload_stride content first_packet in_order-IsFrom.0
          (add started.payload_stride content first_packet in_order-IsFrom.0 arrived)
        ≡ add started.payload_stride content first_packet in_order-IsFrom.0 arrived)
    × ((y : RxPacket) (g : IsFrom started.payload_stride content y)
        → add started.payload_stride content first_packet in_order-IsFrom.0
            (add started.payload_stride content y g arrived)
          ≡ add started.payload_stride content y g
              (add started.payload_stride content first_packet in_order-IsFrom.0 arrived))
assemble-add_example =
    assemble-add content started started-IsValid first_packet in_order-IsFrom.0 arrived
