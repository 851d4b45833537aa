-- ===== src/Reassembler/Sequence.antt =====
-- A sequence of calls of pushPacket, as one frame's packets come in.
use mathlib.Core.List.{Perm, Permᴰ}
use mathlib.Core.Logic.{∥∥₁_elim}
use hv_frame_test.Base.{
  ℕ, ◌≡◌, refl, ◌∙◌, ap, ap₂, sym, List, [], ◌∷◌, All, arith, subst, ℕ_discrete,
}
use hv_frame_test.Protocol.{RxPacket}
use hv_frame_test.Reassembler.{FrameReassemblerV2, push_packet, store}
use hv_frame_test.Reassembler.Inv.{IsValid, push_packet-IsValid}
use hv_frame_test.Reassembler.Order.{IsPacket, push_rx, push_packet_comm}

unfoldable pub push_all : FrameReassemblerV2 → List RxPacket → FrameReassemblerV2
push_all r [] = r
push_all r (x ∷ xs) = push_all (push_rx r x) xs

-- Packets of one frame: well formed, and one content for each packet number.
pub record IsFrom (stride : ℕ) (content : ℕ → RxPacket) (x : RxPacket) : Type 0 where
  pub packet : IsPacket stride x.hdr x.payload
  pub same : x ≡ content x.hdr.packet_id

pub push_rx-stride :
    (r : FrameReassemblerV2) (x : RxPacket) → (push_rx r x).payload_stride ≡ r.payload_stride
unfolding push_packet store
push_rx-stride r x = ground arith

pub push_all-IsValid :
    (content : ℕ → RxPacket) (r : FrameReassemblerV2) (xs : List RxPacket)
    → All (IsFrom r.payload_stride content) xs
    → IsValid r
    → IsValid (push_all r xs)
unfolding push_all
push_all-IsValid content r [] a v = v
push_all-IsValid content r (x ∷ xs) a v =
    push_all-IsValid content (push_rx r x) xs
      (subst (λ s. All (IsFrom s content) xs) (sym (push_rx-stride r x)) a.1)
      (push_packet-IsValid r x.hdr x.payload x.gap_before a.0.packet.fits v)

module _ (content : ℕ → RxPacket) where
  pub swap_rx :
      (r : FrameReassemblerV2) (x y : RxPacket)
      → IsFrom r.payload_stride content x
      → IsFrom r.payload_stride content y
      → IsValid r
      → push_rx (push_rx r x) y ≡ push_rx (push_rx r y) x
  swap_rx r x y fx fy v = elim (ℕ_discrete x.hdr.packet_id y.hdr.packet_id) [
    | yes e ↦
        let one : x ≡ y = fx.same ∙ ap content e ∙ sym fy.same in
        ap₂ (λ a b. push_rx (push_rx r a) b) one (sym one)
    | no ne ↦
        push_packet_comm r x.hdr y.hdr x.payload y.payload x.gap_before y.gap_before fx.packet
          fy.packet ne v
  ]

  All-permᴰ :
      (s : ℕ) {xs ys : List RxPacket}
      → Permᴰ xs ys
      → All (IsFrom s content) xs
      → All (IsFrom s content) ys
  All-permᴰ s Permᴰ.nil a = tt
  All-permᴰ s (Permᴰ.cons e d) a = (subst (IsFrom s content) e a.0, All-permᴰ s d a.1)
  All-permᴰ s (Permᴰ.swap e e') a =
      (subst (IsFrom s content) e' a.1.0, (subst (IsFrom s content) e a.0, a.1.1))
  All-permᴰ s (Permᴰ.trans d d') a = All-permᴰ s d' (All-permᴰ s d a)

  push_all-permᴰ :
      (r : FrameReassemblerV2) {xs ys : List RxPacket}
      → Permᴰ xs ys
      → All (IsFrom r.payload_stride content) xs
      → IsValid r
      → push_all r xs ≡ push_all r ys
  unfolding push_all
  push_all-permᴰ r Permᴰ.nil a v = refl
  push_all-permᴰ r (Permᴰ.cons {a = x} {l₁ = l} {l₂ = m} e d) a v =
      push_all-permᴰ (push_rx r x) d
        (subst (λ s. All (IsFrom s content) l) (sym (push_rx-stride r x)) a.1)
        (push_packet-IsValid r x.hdr x.payload x.gap_before a.0.packet.fits v)
      ∙ ap (λ t. push_all (push_rx r t) m) e
  push_all-permᴰ r (Permᴰ.swap {a = x} {b = y} {l = l} e e') a v =
      ap (λ t. push_all t l) (swap_rx r x y a.0 a.1.0 v ∙ ap₂ (λ s t. push_rx (push_rx r s) t) e' e)
  push_all-permᴰ r (Permᴰ.trans d d') a v =
      push_all-permᴰ r d a v ∙ push_all-permᴰ r d' (All-permᴰ r.payload_stride d a) v

pub FrameReassemblerV2-set : IsSet FrameReassemblerV2
FrameReassemblerV2-set = hlevel

-- Well-formed packets of one frame, duplicates included, leave the same object in a valid
-- reassembler whatever order they come in.
pub push_all-perm :
    (content : ℕ → RxPacket) (r : FrameReassemblerV2) (xs ys : List RxPacket)
    → Perm xs ys
    → All (IsFrom r.payload_stride content) xs
    → IsValid r
    → push_all r xs ≡ push_all r ys
push_all-perm content r xs ys p a v =
    ∥∥₁_elim p (FrameReassemblerV2-set _ _) (λ d. push_all-permᴰ content r d a v)
