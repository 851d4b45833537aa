-- ===== src/Reassembler/Arrived.antt =====
-- What a frame's reassembler rests on: which packets have come. In what order they came, and how
-- often, is forgotten, here by a quotient.
use mathlib.Core.List.{
  Mem, Mem-prop, Subset, not-mem-nil, mem-cons_self, mem-cons_of_mem, eq-or-mem_of_mem-cons,
  perm_append_comm, perm_append_singleton,
}
use mathlib.Core.Logic.{∥∥₁_elim}
use mathlib.Core.Quot
use mathlib.Core.Quot.{Quot, Quot-set}
use hv_frame_test.Base.{
  ℕ, ◌≡◌, refl, ◌∙◌, sym, ap, subst, ◌⊎◌, inl, inr, List, [], ◌∷◌, ◌++◌, All, All-append, All-snoc,
}
use hv_frame_test.Protocol.{RxPacket}
use hv_frame_test.Reassembler.{FrameReassemblerV2}
use hv_frame_test.Reassembler.Inv.{IsValid, push_packet-IsValid}
use hv_frame_test.Reassembler.Order.{push_rx, push_rx_twice}
use hv_frame_test.Reassembler.Sequence.{
  push_all, IsFrom, push_rx-stride, swap_rx, FrameReassemblerV2-set, push_all-perm,
}

-- The first of the packets, or a later one.
pub mem-either :
    (x y : RxPacket) (xs : List RxPacket) (P : Type 0)
    → IsProp P
    → (y ≡ x → P)
    → (Mem y xs → P)
    → Mem y (x ∷ xs)
    → P
mem-either x y xs P prop here later m = ∥∥₁_elim (eq-or-mem_of_mem-cons m) prop (split here later)
  where
    split : (y ≡ x → P) → (Mem y xs → P) → (y ≡ x) ⊎ Mem y xs → P
    split here later (inl e) = here e
    split here later (inr n) = later n

module _ (content : ℕ → RxPacket) where
  push_rx-All :
      (r : FrameReassemblerV2) (x : RxPacket) (xs : List RxPacket)
      → All (IsFrom r.payload_stride content) xs
      → All (IsFrom (push_rx r x).payload_stride content) xs
  push_rx-All r x xs a = subst (λ s. All (IsFrom s content) xs) (sym (push_rx-stride r x)) a

  push_rx-IsValid :
      (r : FrameReassemblerV2) (x : RxPacket)
      → IsFrom r.payload_stride content x
      → IsValid r
      → IsValid (push_rx r x)
  push_rx-IsValid r x f v = push_packet-IsValid r x.hdr x.payload x.gap_before f.packet.fits v

  -- A packet that comes again later might as well not have come before.
  absorb :
      (xs : List RxPacket) (r : FrameReassemblerV2) (x : RxPacket)
      → IsFrom r.payload_stride content x
      → All (IsFrom r.payload_stride content) xs
      → IsValid r
      → Mem x xs
      → push_all (push_rx r x) xs ≡ push_all r xs
  unfolding push_all
  absorb [] r x f a v m = absurd (not-mem-nil m)
  absorb (y ∷ ys) r x f a v m =
      mem-either y x ys _ (FrameReassemblerV2-set _ _)
        (λ e.
          ap (λ z. push_all (push_rx (push_rx r z) y) ys) e
          ∙ ap (λ t. push_all t ys) (push_rx_twice r y a.0.packet.fits v))
        (λ n.
          ap (λ t. push_all t ys) (swap_rx content r x y f a.0 v)
          ∙ absorb ys (push_rx r y) x (subst (λ s. IsFrom s content x) (sym (push_rx-stride r y)) f)
              (push_rx-All r y ys a.1) (push_rx-IsValid r y a.0 v) n)
        m

  -- So with any number of packets.
  absorb_all :
      (xs ys : List RxPacket) (r : FrameReassemblerV2)
      → All (IsFrom r.payload_stride content) xs
      → All (IsFrom r.payload_stride content) ys
      → IsValid r
      → Subset xs ys
      → push_all (push_all r xs) ys ≡ push_all r ys
  unfolding push_all
  absorb_all [] ys r a b v s = refl
  absorb_all (x ∷ xs) ys r a b v s =
      absorb_all xs ys (push_rx r x) (push_rx-All r x xs a.1) (push_rx-All r x ys b)
        (push_rx-IsValid r x a.0 v) (λ z m. s z (mem-cons_of_mem x m))
      ∙ absorb ys r x a.0 b v (s x mem-cons_self)

push_all-append :
    (xs ys : List RxPacket) (r : FrameReassemblerV2)
    → push_all r (xs ++ ys) ≡ push_all (push_all r xs) ys
unfolding push_all
push_all-append [] ys r = refl
push_all-append (x ∷ xs) ys r = push_all-append xs ys (push_rx r x)

-- Two lists of well-formed packets of one frame with the same packets in them, in whatever order
-- and however often, leave the same object in a valid reassembler.
pub push_all-same :
    (content : ℕ → RxPacket) (r : FrameReassemblerV2) (xs ys : List RxPacket)
    → Subset xs ys
    → Subset ys xs
    → All (IsFrom r.payload_stride content) xs
    → All (IsFrom r.payload_stride content) ys
    → IsValid r
    → push_all r xs ≡ push_all r ys
push_all-same content r xs ys s t a b v =
    sym (absorb_all content ys xs r b a v t)
    ∙ sym (push_all-append ys xs r)
    ∙ push_all-perm content r (ys ++ xs) (xs ++ ys) (perm_append_comm ys xs)
        (All-append (IsFrom r.payload_stride content) ys xs b a) v
    ∙ push_all-append xs ys r
    ∙ absorb_all content xs ys r a b v s

Subset-cons : (x : RxPacket) (xs ys : List RxPacket) → Subset xs ys → Subset (x ∷ xs) (x ∷ ys)
Subset-cons x xs ys s z =
    mem-either x z xs (Mem z (x ∷ ys)) Mem-prop
      (λ e. subst (λ w. Mem w (x ∷ ys)) (sym e) mem-cons_self) (λ n. mem-cons_of_mem x (s z n))

Subset-twice : (x : RxPacket) (xs : List RxPacket) → Subset (x ∷ x ∷ xs) (x ∷ xs)
Subset-twice x xs z =
    mem-either x z (x ∷ xs) (Mem z (x ∷ xs)) Mem-prop
      (λ e. subst (λ w. Mem w (x ∷ xs)) (sym e) mem-cons_self) (λ n. n)

Subset-swap : (x y : RxPacket) (xs : List RxPacket) → Subset (x ∷ y ∷ xs) (y ∷ x ∷ xs)
Subset-swap x y xs z =
    mem-either x z (y ∷ xs) (Mem z (y ∷ x ∷ xs)) Mem-prop
      (λ e. subst (λ w. Mem w (y ∷ x ∷ xs)) (sym e) (mem-cons_of_mem y mem-cons_self))
      (Subset-cons y xs (x ∷ xs) (λ w n. mem-cons_of_mem x n) z)

-- The packets of one frame that have come, up to their order and their number.
module _ (stride : ℕ) (content : ℕ → RxPacket) where
  abbrev Packets : Type 0
  Packets = (xs : List RxPacket) × All (IsFrom stride content) xs

  abbrev SamePackets : Packets → Packets → Type 0
  SamePackets p q = Subset p.0 q.0 × Subset q.0 p.0

  abbrev pub Arrived : Type 0
  Arrived = Quot SamePackets

  -- One more packet.
  pub add : (x : RxPacket) → IsFrom stride content x → Arrived → Arrived
  add x f =
      Quot.lift Quot-set (λ p. Quot.mk (x ∷ p.0, (f, p.1)))
        (λ p q s. Quot.sound (Subset-cons x p.0 q.0 s.0, Subset-cons x q.0 p.0 s.1))

  add_comm :
      (x y : RxPacket) (f : IsFrom stride content x) (g : IsFrom stride content y) (s : Arrived)
      → add x f (add y g s) ≡ add y g (add x f s)
  unfolding add
  add_comm x y f g =
      Quot.ind (λ s. Quot-set _ _) (λ p. Quot.sound (Subset-swap x y p.0, Subset-swap y x p.0))

  add_twice :
      (x : RxPacket) (f : IsFrom stride content x) (s : Arrived) → add x f (add x f s) ≡ add x f s
  unfolding add
  add_twice x f =
      Quot.ind (λ s. Quot-set _ _)
        (λ p. Quot.sound (Subset-twice x p.0, λ z m. mem-cons_of_mem x m))

module _ (content : ℕ → RxPacket) (r : FrameReassemblerV2) (v : IsValid r) where
  -- What the packets make of a reassembler.
  pub assemble : Arrived r.payload_stride content → FrameReassemblerV2
  assemble =
      Quot.lift FrameReassemblerV2-set (λ p. push_all r p.0)
        (λ p q s. push_all-same content r p.0 q.0 s.0 s.1 p.1 q.1 v)

  push_last :
      (x : RxPacket) (xs : List RxPacket)
      → IsFrom r.payload_stride content x
      → All (IsFrom r.payload_stride content) xs
      → push_all r (x ∷ xs) ≡ push_rx (push_all r xs) x
  push_last x xs f a =
      sym (
        push_all-perm content r (xs ++ x ∷ []) (x ∷ xs) (perm_append_singleton x xs)
          (All-snoc (IsFrom r.payload_stride content) xs x a f) v)
      ∙ push_all-append xs (x ∷ []) r
      ∙ unfold push_all in refl

  assemble_step :
      (x : RxPacket) (f : IsFrom r.payload_stride content x) (s : Arrived r.payload_stride content)
      → assemble (add r.payload_stride content x f s) ≡ push_rx (assemble s) x
  unfolding assemble add
  assemble_step x f = Quot.ind (λ s. FrameReassemblerV2-set _ _) (λ p. push_last x p.0 f p.1)

  -- A valid reassembler is a function of the set of the well-formed packets of its frame that have
  -- come. The set is a quotient of the lists of such packets: adding a packet twice is adding it
  -- once, and two packets may be added in either order. To add a packet to the set and put the
  -- frame together is to put it together and push the packet.
  pub assemble-add :
      (x : RxPacket) (f : IsFrom r.payload_stride content x) (s : Arrived r.payload_stride content)
      → (assemble (add r.payload_stride content x f s) ≡ push_rx (assemble s) x)
        × (add r.payload_stride content x f (add r.payload_stride content x f s)
            ≡ add r.payload_stride content x f s)
        × ((y : RxPacket) (g : IsFrom r.payload_stride content y)
            → add r.payload_stride content x f (add r.payload_stride content y g s)
              ≡ add r.payload_stride content y g (add r.payload_stride content x f s))
  assemble-add x f s = (
    assemble_step x f s,
    add_twice r.payload_stride content x f s,
    λ y g. add_comm r.payload_stride content x y f g s,
  )
