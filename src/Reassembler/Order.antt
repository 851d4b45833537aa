-- ===== src/Reassembler/Order.antt =====
-- Two calls of pushPacket, one after the other, in either order.
use hv_frame_test.Base.{
  ℕ, ◌+◌, ◌*◌, ◌≤◌, ◌<◌, max, ◌≡◌, refl, ◌∙◌, sym, ◌⊎◌, inl, inr, ◌≢◌, Bool, true, false, List,
  arith, length, take, length-take, get_or-set_ne, get_or-set_self, set_comm, copy_at_comm, u32_mod,
  inc16, dec_lt, add_size,
}
use hv_frame_test.Protocol.{UdpPacketHeader, RxPacket}
use hv_frame_test.Reassembler.{FrameReassemblerV2, offset_of, store, push_packet}
use hv_frame_test.Reassembler.Inv.{
  IsValid, HeaderFits, Accepts, Rejects, push_packet-cases, offset_of_lem, push_packet-accepted,
  push_packet-rejected,
}

-- A packet as the receiver makes them: no payload is longer than the stride between packets.
pub record IsPacket (stride : ℕ) (h : UdpPacketHeader) (p : List ℕ) : Type 0 where
  pub fits : HeaderFits h
  pub short : h.payload_size ≤ stride
  pub present : h.payload_size ≤ length p

-- Distinct multiples of the stride are at least the stride apart.
pub apart : (a b s : ℕ) → a < b → a * s + s ≤ b * s
apart a b s h = grind arith

module _ (r : FrameReassemblerV2) (h k : UdpPacketHeader) (p q : List ℕ)
    (hp : IsPacket r.payload_stride h p) (kq : IsPacket r.payload_stride k q)
    (ne : h.packet_id ≢ k.packet_id) (v : IsValid r) where
  Accepts-store : Accepts r k → Accepts (store r h p) k
  unfolding store
  Accepts-store a = record {
    in_range = a.in_range;
    is_new = get_or-set_ne r.packet_received h.packet_id k.packet_id true false ne ∙ a.is_new;
    has_room = a.has_room;
  }

  Rejects-store : Rejects r k → Rejects (store r h p) k
  unfolding store
  Rejects-store (inl out) = inl out
  Rejects-store (inr (inl dup)) =
      inr (inl (get_or-set_ne r.packet_received h.packet_id k.packet_id true false ne ∙ dup))
  Rejects-store (inr (inr big)) = inr (inr big)

  ranges_apart :
      (offset_of r h.packet_id + length (take h.payload_size p) ≤ offset_of r k.packet_id)
      ⊎ (offset_of r k.packet_id + length (take k.payload_size q) ≤ offset_of r h.packet_id)
  ranges_apart = elim (dec_lt h.packet_id k.packet_id) [
    | yes lt ↦ inl (
        omega (
          arith,
          hp.short,
          kq.short,
          offset_of_lem r h.packet_id v.stride_fits hp.fits.packet_id_fits,
          offset_of_lem r k.packet_id v.stride_fits kq.fits.packet_id_fits,
          length-take h.payload_size p,
          length-take k.payload_size q,
          apart h.packet_id k.packet_id r.payload_stride lt,
        ))
    | no ge ↦ inr (
        omega (
          arith,
          hp.short,
          kq.short,
          offset_of_lem r h.packet_id v.stride_fits hp.fits.packet_id_fits,
          offset_of_lem r k.packet_id v.stride_fits kq.fits.packet_id_fits,
          length-take h.payload_size p,
          length-take k.payload_size q,
          apart k.packet_id h.packet_id r.payload_stride (omega (arith, ne)),
        ))
  ]

  store_comm : store (store r h p) k q ≡ store (store r k q) h p
  unfolding store
  store_comm = λ i. record r {
    frame_size = sizes i;
    received_packets_count = inc16 (inc16 r.received_packets_count);
    frame_buffer =
        copy_at_comm r.frame_buffer (offset_of r h.packet_id) (take h.payload_size p)
          (offset_of r k.packet_id) (take k.payload_size q) ranges_apart i;
    packet_received = set_comm r.packet_received h.packet_id k.packet_id true i;
  }
    where
      end : UdpPacketHeader → ℕ
      end x = add_size (offset_of r x.packet_id) x.payload_size

      sizes : max (max r.frame_size (end h)) (end k) ≡ max (max r.frame_size (end k)) (end h)
      sizes = omega arith

-- Two well-formed packets with different numbers may be pushed into a valid reassembler in either
-- order: the object that results is the same, whichever of them is stored, a duplicate, out of
-- range or too long.
pub push_packet_comm :
    (r : FrameReassemblerV2) (h k : UdpPacketHeader) (p q : List ℕ) (g e : Bool)
    → IsPacket r.payload_stride h p
    → IsPacket r.payload_stride k q
    → h.packet_id ≢ k.packet_id
    → IsValid r
    → push_packet (push_packet r h p g) k q e ≡ push_packet (push_packet r k q e) h p g
unfolding store
push_packet_comm r h k p q g e hp kq ne v = elim (push_packet-cases r h p g s hp.fits) [
  | inl (ah, eh) ↦ elim (push_packet-cases r k q e s kq.fits) [
    | inl (ak, ek) ↦
        rw
          (
            eh,
            ek,
            push_packet-accepted (store r h p) k q e s kq.fits
                (Accepts-store r h k p q hp kq ne v ak),
            push_packet-accepted (store r k q) h p g s hp.fits
                (Accepts-store r k h q p kq hp (λ x. ne (sym x)) v ah),
          )
          (store_comm r h k p q hp kq ne v)
    | inr (rk, ek) ↦
        rw (ek, eh)
          (push_packet-rejected (store r h p) k q e s kq.fits
            (Rejects-store r h k p q hp kq ne v rk))
  ]
  | inr (rh, eh) ↦ elim (push_packet-cases r k q e s kq.fits) [
    | inl (ak, ek) ↦
        rw (eh, ek)
          (sym (
            push_packet-rejected (store r k q) h p g s hp.fits
              (Rejects-store r k h q p kq hp (λ x. ne (sym x)) v rh)))
    | inr (rk, ek) ↦ rw (eh, ek, eh)
  ]
]
  where
    s : r.payload_stride < u32_mod
    s = v.stride_fits

-- A packet with what the receiver thread records of it.
abbrev pub push_rx : FrameReassemblerV2 → RxPacket → FrameReassemblerV2
push_rx r x = push_packet r x.hdr x.payload x.gap_before

store-Rejects :
    (r : FrameReassemblerV2) (h : UdpPacketHeader) (p : List ℕ)
    → IsValid r
    → Accepts r h
    → Rejects (store r h p) h
unfolding store
store-Rejects r h p v a = inr (
    inl (
      get_or-set_self r.packet_received h.packet_id true false
        (omega (arith, v.flags, a.in_range))))

-- A packet that is pushed again at once changes nothing.
pub push_rx_twice :
    (r : FrameReassemblerV2) (x : RxPacket)
    → HeaderFits x.hdr
    → IsValid r
    → push_rx (push_rx r x) x ≡ push_rx r x
unfolding store
push_rx_twice r x f v = elim (push_packet-cases r x.hdr x.payload x.gap_before v.stride_fits f) [
  | inl (a, e) ↦ rw e (
      push_packet-rejected (store r x.hdr x.payload) x.hdr x.payload x.gap_before v.stride_fits f
        (store-Rejects r x.hdr x.payload v a))
  | inr (_, e) ↦ rw (e, e) refl
]
