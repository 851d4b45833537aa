-- ===== src/System/Late.antt =====
-- A datagram that comes while the worker is on its way out.
use Prim.Native.String.{String}
use hv_frame_test.Base.{ℕ, ◌<◌, ◌≡◌, refl, Bool, true, List, [], ◌∷◌, ◌++◌, arith, length, inl, inr}
use hv_frame_test.Protocol.{RxPacket}
use hv_frame_test.PacketQueue.{PacketQueue, push}
use hv_frame_test.PacketQueue.Fifo.{push_lem}
use hv_frame_test.Receiver.Fits.{IsBytes}
use hv_frame_test.Receiver.Rx.{rx_datagram, queued}
use hv_frame_test.System.State.{System, polling, leaving, sleeping, returned}
use hv_frame_test.System.Steps.{
  Event, rx_stops, rx_takes, rx_pushes, flushes, main_sees, main_joins_rx, main_joins_worker, moves,
  Reach, later,
}

push_room :
    (q : PacketQueue RxPacket) (x : RxPacket)
    → length q.q < q.capacity
    → (push q x).0.q ≡ q.q ++ x ∷ []
push_room q x room = elim (push_lem q x) [
  | inl (_, e) ↦ rw e refl
  | inr (full, e) ↦ absurd (omega arith)
]

-- From a reachable state in which the worker is about to call flushAll, the receiving thread is
-- still in poll, the flag is set, main still sleeps and the queue has room: with a datagram of
-- bytes that becomes a packet, the program can come to its end with that packet, which the queue
-- has taken, left in the queue behind what it held.
pub stranded :
    (can_open : String → Bool) (trace : List Event) (s : System) (bytes : List ℕ) (x : RxPacket)
    → Reach can_open trace s
    → s.rx ≡ polling
    → s.pc ≡ leaving
    → s.shutdown ≡ true
    → s.main ≡ sleeping
    → length s.queue.q < s.queue.capacity
    → IsBytes bytes
    → rx_datagram bytes ≡ queued x
    → (trace' : List Event) × (t : System) × Reach can_open trace' t
      × (t.main ≡ returned)
      × (t.queue.q ≡ s.queue.q ++ x ∷ [])
stranded can_open trace s bytes x r rx pc on main room fits becomes = (
  _,
  _,
  later
      (later
        (later
          (later
            (later
              (later (later r (moves (rx_takes bytes x rx fits becomes)))
                (moves (rx_pushes x refl)))
              (moves (rx_stops refl on)))
            (moves (flushes pc)))
          (moves (main_sees main on)))
        (moves (main_joins_rx refl refl)))
      (moves (main_joins_worker refl refl)),
  refl,
  push_room s.queue x room,
)
