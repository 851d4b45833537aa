-- ===== src/Receiver/Loop.antt =====
-- udp_rx_thread: its loop over poll and recvfrom, and what it puts into the queue.
use hv_frame_test.Base.{
  ℕ, ◌≤◌, ◌≡◌, ◌≢◌, refl, ◌∙◌, sym, ap, Bool, true, false, List, [], ◌∷◌, ◌++◌, All, length,
  if◌then◌else◌, Bool-cases, ◌⊎◌, inl, inr,
}
use hv_frame_test.Protocol.{RxPacket}
use hv_frame_test.PacketQueue.{PacketQueue, World, Action, act_all, push}
use hv_frame_test.Receiver.Rx.{
  RxOutcome, ignored, queued, overrun, rx_datagram, queue_packet, received,
}
use hv_frame_test.Receiver.Bounds.{rx_datagram_safe}

-- What one call of poll, and of recvfrom behind it, says: a signal, another error, the time limit of
-- 100 ms, an event that is not POLLIN, an error of recvfrom, or a datagram.
pub data RxReply : Type 0 where
  signalled poll_error timed_out no_input recv_error : RxReply
  arrived : List ℕ → RxReply

-- One round of the loop, with what the other threads do before the push and behind it.
pub record RxRound : Type 0 where
  pub before_push : List (Action RxPacket)
  pub reply : RxReply
  pub behind : List (Action RxPacket)

-- The loop goes on, has ended because of the flag, has broken off, or has run past a packet's end.
pub data RxStatus : Type 0 where
  running stopped broken corrupt : RxStatus

-- The packets that the thread has handed to the queue, in order.
pub record RxRun : Type 0 where
  pub world : World RxPacket
  pub pushed : List RxPacket
  pub status : RxStatus

push_to : World RxPacket → RxPacket → World RxPacket
push_to w x = record w { queue = (push w.queue x).0 }

pub rx_loop : World RxPacket → List RxRound → RxRun
unfolding push_to
rx_loop w [] = record { world = w; pushed = []; status = if w.shutdown then stopped else running }
rx_loop w (i ∷ rest) = elim w.shutdown [
  | true ↦ record { world = w; pushed = []; status = stopped }
  | false ↦
      let w1 = act_all w i.before_push in
      elim i.reply [
        | poll_error ↦ record { world = act_all w1 i.behind; pushed = []; status = broken }
        | signalled ↦ rx_loop (act_all w1 i.behind) rest
        | timed_out ↦ rx_loop (act_all w1 i.behind) rest
        | no_input ↦ rx_loop (act_all w1 i.behind) rest
        | recv_error ↦ rx_loop (act_all w1 i.behind) rest
        | arrived bytes ↦ elim (rx_datagram bytes) [
          | ignored ↦ rx_loop (act_all w1 i.behind) rest
          | queued x ↦
              let later = rx_loop (act_all (push_to w1 x) i.behind) rest in
              record later { pushed = x ∷ later.pushed }
          | overrun ↦ record { world = w1; pushed = []; status = corrupt }
        ]
      ]
]

-- The datagrams of the rounds, in order.
abbrev pub datagrams_of : List RxRound → List (List ℕ)
datagrams_of [] = []
datagrams_of (i ∷ rest) = elim i.reply [
  | arrived bytes ↦ bytes ∷ datagrams_of rest
  | _ ↦ datagrams_of rest
]

-- A datagram that comes in is one of at most 1512 bytes, that is, of 1500 behind the header.
abbrev pub IsShort : RxRound → Type 0
IsShort i = elim i.reply [ arrived bytes ↦ length bytes ≤ 1512 | _ ↦ Unit ]

-- The run hands over the packets of the datagrams, in order, up to some point, and all of them if the
-- loop goes on.
pub record Feeds (rounds : List RxRound) (r : RxRun) : Type 0 where
  unharmed : r.status ≢ corrupt
  pub later : List RxPacket
  pub in_order : r.pushed ++ later ≡ received (datagrams_of rounds)
  all_if_running : (later ≡ []) ⊎ (r.status ≢ running)

RxOutcome-cases :
    (o : RxOutcome) → (o ≡ ignored) ⊎ ((x : RxPacket) × (o ≡ queued x)) ⊎ (o ≡ overrun)
RxOutcome-cases ignored = inl refl
RxOutcome-cases (queued x) = inr (inl (x, refl))
RxOutcome-cases overrun = inr (inr refl)

abbrev ended : World RxPacket → RxStatus → RxRun
ended w st = record { world = w; pushed = []; status = st }

ended-Feeds :
    (rounds : List RxRound) (w : World RxPacket) (st : RxStatus)
    → st ≢ corrupt
    → st ≢ running
    → Feeds rounds (ended w st)
ended-Feeds rounds w st safe off = record {
  unharmed = safe;
  later = received (datagrams_of rounds);
  in_order = refl;
  all_if_running = inr off;
}

-- A round without a datagram adds nothing.
skipped-Feeds :
    (rounds rest : List RxRound) (r : RxRun)
    → datagrams_of rounds ≡ datagrams_of rest
    → Feeds rest r
    → Feeds rounds r
skipped-Feeds rounds rest r e g = record {
  unharmed = g.unharmed;
  later = g.later;
  in_order = g.in_order ∙ ap received (sym e);
  all_if_running = g.all_if_running;
}

module _ (q : PacketQueue RxPacket) (before behind : List (Action RxPacket)) (rest : List RxRound)
    (go_on : (v : World RxPacket) → Feeds rest (rx_loop v rest)) where
  abbrev w : World RxPacket
  w = record { queue = q; shutdown = false }

  arrived-Feeds :
      (bytes : List ℕ)
      → length bytes ≤ 1512
      → Feeds (record { before_push = before; reply = arrived bytes; behind = behind } ∷ rest) (
          rx_loop w
            (record { before_push = before; reply = arrived bytes; behind = behind } ∷ rest))
  unfolding rx_loop received
  arrived-Feeds bytes short = elim (RxOutcome-cases (rx_datagram bytes)) [
    | inl e ↦
        let g = go_on (act_all (act_all w before) behind) in
        rw (e, rx_loop)
          (record {
            unharmed = g.unharmed;
            later = g.later;
            in_order = g.in_order ∙ ap (λ o. queue_packet o (received (datagrams_of rest))) (sym e);
            all_if_running = g.all_if_running;
          })
    | inr (inl (x, e)) ↦
        let g = go_on (act_all (push_to (act_all w before) x) behind) in
        rw (e, rx_loop)
          (record {
            unharmed = g.unharmed;
            later = g.later;
            in_order =
                ap (λ l. x ∷ l) g.in_order
                ∙ ap (λ o. queue_packet o (received (datagrams_of rest))) (sym e);
            all_if_running = g.all_if_running;
          })
    | inr (inr e) ↦ absurd (rx_datagram_safe bytes short e)
  ]

  reply-Feeds :
      (r : RxReply)
      → IsShort (record { before_push = before; reply = r; behind = behind })
      → Feeds
          (record { before_push = before; reply = r; behind = behind } ∷ rest)
          (rx_loop w (record { before_push = before; reply = r; behind = behind } ∷ rest))
  reply-Feeds (arrived bytes) short = arrived-Feeds bytes short
  reply-Feeds signalled short =
      unfold rx_loop in (skipped-Feeds _ rest _ refl (go_on (act_all (act_all w before) behind)))
  reply-Feeds timed_out short =
      unfold rx_loop in (skipped-Feeds _ rest _ refl (go_on (act_all (act_all w before) behind)))
  reply-Feeds no_input short =
      unfold rx_loop in (skipped-Feeds _ rest _ refl (go_on (act_all (act_all w before) behind)))
  reply-Feeds recv_error short =
      unfold rx_loop in (skipped-Feeds _ rest _ refl (go_on (act_all (act_all w before) behind)))
  reply-Feeds poll_error short = unfold rx_loop in (ended-Feeds _ _ broken (λ e. cc) (λ e. cc))

round-Feeds :
    (q : PacketQueue RxPacket) (shutdown : Bool) (i : RxRound) (rest : List RxRound)
    → IsShort i
    → ((v : World RxPacket) → Feeds rest (rx_loop v rest))
    → Feeds (i ∷ rest) (rx_loop (record { queue = q; shutdown = shutdown }) (i ∷ rest))
round-Feeds q true i rest short go_on =
    unfold rx_loop in ended-Feeds (i ∷ rest) _ stopped (λ e. cc) (λ e. cc)
round-Feeds q false i rest short go_on =
    reply-Feeds q i.before_push i.behind rest go_on i.reply short

-- Of datagrams of at most 1512 bytes, udp_rx_thread's loop hands over the packets, in order, up to
-- the point where it stops or breaks off, and all of them if it still runs; it runs past no
-- packet's end.
pub rx_loop_lem :
    (w : World RxPacket) (rounds : List RxRound)
    → All IsShort rounds
    → Feeds rounds (rx_loop w rounds)
rx_loop_lem w [] short = record {
  unharmed = unfold rx_loop in λ e. elim (Bool-cases w.shutdown) [ inl q ↦ cc | inr q ↦ cc ];
  later = [];
  in_order = unfold rx_loop received in refl;
  all_if_running = inl refl;
}
rx_loop_lem w (i ∷ rest) short =
    round-Feeds w.queue w.shutdown i rest short.0 (λ v. rx_loop_lem v rest short.1)
