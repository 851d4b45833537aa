-- ===== src/Sender/Failure.antt =====
-- sendFrame over a socket that fails before the frame is out.
use hv_frame_test.Base.{
  ℕ, suc, ◌+◌, ◌<◌, ◌≡◌, refl, ◌⊎◌, inl, inr, true, false, some, List, [], ◌∷◌, ◌++◌, All, ap,
  arith, ltb, lt→ltb, inc16, dec16, inc32, u16_mod,
}
use hv_frame_test.Sender.{
  PollReply, interrupted, poll_failed, writable, not_writable, sent, would_block, send_failed,
  Attempt, broken_off, wait_writable, send_loop, UdpSender, send_frame, packet_count_of,
}
use hv_frame_test.Sender.Loop.{
  IsClean, is_sent, count_sent, datagrams_from, SendReply-cases, round_unready, round_sent,
  round_blocked, round_failed, packet_count-fits, stopped,
}

-- poll fails before it says that the socket is writable, or says that it is before it fails.
abbrev pub PollFails : List PollReply → Type 0
PollFails [] = ⊥
PollFails (interrupted ∷ ps) = PollFails ps
PollFails (not_writable ∷ ps) = PollFails ps
PollFails (poll_failed ∷ ps) = Unit
PollFails (writable ∷ ps) = ⊥

abbrev pub PollReady : List PollReply → Type 0
PollReady [] = ⊥
PollReady (interrupted ∷ ps) = PollReady ps
PollReady (not_writable ∷ ps) = PollReady ps
PollReady (poll_failed ∷ ps) = ⊥
PollReady (writable ∷ ps) = Unit

-- poll fails with an error other than EINTR, or sendto with one other than EAGAIN and EWOULDBLOCK.
abbrev pub Fails : Attempt → Type 0
Fails a = PollFails a.polls ⊎ (PollReady a.polls × (a.reply ≡ send_failed))

PollFails-wait_writable : (ps : List PollReply) → PollFails ps → wait_writable ps ≡ some false
unfolding wait_writable
PollFails-wait_writable [] f = absurd f
PollFails-wait_writable (interrupted ∷ ps) f = PollFails-wait_writable ps f
PollFails-wait_writable (not_writable ∷ ps) f = PollFails-wait_writable ps f
PollFails-wait_writable (poll_failed ∷ ps) f = refl
PollFails-wait_writable (writable ∷ ps) f = absurd f

PollReady-wait_writable : (ps : List PollReply) → PollReady ps → wait_writable ps ≡ some true
unfolding wait_writable
PollReady-wait_writable [] f = absurd f
PollReady-wait_writable (interrupted ∷ ps) f = PollReady-wait_writable ps f
PollReady-wait_writable (not_writable ∷ ps) f = PollReady-wait_writable ps f
PollReady-wait_writable (poll_failed ∷ ps) f = absurd f
PollReady-wait_writable (writable ∷ ps) f = refl

module _ (frame : List ℕ) (id count : ℕ) (fits : count < u16_mod) (a : Attempt) (failure : Fails a)
    (rest : List Attempt) where
  breaks_off :
      (pid : ℕ) → pid < count → send_loop frame id count pid (a ∷ rest) ≡ stopped broken_off
  breaks_off pid lt = elim failure [
    | inl f ↦
        round_unready frame id count pid a rest (lt→ltb pid count lt)
          (PollFails-wait_writable a.polls f)
    | inr (f, e) ↦
        round_failed frame id count pid a rest (lt→ltb pid count lt)
          (PollReady-wait_writable a.polls f) e
  ]

  -- What goes out before the failure.
  send_loop-Fails :
      (pid : ℕ) (before : List Attempt)
      → All IsClean before
      → pid + count_sent before < count
      → send_loop frame id count pid (before ++ a ∷ rest) ≡ record {
        datagrams = datagrams_from frame id count pid (count_sent before);
        status = broken_off;
      }
  send_loop-Fails pid [] clean lt = breaks_off pid (omega arith)
  send_loop-Fails pid (b ∷ before) clean lt = elim (SendReply-cases b.reply) [
    | inl r ↦
        rw
          (
            round_sent frame id count pid b (before ++ a ∷ rest) more clean.0.ready r,
            r,
            forward,
            next,
            send_loop-Fails (pid + 1) before clean.1 (omega (arith, ap is_sent r)),
          )
          refl
    | inr (inl r) ↦
        rw
          (
            round_blocked frame id count pid b (before ++ a ∷ rest) more clean.0.ready r,
            r,
            stay,
            same,
          )
          (send_loop-Fails pid before clean.1 (omega (arith, ap is_sent r)))
    | inr (inr r) ↦ absurd (clean.0.no_error r)
  ]
    where
      more : ltb pid count ≡ true
      more = lt→ltb pid count (omega arith)

      next : is_sent sent + count_sent before ≡ suc (count_sent before)
      next = omega arith

      same : is_sent would_block + count_sent before ≡ count_sent before
      same = omega arith

      forward : inc16 pid ≡ pid + 1
      forward = omega arith

      stay : inc16 (dec16 pid) ≡ pid
      stay = omega arith

pub send_frame-Fails :
    (s : UdpSender) (frame : List ℕ) (before : List Attempt) (a : Attempt) (rest : List Attempt)
    → All IsClean before
    → count_sent before < packet_count_of frame
    → Fails a
    → (send_frame s frame (before ++ a ∷ rest)).1 ≡ record {
      datagrams =
          datagrams_from frame (inc32 s.frame_id) (packet_count_of frame) 0 (count_sent before);
      status = broken_off;
    }
unfolding send_frame
send_frame-Fails s frame before a rest clean lt failure =
    send_loop-Fails frame (inc32 s.frame_id) (packet_count_of frame) (packet_count-fits frame) a
      failure rest 0 before clean (omega arith)
