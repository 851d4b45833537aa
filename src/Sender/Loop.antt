-- ===== src/Sender/Loop.antt =====
-- The loop of UdpSender::sendFrame, whatever the socket answers.
use hv_frame_test.Base.{
  ℕ, zero, suc, ◌+◌, ◌≤◌, ◌<◌, ◌≡◌, ◌≢◌, refl, ◌∙◌, ap, true, false, none, some, List, [], ◌∷◌,
  arith, ltb, All, inc16, dec16, inc32, u16_mod, le→ltb, ltb→lt, ltb→le, Bool-cases, Option-cases,
  ◌⊎◌, inl, inr,
}
use hv_frame_test.Sender.{
  Attempt, SendReply, sent, would_block, send_failed, Status, finished, broken_off, waiting, Sent,
  wait_writable, send_loop, UdpSender, send_frame, packet_count_of, datagram,
}

-- The datagrams of `k` packets from `pid` on.
abbrev pub datagrams_from : List ℕ → ℕ → ℕ → ℕ → ℕ → List (List ℕ)
datagrams_from frame id count pid zero = []
datagrams_from frame id count pid (suc k) =
    datagram frame id count pid ∷ datagrams_from frame id count (pid + 1) k

-- The output is the packets from `pid` up to some packet, and up to the last if the loop finished.
pub record InOrder (frame : List ℕ) (id count pid : ℕ) (out : Sent) : Type 0 where
  pub k : ℕ
  pub in_range : pid + k ≤ count
  pub exactly : out.datagrams ≡ datagrams_from frame id count pid k
  pub complete : out.status ≡ finished → pid + k ≡ count

-- The socket becomes writable and takes the packet or says that it would block.
pub record IsClean (a : Attempt) : Type 0 where
  pub ready : wait_writable a.polls ≡ some true
  pub no_error : a.reply ≢ send_failed

abbrev pub is_sent : SendReply → ℕ
is_sent sent = 1
is_sent would_block = 0
is_sent send_failed = 0

-- How many attempts the socket takes.
abbrev pub count_sent : List Attempt → ℕ
count_sent [] = 0
count_sent (a ∷ rest) = is_sent a.reply + count_sent rest

pub add_one_le : {a b : ℕ} → a < b → a + 1 ≤ b
add_one_le h = omega arith

abbrev pub stopped : Status → Sent
stopped st = record { datagrams = []; status = st }

pub SendReply-cases : (r : SendReply) → (r ≡ sent) ⊎ (r ≡ would_block) ⊎ (r ≡ send_failed)
SendReply-cases sent = inl refl
SendReply-cases would_block = inr (inl refl)
SendReply-cases send_failed = inr (inr refl)

module _ (frame : List ℕ) (id count pid : ℕ) (a : Attempt) (rest : List Attempt) where
  -- One round of the loop, by what the test and the socket say.
  round_over : ltb pid count ≡ false → send_loop frame id count pid (a ∷ rest) ≡ stopped finished
  unfolding send_loop
  round_over o = rw (o, send_loop)

  round_waits :
      ltb pid count ≡ true
      → wait_writable a.polls ≡ none
      → send_loop frame id count pid (a ∷ rest) ≡ stopped waiting
  unfolding send_loop
  round_waits m w = rw (m, w, send_loop)

  pub round_unready :
      ltb pid count ≡ true
      → wait_writable a.polls ≡ some false
      → send_loop frame id count pid (a ∷ rest) ≡ stopped broken_off
  unfolding send_loop
  round_unready m w = rw (m, w, send_loop)

  module _ (m : ltb pid count ≡ true) (w : wait_writable a.polls ≡ some true) where
    pub round_sent :
        a.reply ≡ sent
        → send_loop frame id count pid (a ∷ rest) ≡ (
            let out = send_loop frame id count (inc16 pid) rest in
            record out { datagrams = datagram frame id count pid ∷ out.datagrams })
    unfolding send_loop
    round_sent r = rw (m, w, r, send_loop)

    pub round_blocked :
        a.reply ≡ would_block
        → send_loop frame id count pid (a ∷ rest)
          ≡ send_loop frame id count (inc16 (dec16 pid)) rest
    unfolding send_loop
    round_blocked r = rw (m, w, r, send_loop)

    pub round_failed :
        a.reply ≡ send_failed → send_loop frame id count pid (a ∷ rest) ≡ stopped broken_off
    unfolding send_loop
    round_failed r = rw (m, w, r, send_loop)

module _ (frame : List ℕ) (id count : ℕ) (fits : count < u16_mod) where
  none_sent :
      (pid : ℕ) (st : Status)
      → pid ≤ count
      → (st ≡ finished → pid ≡ count)
      → InOrder frame id count pid (stopped st)
  none_sent pid st h f = record {
    k = 0;
    in_range = omega arith;
    exactly = refl;
    complete = λ e. omega (arith, f e);
  }

  one_sent :
      (pid : ℕ) (out : Sent)
      → InOrder frame id count (pid + 1) out
      → InOrder frame id count pid
          (record out { datagrams = datagram frame id count pid ∷ out.datagrams })
  one_sent pid out o = record {
    k = suc o.k;
    in_range = omega (arith, o.in_range);
    exactly = ap (λ t. datagram frame id count pid ∷ t) o.exactly;
    complete = λ e. omega (arith, o.complete e);
  }

  attempted :
      (pid : ℕ) (a : Attempt) (rest : List Attempt)
      → ltb pid count ≡ true
      → pid ≤ count
      → pid < count
      → InOrder frame id count (pid + 1) (send_loop frame id count (pid + 1) rest)
      → InOrder frame id count pid (send_loop frame id count pid rest)
      → InOrder frame id count pid (send_loop frame id count pid (a ∷ rest))
  attempted pid a rest m h lt next again = elim (Option-cases (wait_writable a.polls)) [
    | inl w ↦ rw (round_waits frame id count pid a rest m w) (none_sent pid waiting h (λ e. cc))
    | inr (false, w) ↦
        rw (round_unready frame id count pid a rest m w) (none_sent pid broken_off h (λ e. cc))
    | inr (true, w) ↦ elim (SendReply-cases a.reply) [
      | inl r ↦
          rw (round_sent frame id count pid a rest m w r, forward)
            (one_sent pid (send_loop frame id count (pid + 1) rest) next)
      | inr (inl r) ↦ rw (round_blocked frame id count pid a rest m w r, stay) again
      | inr (inr r) ↦
          rw (round_failed frame id count pid a rest m w r) (none_sent pid broken_off h (λ e. cc))
    ]
  ]
    where
      forward : inc16 pid ≡ pid + 1
      forward = omega arith

      stay : inc16 (dec16 pid) ≡ pid
      stay = omega arith

  -- Whatever the socket answers, and wherever the loop breaks off, the packets of a count of 16
  -- bits go out in order from the first on, none twice and none left out, and all of them if the
  -- loop finishes; a packet that would block is not lost.
  pub send_loop-InOrder :
      (pid : ℕ) (as_ : List Attempt)
      → pid ≤ count
      → InOrder frame id count pid (send_loop frame id count pid as_)
  send_loop-InOrder pid [] h = elim (Bool-cases (ltb pid count)) [
    | inl m ↦ unfold send_loop in rw m (none_sent pid waiting h (λ e. cc))
    | inr o ↦
        unfold send_loop in rw o (none_sent pid finished h (λ e. omega (arith, ltb→le pid count o)))
  ]
  send_loop-InOrder pid (a ∷ rest) h = elim (Bool-cases (ltb pid count)) [
    | inr o ↦
        rw (round_over frame id count pid a rest o)
          (none_sent pid finished h (λ e. omega (arith, ltb→le pid count o)))
    | inl m ↦
        attempted pid a rest m h (ltb→lt pid count m)
          (send_loop-InOrder (pid + 1) rest (add_one_le (ltb→lt pid count m)))
          (send_loop-InOrder pid rest h)
  ]

  -- The loop ends once the socket has taken as many packets as are left.
  finishes :
      (pid : ℕ) (as_ : List Attempt)
      → pid ≤ count
      → All IsClean as_
      → count ≤ pid + count_sent as_
      → (send_loop frame id count pid as_).status ≡ finished
  finishes pid [] h c e = unfold send_loop in rw (le→ltb pid count (omega arith)) refl
  finishes pid (a ∷ rest) h c e = elim (Bool-cases (ltb pid count)) [
    | inr o ↦ rw (round_over frame id count pid a rest o) refl
    | inl m ↦ elim (SendReply-cases a.reply) [
      | inl r ↦
          rw (round_sent frame id count pid a rest m c.0.ready r, forward pid (ltb→lt pid count m))
            (finishes (pid + 1) rest (add_one_le (ltb→lt pid count m)) c.1
              (omega (arith, ap is_sent r)))
      | inr (inl r) ↦
          rw (round_blocked frame id count pid a rest m c.0.ready r, stay pid h)
            (finishes pid rest h c.1 (omega (arith, ap is_sent r)))
      | inr (inr r) ↦ absurd (c.0.no_error r)
    ]
  ]
    where
      forward : (i : ℕ) → i < count → inc16 i ≡ i + 1
      forward i lt = omega arith

      stay : (i : ℕ) → i ≤ count → inc16 (dec16 i) ≡ i
      stay i le = omega arith

pub packet_count-fits : (frame : List ℕ) → packet_count_of frame < u16_mod
unfolding packet_count_of
packet_count-fits frame = omega arith

-- sendFrame over a socket that takes every packet in the end: the loop finishes, and each packet of
-- the frame has gone out once, in order, under a new frame number, however often the socket would
-- block in between.
pub send_frame_lem :
    (s : UdpSender) (frame : List ℕ) (attempts : List Attempt)
    → All IsClean attempts
    → packet_count_of frame ≤ count_sent attempts
    → let (s', out) = send_frame s frame attempts in
      (s'.frame_id ≡ inc32 s.frame_id)
      × (out.status ≡ finished)
      × (out.datagrams
          ≡ datagrams_from frame s'.frame_id (packet_count_of frame) 0 (packet_count_of frame))
unfolding send_frame
send_frame_lem s frame attempts clean enough = (refl, done, all_of_them)
  where
    id : ℕ
    id = inc32 s.frame_id

    count : ℕ
    count = packet_count_of frame

    done : (send_loop frame id count 0 attempts).status ≡ finished
    done =
        finishes frame id count (packet_count-fits frame) 0 attempts (omega arith) clean
          (omega arith)

    order : InOrder frame id count 0 (send_loop frame id count 0 attempts)
    order = send_loop-InOrder frame id count (packet_count-fits frame) 0 attempts (omega arith)

    all_of_them :
        (send_loop frame id count 0 attempts).datagrams ≡ datagrams_from frame id count 0 count
    all_of_them =
        order.exactly ∙ ap (datagrams_from frame id count 0) (omega (arith, order.complete done))
