-- ===== src/DebugLog/Crossing.antt =====
-- What two threads that trace at once leave in the ring.
use Prim.Native.String.{String}
use mathlib.Core.List.{append-nil}
use hv_frame_test.Base.{
  ℕ, ◌+◌, ◌-◌, ◌%◌, ◌≤◌, ◌<◌, ◌≡◌, ◌≢◌, ◌∙◌, ap, sym, subst, ◌^◌, Bool, true, Option, some, none,
  List, [], ◌∷◌, ◌++◌, arith, length, get_or, set, drop, length-set, length-append, get_or-set_self,
  get_or-set_ne, ℕ_discrete,
}
use hv_frame_test.Base.Bits.{bit_and_4095}
use hv_frame_test.DebugLog.{PacketTraceEntry, DebugLog, blank, claim, fill, dump_ring}
use hv_frame_test.DebugLog.Ring.{
  numbered, get_or-append_left, get_or_last, initial-Holds, dump-Holds,
}
use hv_frame_test.DebugLog.Tracers.{
  Pending, Tracing, TraceStep, rx_claims, worker_claims, rx_fills, worker_fills, TraceReach,
  untraced, traced, FillsInTime, IsPrompt,
}

-- The entry that a thread has yet to write is that of its number.
abbrev Owed : List PacketTraceEntry → Option Pending → Type 0
Owed es none = Unit
Owed es (some (q, e)) = (q < length es) × (get_or es q blank ≡ e)

-- The number is not the one that the thread has yet to write for.
abbrev NotOwed : ℕ → Option Pending → Type 0
NotOwed i none = Unit
NotOwed i (some (q, e)) = q ≢ i

-- The ring has the last entries, but for those that are yet to be written.
record HoldsBut (es : List PacketTraceEntry) (l : DebugLog) (a b : Option Pending) : Type 0 where
  written : l.write_seq ≡ length es
  ring_size : length l.ring ≡ 4096
  owed_a : Owed es a
  owed_b : Owed es b
  recent :
      (i : ℕ)
      → i < length es
      → length es ≤ i + 4096
      → NotOwed i a
      → NotOwed i b
      → get_or l.ring (i % 4096) blank ≡ get_or es i blank

HoldsBut-swap :
    (es : List PacketTraceEntry) (l : DebugLog) (a b : Option Pending)
    → HoldsBut es l a b
    → HoldsBut es l b a
HoldsBut-swap es l a b h = record {
  written = h.written;
  ring_size = h.ring_size;
  owed_a = h.owed_b;
  owed_b = h.owed_a;
  recent = λ i lt near p q. h.recent i lt near q p;
}

Owed-snoc :
    (es : List PacketTraceEntry) (e : PacketTraceEntry) (b : Option Pending)
    → Owed es b
    → Owed (es ++ e ∷ []) b
Owed-snoc es e none o = tt
Owed-snoc es e (some (q, e')) (lt, own) =
    (omega (arith, length-append es (e ∷ [])), get_or-append_left es (e ∷ []) q blank lt ∙ own)

claim-HoldsBut :
    (es : List PacketTraceEntry) (l : DebugLog) (e : PacketTraceEntry) (b : Option Pending)
    → length (es ++ e ∷ []) < 2 ^ 64
    → HoldsBut es l none b
    → HoldsBut (es ++ e ∷ []) (claim l) (some (l.write_seq, e)) b
unfolding claim
claim-HoldsBut es l e b room h =
    let size = length-append es (e ∷ []) in
    record {
      written = omega (arith, h.written, size);
      ring_size = h.ring_size;
      owed_a = (
        omega (arith, h.written, size),
        ap (λ n. get_or (es ++ e ∷ []) n blank) h.written ∙ get_or_last es e blank,
      );
      owed_b = Owed-snoc es e b h.owed_b;
      recent = λ i lt near p q.
          let below : i < length es = omega (arith, h.written, size, p) in
          h.recent i below (omega (arith, size)) tt q
          ∙ sym (get_or-append_left es (e ∷ []) i blank below);
    }

fill-HoldsBut :
    (es : List PacketTraceEntry) (l : DebugLog) (q : ℕ) (e : PacketTraceEntry) (b : Option Pending)
    → l.write_seq ≤ q + 4096
    → HoldsBut es l (some (q, e)) b
    → HoldsBut es (fill l q e) none b
unfolding fill
fill-HoldsBut es l q e b prompt h = record {
  written = h.written;
  ring_size = length-set l.ring _ e ∙ h.ring_size;
  owed_a = tt;
  owed_b = h.owed_b;
  recent = λ i lt near _ p.
      ap (λ k. get_or (set l.ring k e) (i % 4096) blank) (bit_and_4095 q) ∙ elim (ℕ_discrete q i) [
        | yes mine ↦
            ap (λ k. get_or (set l.ring (q % 4096) e) (k % 4096) blank) (sym mine)
            ∙ get_or-set_self l.ring (q % 4096) e blank (omega (arith, h.ring_size))
            ∙ sym (h.owed_a.1)
            ∙ ap (λ k. get_or es k blank) mine
        | no other ↦
            get_or-set_ne l.ring (q % 4096) (i % 4096) e blank
              (λ same. omega (arith, h.written, h.owed_a.0, other))
            ∙ h.recent i lt near other p
      ];
}

step-HoldsBut :
    (es new : List PacketTraceEntry) (s t : Tracing) (st : TraceStep s new t)
    → FillsInTime st
    → length (es ++ new) < 2 ^ 64
    → HoldsBut es s.log s.rx s.worker
    → HoldsBut (es ++ new) t.log t.rx t.worker
step-HoldsBut es new s t (rx_claims e idle) prompt room h =
    claim-HoldsBut es s.log e s.worker room (subst (λ a. HoldsBut es s.log a s.worker) idle h)
step-HoldsBut es new s t (worker_claims e idle) prompt room h = HoldsBut-swap _ _ _ _ (
    claim-HoldsBut es s.log e s.rx room
      (HoldsBut-swap _ _ _ _ (subst (λ b. HoldsBut es s.log s.rx b) idle h)))
step-HoldsBut es new s t (rx_fills q e owes) prompt room h =
    subst (λ l. HoldsBut l (fill s.log q e) none s.worker) (sym (append-nil es))
      (fill-HoldsBut es s.log q e s.worker prompt
        (subst (λ a. HoldsBut es s.log a s.worker) owes h))
step-HoldsBut es new s t (worker_fills q e owes) prompt room h =
    subst (λ l. HoldsBut l (fill s.log q e) s.rx none) (sym (append-nil es))
      (HoldsBut-swap _ _ _ _ (
        fill-HoldsBut es s.log q e s.rx prompt
          (HoldsBut-swap _ _ _ _ (subst (λ b. HoldsBut es s.log s.rx b) owes h))))

reach-HoldsBut :
    (es : List PacketTraceEntry) (s : Tracing) (r : TraceReach es s)
    → IsPrompt r
    → length es < 2 ^ 64
    → HoldsBut es s.log s.rx s.worker
reach-HoldsBut es s untraced p room = record {
  written = initial-Holds.written;
  ring_size = initial-Holds.ring_size;
  owed_a = tt;
  owed_b = tt;
  recent = λ i lt. absurd (omega arith);
}
reach-HoldsBut es s (traced {es = es'} {new} {s = s'} {t} r st) (p, q) room =
    step-HoldsBut es' new s' t st q room
      (reach-HoldsBut es' s' r p (omega (arith, length-append es' new)))

-- c
pub crossing_dump :
    (can_open : String → Bool) (path : String) {es : List PacketTraceEntry} {s : Tracing}
    (r : TraceReach es s)
    → can_open path ≡ true
    → IsPrompt r
    → length es < 2 ^ 64
    → s.rx ≡ none
    → s.worker ≡ none
    → dump_ring can_open s.log path
      ≡ some (numbered (length es - 4096) (drop (length es - 4096) es))
crossing_dump can_open path {es} {s} r opens prompt room rx_idle worker_idle =
    let h = reach-HoldsBut es s r prompt room in
    dump-Holds can_open path s.log es opens (record {
      written = h.written;
      ring_size = h.ring_size;
      recent = λ i lt near.
          h.recent i lt near (subst (NotOwed i) (sym rx_idle) tt)
            (subst (NotOwed i) (sym worker_idle) tt);
    })
