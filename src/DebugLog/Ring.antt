-- ===== src/DebugLog/Ring.antt =====
-- What the dump shows of the entries that were traced.
use Prim.Native.String.{String}
use Prim.Native.Nat.{bit_and}
use mathlib.Core.List.{append_assoc, append-nil}
use hv_frame_test.Base.{
  ℕ, zero, suc, ◌+◌, ◌-◌, ◌%◌, ◌≤◌, ◌<◌, ◌≡◌, refl, ◌∙◌, ap, ap₂, sym, subst, ◌^◌, Bool, true, some,
  none, List, [], ◌∷◌, ◌++◌, arith, length, get_or, set, drop, length-set, length-append,
  length-replicate, get_or-set_self, get_or-set_ne, drop_step, drop_all, if◌then◌else◌, ltb,
  Bool-cases, ltb→lt, ltb→le, inl, inr,
}
use hv_frame_test.Base.Bits.{bit_and_4095}
use hv_frame_test.DebugLog.{
  PacketTraceEntry, DebugLog, DumpLine, blank, initial, trace_packet, line, dump_start, dump_lines,
  dump_ring,
}

pub trace_all : DebugLog → List PacketTraceEntry → DebugLog
trace_all l [] = l
trace_all l (e ∷ es) = trace_all (trace_packet l e) es

-- The specification: entries numbered from `s` on.
unfoldable pub numbered : ℕ → List PacketTraceEntry → List DumpLine
numbered s [] = []
numbered s (e ∷ es) = line s e ∷ numbered (s + 1) es

-- The ring has the last entries of `es`, each at its number modulo the ring's size.
pub record Holds (l : DebugLog) (es : List PacketTraceEntry) : Type 0 where
  pub written : l.write_seq ≡ length es
  pub ring_size : length l.ring ≡ 4096
  pub recent :
      (i : ℕ)
      → i < length es
      → length es ≤ i + 4096
      → get_or l.ring (i % 4096) blank ≡ get_or es i blank

pub get_or-append_left :
    (xs ys : List PacketTraceEntry) (i : ℕ) (d : PacketTraceEntry)
    → i < length xs
    → get_or (xs ++ ys) i d ≡ get_or xs i d
get_or-append_left [] ys i d h = absurd (omega arith)
get_or-append_left (x ∷ xs) ys zero d h = refl
get_or-append_left (x ∷ xs) ys (suc i) d h = get_or-append_left xs ys i d (omega arith)

pub get_or_last :
    (xs : List PacketTraceEntry) (e d : PacketTraceEntry) → get_or (xs ++ e ∷ []) (length xs) d ≡ e
get_or_last [] e d = refl
get_or_last (x ∷ xs) e d = get_or_last xs e d

-- The place of entry `n` is none of the others' in the ring.
recent_set :
    (ring es : List PacketTraceEntry) (e : PacketTraceEntry) (q i : ℕ)
    → q ≡ length es
    → length ring ≡ 4096
    → (i < length es → get_or ring (i % 4096) blank ≡ get_or es i blank)
    → i < length es + 1
    → length es + 1 ≤ i + 4096
    → get_or (set ring (bit_and q 4095) e) (i % 4096) blank ≡ get_or (es ++ e ∷ []) i blank
recent_set ring es e q i w size old lt near =
    let place : bit_and q 4095 ≡ length es % 4096 = bit_and_4095 q ∙ ap (λ n. n % 4096) w in
    ap (λ k. get_or (set ring k e) (i % 4096) blank) place ∙ elim (Bool-cases (ltb i (length es))) [
      | inl b ↦
          let below : i < length es = ltb→lt i (length es) b in
          get_or-set_ne ring (length es % 4096) (i % 4096) e blank (λ same. omega arith)
          ∙ old below
          ∙ sym (get_or-append_left es (e ∷ []) i blank below)
      | inr b ↦
          let last : i ≡ length es = omega (arith, ltb→le i (length es) b) in
          ap (λ k. get_or (set ring (length es % 4096) e) (k % 4096) blank) last
          ∙ get_or-set_self ring (length es % 4096) e blank (omega arith)
          ∙ sym (ap (λ k. get_or (es ++ e ∷ []) k blank) last ∙ get_or_last es e blank)
    ]

trace_packet-Holds :
    (l : DebugLog) (es : List PacketTraceEntry) (e : PacketTraceEntry)
    → length es + 1 < 2 ^ 64
    → Holds l es
    → Holds (trace_packet l e) (es ++ e ∷ [])
unfolding trace_packet
trace_packet-Holds l es e room h = record {
  written = omega (arith, h.written, length-append es (e ∷ []));
  ring_size = length-set l.ring _ e ∙ h.ring_size;
  recent = λ i lt near.
      let size = length-append es (e ∷ []) in
      recent_set l.ring es e l.write_seq i h.written h.ring_size
        (λ below. h.recent i below (omega (arith, size))) (omega (arith, size))
        (omega (arith, size));
}

dump_lines_lem :
    (l : DebugLog) (es : List PacketTraceEntry) (n s : ℕ)
    → Holds l es
    → s + n ≡ length es
    → length es ≤ s + 4096
    → dump_lines l.ring n s ≡ numbered s (drop s es)
unfolding dump_lines numbered
dump_lines_lem l es zero s h e b = ap (numbered s) (sym (drop_all s es (omega arith)))
dump_lines_lem l es (suc n) s h e b =
    ap₂ (λ x r. line s x ∷ r)
      (ap (λ i. get_or l.ring i blank) (bit_and_4095 s) ∙ h.recent s (omega arith) b)
      (dump_lines_lem l es n (s + 1) h (omega arith) (omega arith))
    ∙ ap (numbered s) (sym (drop_step es s blank (omega arith)))

trace_all-Holds :
    (es pre : List PacketTraceEntry) (l : DebugLog)
    → length pre + length es < 2 ^ 64
    → Holds l pre
    → Holds (trace_all l es) (pre ++ es)
unfolding trace_all
trace_all-Holds [] pre l room h = subst (Holds l) (sym (append-nil pre)) h
trace_all-Holds (e ∷ es) pre l room h =
    subst (Holds (trace_all (trace_packet l e) es)) (append_assoc pre (e ∷ []) es) (
      trace_all-Holds es (pre ++ e ∷ []) (trace_packet l e)
        (omega (arith, length-append pre (e ∷ []))) (trace_packet-Holds l pre e (omega arith) h))

pub initial-Holds : Holds initial []
unfolding initial
initial-Holds = record {
  written = refl;
  ring_size = length-replicate 4096 blank;
  recent = λ i h. absurd (omega arith);
}

dump_start_lem : (n : ℕ) → dump_start n ≡ n - 4096
dump_start_lem n = ground arith

pub dump-Holds :
    (can_open : String → Bool) (path : String) (l : DebugLog) (es : List PacketTraceEntry)
    → can_open path ≡ true
    → Holds l es
    → dump_ring can_open l path ≡ some (numbered (length es - 4096) (drop (length es - 4096) es))
unfolding dump_ring
dump-Holds can_open path l es opens h =
    let n = length es in
    let w = l.write_seq in
    ap (λ b. if b then some (dump_lines l.ring (w - dump_start w) (dump_start w)) else none) opens
    ∙ ap some (
        ap (λ k. dump_lines l.ring (k - dump_start k) (dump_start k)) h.written
        ∙ ap (λ k. dump_lines l.ring (n - k) k) (dump_start_lem n)
        ∙ dump_lines_lem l es (n - (n - 4096)) (n - 4096) h (omega arith) (omega arith))

-- The ring of the trace is a window on everything that was traced. After any fewer than 2^64 calls
-- of trace_packet, a dump to a file that can be opened shows the entries of the last 4096 calls, or
-- of all if they are fewer, in their order, each with the number of its call.
pub dump_ring_lem :
    (can_open : String → Bool) (path : String) (es : List PacketTraceEntry)
    → can_open path ≡ true
    → length es < 2 ^ 64
    → dump_ring can_open (trace_all initial es) path
      ≡ some (numbered (length es - 4096) (drop (length es - 4096) es))
dump_ring_lem can_open path es opens room =
    dump-Holds can_open path (trace_all initial es) es opens
      (trace_all-Holds es [] initial (omega arith) initial-Holds)
