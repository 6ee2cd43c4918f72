-- ===== src/Process/Signals/Deliver.antt =====
-- The delivery of a pending signal at the end of `reschedule`.
use pastoral.Base.{
  ℕ, zero, suc, ◌+◌, ◌%◌, ◌^◌, ◌<◌, ◌≤◌, ◌≡◌, ◌≢◌, refl, inl, inr, List, ◌==◌, if◌then◌else◌, arith,
  none, some, bit, bit_and, complement, get_elem?, bit-bit_and, bit-pow, bit-complement, bit-lt_two,
  bit_and-zero, bit_and-ne_zero, pow-lt-pow, Bool-cases, ◌∙◌,
}
use pastoral.Process.{SigAction, Signal, Thread}
use pastoral.Process.Signals.{int_bit, enter, fire, deliver_from, deliver}

int_bit-low : (i : ℕ) → i < 31 → int_bit i ≡ 2 ^ i
unfolding int_bit
int_bit-low i h = ground arith

-- No bit is pending from `i` on, below `k`.
abbrev Clear : ℕ → ℕ → ℕ → Type 0
Clear x i k = (j : ℕ) → i ≤ j → j < k → bit x j ≡ 0

test-clear : (x i : ℕ) → x < 2 ^ 64 → i < 31 → bit x i ≡ 0 → bit_and x (int_bit i) ≡ 0
test-clear x i w h e =
    rw (int_bit-low i h) (bit_and-zero x (2 ^ i) w (λ j p. ground (arith, bit-pow j i)))

test-set : (x i : ℕ) → i < 31 → bit x i ≡ 1 → bit_and x (int_bit i) ≢ 0
test-set x i h e =
    rw (int_bit-low i h) (bit_and-ne_zero x (2 ^ i) i e (ground (arith, bit-pow i i)))

deliver_from-set :
    (n i : ℕ) (actions : List SigAction) (t : Thread)
    → bit_and t.sigpending (int_bit i) ≢ 0
    → deliver_from (suc n) i actions t ≡ fire i (int_bit i) actions t
unfolding deliver_from
deliver_from-set n i actions t h = ground arith

deliver_from-clear :
    (n i : ℕ) (actions : List SigAction) (t : Thread)
    → bit_and t.sigpending (int_bit i) ≡ 0
    → deliver_from (suc n) i actions t ≡ deliver_from n (i + 1) actions t
unfolding deliver_from
deliver_from-clear n i actions t h = rw h refl

-- The loop reaches the lowest pending bit.
deliver_from-lowest :
    (n i k : ℕ) (actions : List SigAction) (t : Thread)
    → t.sigpending < 2 ^ 64
    → i ≤ k
    → k < i + n
    → k < 31
    → Clear t.sigpending i k
    → bit t.sigpending k ≡ 1
    → deliver_from n i actions t ≡ fire k (int_bit k) actions t
deliver_from-lowest zero i k actions t w lo hi h c e = absurd (omega arith)
deliver_from-lowest (suc n) i k actions t w lo hi h c e = elim (Bool-cases (i == k)) [
  | inl p ↦
      let q : i ≡ k = ground arith in
      rw q (deliver_from-set n k actions t (test-set t.sigpending k h e))
  | inr p ↦
      deliver_from-clear n i actions t
        (test-clear t.sigpending i w (ground arith) (c i (omega arith) (ground arith)))
      ∙ deliver_from-lowest n (i + 1) k actions t w (ground arith) (omega arith) h
          (λ j l u. c j (omega arith) u) e
]

-- The thread whose lowest pending signal is number `k + 1`, at most 31, enters the handler of that
-- signal when it is scheduled, and of its pending bits exactly that one is cleared.
pub deliver-lowest :
    (k : ℕ) (actions : List SigAction) (t : Thread) (s : Signal) (a : SigAction)
    → t.sigpending < 2 ^ 64
    → k < 31
    → Clear t.sigpending 0 k
    → bit t.sigpending k ≡ 1
    → get_elem? t.queue k ≡ some s
    → s.sigaction ≡ some k
    → get_elem? actions k ≡ some a
    → (t' : Thread) × (deliver actions t ≡ some t')
      × (t'.regs.rip ≡ a.handler)
      × (t'.regs.rdi ≡ s.signum)
      × (t'.regs.rsp % 8 ≡ 0)
      × ((i : ℕ) → i < 64 → bit t'.sigpending i ≡ (if i == k then 0 else bit t.sigpending i))
deliver-lowest k actions t s a w h c e q i g =
    let t' : Thread = record t {
      regs = enter s a t.regs;
      sigpending = bit_and t.sigpending (complement 64 (int_bit k));
    } in
    (
      t',
      whole ∙ fired,
      entered_rip,
      entered_rdi,
      entered_rsp,
      λ j p. rw (int_bit-low k h) (
          ground (
            arith,
            bit-bit_and j t.sigpending (complement 64 (2 ^ k)),
            bit-complement j 64 (2 ^ k) p (pow-lt-pow k 64 (omega arith)),
            bit-pow j k,
            bit-lt_two j t.sigpending,
          )),
    )
  where
    whole : deliver actions t ≡ fire k (int_bit k) actions t
    whole =
        unfold deliver in deliver_from-lowest 34 0 k actions t w (omega arith) (omega arith) h c e

    fired :
        fire k (int_bit k) actions t
        ≡ some (record t {
          regs = enter s a t.regs;
          sigpending = bit_and t.sigpending (complement 64 (int_bit k));
        })
    fired = unfold fire in ground (arith, q, i, g)

    entered_rip : (enter s a t.regs).rip ≡ a.handler
    entered_rip = unfold enter in ground arith

    entered_rdi : (enter s a t.regs).rdi ≡ s.signum
    entered_rdi = unfold enter in ground arith

    entered_rsp : (enter s a t.regs).rsp % 8 ≡ 0
    entered_rsp = unfold enter in ground arith

-- Nothing pending among the first 31 signals, and something behind them: `1 << 31` is negative as an
-- `int`, so its extension has every bit from 31 on, and entry 31 is taken for signal 33 or 34.
deliver_from-sign :
    (n i : ℕ) (actions : List SigAction) (t : Thread)
    → t.sigpending < 2 ^ 64
    → i ≤ 31
    → 31 < i + n
    → Clear t.sigpending i 31
    → bit_and t.sigpending (int_bit 31) ≢ 0
    → deliver_from n i actions t ≡ fire 31 (int_bit 31) actions t
deliver_from-sign zero i actions t w lo hi c e = absurd (omega arith)
deliver_from-sign (suc n) i actions t w lo hi c e = elim (Bool-cases (i == 31)) [
  | inl p ↦ let q : i ≡ 31 = ground arith in rw q (deliver_from-set n 31 actions t e)
  | inr p ↦
      deliver_from-clear n i actions t
        (test-clear t.sigpending i w (ground arith) (c i (omega arith) (ground arith)))
      ∙ deliver_from-sign n (i + 1) actions t w (ground arith) (omega arith)
          (λ j l u. c j (omega arith) u) e
]

-- A pending signal 33 or 34, with none from 1 to 32 pending and none of number 32 ever sent, makes
-- `reschedule` follow the NULL action of queue entry 31.
pub deliver-sign_fault :
    (k : ℕ) (actions : List SigAction) (t : Thread) (s : Signal)
    → t.sigpending < 2 ^ 64
    → 32 ≤ k
    → k < 34
    → bit t.sigpending k ≡ 1
    → Clear t.sigpending 0 32
    → get_elem? t.queue 31 ≡ some s
    → s.sigaction ≡ none
    → deliver actions t ≡ none
deliver-sign_fault k actions t s w lo hi e c q n = whole ∙ faults
  where
    sign_bit : bit (int_bit 31) k ≡ 1
    sign_bit = elim (Bool-cases (k == 32)) [
      | inl p ↦ let r : k ≡ 32 = ground arith in rw r (unfold int_bit bit in refl)
      | inr p ↦ let r : k ≡ 33 = ground arith in rw r (unfold int_bit bit in refl)
    ]

    whole : deliver actions t ≡ fire 31 (int_bit 31) actions t
    whole =
        unfold deliver in
        deliver_from-sign 34 0 actions t w (omega arith) (omega arith)
          (λ j l u. c j l (omega arith)) (bit_and-ne_zero t.sigpending (int_bit 31) k e sign_bit)

    faults : fire 31 (int_bit 31) actions t ≡ none
    faults = unfold fire in ground (arith, q, n)
