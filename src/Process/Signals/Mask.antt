-- ===== src/Process/Signals/Mask.antt =====
-- Signal masks and actions: `sigprocmask` and `sigaction`.
use pastoral.Base.{
  ℕ, ◌-◌, ◌^◌, ◌<◌, ◌≤◌, ◌≡◌, ◌≢◌, refl, inl, inr, List, [], ◌∷◌, Bool, ◌==◌, if◌then◌else◌, arith,
  Option, none, some, bit, bit_or, complement, min, max, get_elem?, set, length, bit-bit_and,
  bit-bit_or, bit-complement, get_elem?-set_self, get_elem?-set_ne, length-set, lt_of_get_elem?,
  Bool-cases, ap, sym, subst, ◌∙◌, not, ◌||◌, ℤ, pos, negsuc,
}
use pastoral.Process.{ret, fail, einval, SigAction, Thread}
use pastoral.Process.Signals.{
  sigaction, install, sigprocmask, sigkill, sigstop, sig_mask, signal_is_valid,
}

-- The mask that `how` asks for, bit by bit.
abbrev pub wanted : ℕ → ℕ → ℕ → ℕ
wanted how old new = if how == 0 then max old new else if how == 1 then min old (1 - new) else new

-- `sigprocmask` with a set stores the old mask; with SIG_BLOCK, SIG_UNBLOCK and SIG_SETMASK each bit
-- of the new mask is the union, the difference and the copy of the two bits, and any other `how`
-- fails with EINVAL and changes nothing.
pub sigprocmask-bits :
    (how new : ℕ) (t : Thread)
    → new < 2 ^ 64
    → let (r, old, t') = sigprocmask how (some new) t in
      (old ≡ t.sigmask)
      × (how < 3
          → (r ≡ ret 0)
            × ((i : ℕ) → i < 64 → bit t'.sigmask i ≡ wanted how (bit t.sigmask i) (bit new i)))
      × (3 ≤ how → (r ≡ fail einval) × (t' ≡ t))
unfolding sigprocmask
sigprocmask-bits how new t h = (
  ground arith,
  λ small. (
    ground arith,
    λ i p. ground (
      arith,
      bit-bit_or i t.sigmask new,
      bit-bit_and i t.sigmask (complement 64 new),
      bit-complement i 64 new p h,
    ),
  ),
  λ large. ground arith,
)

-- No action's mask holds SIGKILL or SIGSTOP.
abbrev pub IsSafe : List SigAction → Type 0
IsSafe actions =
    (j : ℕ) (a : SigAction)
    → get_elem? actions j ≡ some a
    → (bit a.sa_mask 8 ≡ 0) × (bit a.sa_mask 18 ≡ 0)

install-safe : (a : SigAction) → (bit (install a).sa_mask 8 ≡ 0) × (bit (install a).sa_mask 18 ≡ 0)
unfolding install
install-safe a = (
  rw (bit-bit_and 8 a.sa_mask (complement 64 (bit_or (sig_mask sigkill) (sig_mask sigstop))))
      (unfold bit in omega arith),
  rw (bit-bit_and 18 a.sa_mask (complement 64 (bit_or (sig_mask sigkill) (sig_mask sigstop))))
      (unfold bit in omega arith),
)

-- A program's calls of `sigaction`, in order.
unfoldable pub run : List (ℤ × Option SigAction) → List SigAction → List SigAction
run [] actions = actions
run ((sig, act) ∷ calls) actions = run calls (sigaction sig act actions).2

-- The entries of SIGKILL and SIGSTOP are those of `old`, and the masks stay safe.
record Guarded (old new : List SigAction) : Type 0 where
  kill_entry : get_elem? new 8 ≡ get_elem? old 8
  stop_entry : get_elem? new 18 ≡ get_elem? old 18
  safe : IsSafe old → IsSafe new

set-Guarded :
    (actions : List SigAction) (i : ℕ) (a : SigAction)
    → i ≢ 8
    → i ≢ 18
    → Guarded actions (set actions i (install a))
set-Guarded actions i a n8 n18 = record {
  kill_entry = get_elem?-set_ne actions i 8 (install a) n8;
  stop_entry = get_elem?-set_ne actions i 18 (install a) n18;
  safe = λ s j b e. elim (Bool-cases (i == j)) [
    | inl same ↦
        let q : i ≡ j = ground arith in
        let room : i < length actions = omega (
          arith,
          lt_of_get_elem? (set actions i (install a)) j e,
          length-set actions i (install a),
        ) in
        let now : get_elem? (set actions i (install a)) i ≡ some (install a) =
          get_elem?-set_self actions i (install a) room in
        let is_b : install a ≡ b =
          ground (arith, now, e, ap (get_elem? (set actions i (install a))) q) in
        subst (λ x. (bit x.sa_mask 8 ≡ 0) × (bit x.sa_mask 18 ≡ 0)) is_b (install-safe a)
    | inr ne ↦ s j b (sym (get_elem?-set_ne actions i j (install a) (ground arith)) ∙ e)
  ];
}

Guarded-refl : (actions : List SigAction) → Guarded actions actions
Guarded-refl actions = record { kill_entry = refl; stop_entry = refl; safe = λ s. s }

Guarded-trans : (a b c : List SigAction) → Guarded a b → Guarded b c → Guarded a c
Guarded-trans a b c g h = record {
  kill_entry = h.kill_entry ∙ g.kill_entry;
  stop_entry = h.stop_entry ∙ g.stop_entry;
  safe = λ s. h.safe (g.safe s);
}

abbrev rejected : ℕ → Bool
rejected sig = not (signal_is_valid (pos sig)) || (sig == sigkill || sig == sigstop)

sigaction-Guarded :
    (sig : ℤ) (act : Option SigAction) (actions : List SigAction)
    → Guarded actions (sigaction sig act actions).2
unfolding sigaction
sigaction-Guarded (negsuc n) act actions = Guarded-refl actions
sigaction-Guarded (pos sig) none actions = elim (Bool-cases (rejected sig)) [
  | inl bad ↦ rw bad (Guarded-refl actions)
  | inr good ↦ rw good (Guarded-refl actions)
]
sigaction-Guarded (pos sig) (some a) actions = elim (Bool-cases (rejected sig)) [
  | inl bad ↦ rw bad (Guarded-refl actions)
  | inr good ↦ rw good (set-Guarded actions (sig - 1) a (ground arith) (ground arith))
]

run_from-Guarded :
    (calls : List (ℤ × Option SigAction)) (old actions : List SigAction)
    → Guarded old actions
    → Guarded old (run calls actions)
unfolding run
run_from-Guarded [] old actions g = g
run_from-Guarded ((sig, act) ∷ calls) old actions g =
    run_from-Guarded calls old (sigaction sig act actions).2 (
      Guarded-trans old actions (sigaction sig act actions).2 g (sigaction-Guarded sig act actions))

-- No sequence of `sigaction` calls changes the action of SIGKILL or of SIGSTOP, and none puts one of
-- these signals into the mask of an action if no mask held them before.
pub run-Guarded :
    (calls : List (ℤ × Option SigAction)) (actions : List SigAction)
    → (get_elem? (run calls actions) 8 ≡ get_elem? actions 8)
      × (get_elem? (run calls actions) 18 ≡ get_elem? actions 18)
      × (IsSafe actions → IsSafe (run calls actions))
run-Guarded calls actions =
    let g = run_from-Guarded calls actions actions (Guarded-refl actions) in
    (g.kill_entry, g.stop_entry, g.safe)
