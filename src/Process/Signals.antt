-- ===== src/Process/Signals.antt =====
-- kernel/sched/signal.c, and the delivery of signals at the end of `reschedule` in
-- kernel/sched/sched.c.
pub mod Mask
pub mod Send
pub mod Deliver
use pastoral.Base.{
  ℕ, zero, suc, ◌+◌, ◌-◌, ◌*◌, ◌%◌, ◌^◌, List, [], ◌∷◌, Bool, true, false, ◌||◌, ◌&&◌, not, ◌==◌,
  ltb, leb, if◌then◌else◌, Option, none, some, bit_and, bit_or, complement, get_elem?, set, ◌>>=◌,
  ℤ, pos, negsuc,
}
use pastoral.Process.{
  Reply, ret, fail, minus_one, einval, eperm, esrch, Creds, SigAction, Signal, Regs, Thread, Task,
}

abbrev pub signal_max : ℕ
signal_max = 34

abbrev pub sigkill : ℕ
sigkill = 9

abbrev pub sigstop : ℕ
sigstop = 19

-- `SIGMASK(SIG)`
abbrev pub sig_mask : ℕ → ℕ
sig_mask sig = 2 ^ (sig - 1)

unfoldable pub signal_is_valid : ℤ → Bool
signal_is_valid (pos sig) = if ltb sig 1 then false else not (ltb signal_max sig)
signal_is_valid (negsuc n) = false

-- `*current_action = *act` and the mask without SIGKILL and SIGSTOP
unfoldable pub install : SigAction → SigAction
install act = record act {
  sa_mask = bit_and act.sa_mask (complement 64 (bit_or (sig_mask sigkill) (sig_mask sigstop)));
}

-- `sigaction` on the array of the current task; `act` is `none` for NULL. The second part is what is
-- stored in `old`; `none` there: nothing is stored.
unfoldable pub sigaction :
    ℤ → Option SigAction → List SigAction → Reply × Option SigAction × List SigAction
unfolding signal_is_valid install
sigaction (negsuc n) act actions = (fail einval, none, actions)
sigaction (pos sig) act actions =
    if not (signal_is_valid (pos sig)) || (sig == sigkill || sig == sigstop)
    then (fail einval, none, actions)
    else (
      ret 0,
      get_elem? actions (sig - 1),
      elim act [ none ↦ actions | some a ↦ set actions (sig - 1) (install a) ],
    )

-- `how`: SIG_BLOCK is 0, SIG_UNBLOCK 1, SIG_SETMASK 2.
unfoldable pub new_mask : ℕ → ℕ → ℕ → Option ℕ
new_mask how new mask =
    if how == 0
    then some (bit_or mask new)
    else if how == 1
    then some (bit_and mask (complement 64 new))
    else if how == 2
    then some new
    else none

-- `sigprocmask`: the reply, what is stored in `oldset`, and the thread.
unfoldable pub sigprocmask : ℕ → Option ℕ → Thread → Reply × ℕ × Thread
unfolding new_mask
sigprocmask how none t = (ret 0, t.sigmask, t)
sigprocmask how (some new) t = elim (new_mask how new t.sigmask) [
  | none ↦ (fail einval, t.sigmask, t)
  | some mask ↦ (ret 0, t.sigmask, record t { sigmask = mask })
]

-- `sigpending`: the reply and what is stored in `set`.
unfoldable pub sigpending : Thread → Reply × ℕ
sigpending t = (ret 0, t.sigpending)

-- `signal_check_permissions(...) != -1`
unfoldable pub signal_check_permissions : Creds → Creds → Bool
signal_check_permissions sender target =
    (sender.real_uid == 0 || sender.effective_uid == 0)
    || ((sender.real_uid == target.real_uid || sender.real_uid == target.effective_uid)
        || (sender.effective_uid == target.real_uid
            || sender.effective_uid == target.effective_uid))

-- The entry of the queue: `refcnt`, `sigaction` and `trigger` are assigned, `signum` is not.
unfoldable pub enqueue : ℕ → Thread → Option Thread
enqueue sig t = do
  entry ← get_elem? t.queue (sig - 1)
  some (record t {
    queue = set t.queue (sig - 1) (record entry { refcnt = 1; sigaction = some (sig - 1) });
    sigpending = bit_or t.sigpending (sig_mask sig);
  })

-- `signal_send`. Signal 0 passes the first test and leads to `queue[-1]`: `none` is that access.
unfoldable pub signal_send : Creds → Creds → Thread → ℤ → Option (Reply × Thread)
unfolding signal_is_valid signal_check_permissions enqueue
signal_send sender target t (negsuc n) = some (fail einval, t)
signal_send sender target t (pos sig) =
    if not (signal_is_valid (pos sig)) && not (sig == 0)
    then some (fail einval, t)
    else if not (signal_check_permissions sender target)
    then some (fail eperm, t)
    else if sig == 0
    then none
    else (do t' ← enqueue sig t; some (ret 0, t'))

-- `sched_translate_tid`: the entry of the table with this tid.
unfoldable pub find_thread : ℕ → List (Option Thread) → Option Thread
find_thread tid [] = none
find_thread tid (none ∷ ts) = find_thread tid ts
find_thread tid (some t ∷ ts) = if t.tid == tid then some t else find_thread tid ts

unfoldable pub replace_thread : Thread → List (Option Thread) → List (Option Thread)
replace_thread t [] = []
replace_thread t (none ∷ ts) = none ∷ replace_thread t ts
replace_thread t (some u ∷ ts) =
    if u.tid == t.tid then some t ∷ ts else some u ∷ replace_thread t ts

-- `kill` at the task that `sched_translate_pid(pid)` finds, if it finds one. It returns -1 at the end
-- of every path.
unfoldable pub kill : Creds → ℤ → ℤ → Option Task → Option (Reply × Option Task)
unfolding signal_is_valid signal_send find_thread replace_thread
kill sender pid sig target =
    if not (signal_is_valid sig) then some (fail einval, target) else (elim pid [
      | negsuc n ↦ some (minus_one, target)
      | pos p ↦ if p == 0 then some (minus_one, target) else (elim target [
        | none ↦ some (fail esrch, none)
        | some task ↦ elim (find_thread 0 task.thread_list) [
          | none ↦ some (fail esrch, some task)
          | some t ↦ do
            (sent, t') ← signal_send sender task.creds t sig
            some (
              elim sent [ fail e ↦ fail e | _ ↦ minus_one ],
              some (record task { thread_list = replace_thread t' task.thread_list }),
            )
        ]
      ])
    ])

-- `1 << i` on an `int`, extended to the 64 bits of `sigpending`: bit 31 is the sign. C leaves a shift
-- by 32 or more undefined; the machine's shift takes the count modulo 32.
unfoldable pub int_bit : ℕ → ℕ
int_bit i = if i % 32 == 31 then 2 ^ 64 - 2 ^ 31 else 2 ^ (i % 32)

abbrev pub sa_siginfo : ℕ
sa_siginfo = 4

-- `rsp -= n` wraps at 64 bits.
abbrev pub down : ℕ → ℕ → ℕ
down rsp n = (rsp + 2 ^ 64 - n) % 2 ^ 64

-- `sizeof(struct siginfo)` and `sizeof(struct registers)`
abbrev pub siginfo_size : ℕ
siginfo_size = 56

abbrev pub registers_size : ℕ
registers_size = 176

-- The registers with which the handler is entered; `rsp &= -16ll` rounds down.
unfoldable pub enter : Signal → SigAction → Regs → Regs
enter signal action r =
    let rsp₁ = down r.rsp 128 in
    let rsp₂ = rsp₁ - rsp₁ % 16 in
    let rsp₃ = down rsp₂ siginfo_size in
    let rsp₄ = down rsp₃ registers_size in
    if bit_and action.sa_flags sa_siginfo == 0
    then record r { rsp = rsp₂; rip = action.handler; rdi = signal.signum }
    else record { rip = action.handler; rsp = rsp₄; rdi = signal.signum; rsi = rsp₃; rdx = rsp₄ }

-- One round of the loop that fires: the handler of queue entry `i`, and the pending set without the
-- bits of `1 << i`. A NULL `sigaction` is a fault.
unfoldable pub fire : ℕ → ℕ → List SigAction → Thread → Option Thread
unfolding enter
fire i mask actions t = do
  signal ← get_elem? t.queue i
  index ← signal.sigaction
  action ← get_elem? actions index
  some (record t {
    regs = enter signal action t.regs;
    sigpending = bit_and t.sigpending (complement 64 mask);
  })

-- `for(size_t i = 0; i < SIGNAL_MAX; i++)` with `n` rounds left.
unfoldable pub deliver_from : ℕ → ℕ → List SigAction → Thread → Option Thread
unfolding int_bit fire
deliver_from zero i actions t = some t
deliver_from (suc n) i actions t =
    let rest = deliver_from n (i + 1) actions t in
    if bit_and t.sigpending (int_bit i) == 0 then rest else fire i (int_bit i) actions t

unfoldable pub deliver : List SigAction → Thread → Option Thread
unfolding deliver_from
deliver actions t = deliver_from signal_max 0 actions t
