-- ===== src/Process/Signals/Send.antt =====
-- Sending a signal: `signal_send` and `kill`.
use pastoral.Base.{
  ℕ, ◌-◌, ◌<◌, ◌≤◌, ◌≡◌, ◌≢◌, refl, true, false, ◌==◌, if◌then◌else◌, arith, Option, none, some,
  bit, bit_or, get_elem?, set, length, bit-bit_or, bit-pow, bit-lt_two, get_elem?-set_self,
  get_elem?-set_ne, get_elem?-eq-get_or, ℤ, pos, get_or,
}
use pastoral.Process.{Reply, ret, fail, minus_one, eperm, esrch, Creds, Signal, Thread, Task}
use pastoral.Process.Signals.{
  signal_send, signal_is_valid, signal_check_permissions, enqueue, sig_mask, signal_max, kill,
  find_thread, replace_thread,
}

abbrev no_signal : Signal
no_signal = record { refcnt = 0; signum = 0; sigaction = none }

-- What sending `sig` makes of the thread `t`.
pub record Queued (sig : ℕ) (t t' : Thread) : Type 0 where
  pub pending : (i : ℕ) → bit t'.sigpending i ≡ (if i == sig - 1 then 1 else bit t.sigpending i)
  pub entry :
      (s : Signal) × (get_elem? t'.queue (sig - 1) ≡ some s) × (s.sigaction ≡ some (sig - 1))
  pub others : (i : ℕ) → i ≢ sig - 1 → get_elem? t'.queue i ≡ get_elem? t.queue i
  pub mask : t'.sigmask ≡ t.sigmask

enqueue-Queued :
    (sig : ℕ) (t : Thread)
    → sig - 1 < length t.queue
    → (t' : Thread) × (enqueue sig t ≡ some t') × Queued sig t t'
enqueue-Queued sig t h =
    let s : Signal = get_or t.queue (sig - 1) no_signal in
    let s' : Signal = record s { refcnt = 1; sigaction = some (sig - 1) } in
    let t' : Thread = record t {
      queue = set t.queue (sig - 1) s';
      sigpending = bit_or t.sigpending (sig_mask sig);
    } in
    (
      t',
      entry_eq,
      record {
        pending = λ i. ground (
          arith,
          bit-bit_or i t.sigpending (sig_mask sig),
          bit-pow i (sig - 1),
          bit-lt_two i t.sigpending,
        );
        entry = (s', get_elem?-set_self t.queue (sig - 1) s' h, refl);
        others = λ i ne. get_elem?-set_ne t.queue (sig - 1) i s' (λ e. ne (ground arith));
        mask = refl;
      },
    )
  where
    entry_eq :
        enqueue sig t
        ≡ some (record t {
          queue = set t.queue (sig - 1) (record (get_or t.queue (sig - 1) no_signal) {
            refcnt = 1;
            sigaction = some (sig - 1);
          });
          sigpending = bit_or t.sigpending (sig_mask sig);
        })
    entry_eq = unfold enqueue in rw (get_elem?-eq-get_or t.queue (sig - 1) no_signal h) refl

-- `signal_send` of a signal from 1 to 34 to a thread with the full queue: a sender that may signal
-- the target gets 0, exactly the bit of the signal becomes pending beside those that were, its queue
-- entry points to its own action and the other entries stay; any other sender gets EPERM and the
-- thread stays as it was.
pub signal_send-Queued :
    (sender target : Creds) (t : Thread) (sig : ℕ)
    → 1 ≤ sig
    → sig ≤ signal_max
    → length t.queue ≡ signal_max
    → (signal_check_permissions sender target ≡ true
        → (t' : Thread) × (signal_send sender target t (pos sig) ≡ some (ret 0, t'))
          × Queued sig t t')
      × (signal_check_permissions sender target ≡ false
          → signal_send sender target t (pos sig) ≡ some (fail eperm, t))
signal_send-Queued sender target t sig lo hi len = (
  λ ok. let (t', e, q) = enqueue-Queued sig t (omega arith) in (t', sent t' ok e, q),
  λ r. refused r,
)
  where
    sent :
        (t' : Thread)
        → signal_check_permissions sender target ≡ true
        → enqueue sig t ≡ some t'
        → signal_send sender target t (pos sig) ≡ some (ret 0, t')
    sent t' ok e = unfold signal_send signal_is_valid in ground (arith, e, ok)

    refused :
        signal_check_permissions sender target ≡ false
        → signal_send sender target t (pos sig) ≡ some (fail eperm, t)
    refused r = unfold signal_send signal_is_valid in ground (arith, r)

abbrev not_found : ℤ → Option Task → Option (Reply × Option Task)
not_found sig target = some (fail esrch, target)

kill_sent :
    (sender : Creds) (pid sig : ℕ) (task : Task) (t t' : Thread)
    → 1 ≤ pid
    → 1 ≤ sig
    → sig ≤ signal_max
    → find_thread 0 task.thread_list ≡ some t
    → signal_send sender task.creds t (pos sig) ≡ some (ret 0, t')
    → kill sender (pos pid) (pos sig) (some task)
      ≡ some (minus_one, some (record task { thread_list = replace_thread t' task.thread_list }))
unfolding kill signal_is_valid
kill_sent sender pid sig task t t' p lo hi f s = ground (arith, f, s)

-- `kill` of a process that exists, by a sender that may signal it, makes the signal pending in the
-- thread 0 of the target, and returns -1 all the same.
pub kill-minus_one :
    (sender : Creds) (pid sig : ℕ) (task : Task) (t : Thread)
    → 1 ≤ pid
    → 1 ≤ sig
    → sig ≤ signal_max
    → find_thread 0 task.thread_list ≡ some t
    → length t.queue ≡ signal_max
    → signal_check_permissions sender task.creds ≡ true
    → (t' : Thread) × (kill sender (pos pid) (pos sig) (some task)
        ≡ some (minus_one, some (record task { thread_list = replace_thread t' task.thread_list })))
      × Queued sig t t'
kill-minus_one sender pid sig task t p lo hi f len ok =
    let (t', e, q) = (signal_send-Queued sender task.creds t sig lo hi len).0 ok in
    (t', kill_sent sender pid sig task t t' p lo hi f e, q)
