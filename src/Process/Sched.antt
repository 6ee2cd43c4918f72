-- ===== src/Process/Sched.antt =====
-- The scheduler of kernel/sched/sched.c. A pointer to a task or a thread is its index in the `data`
-- array of the table that holds it.
pub mod Choice
pub mod Entries
pub mod Parked
pub mod Switch
use pastoral.Base.{
  ℕ, zero, suc, ◌+◌, ◌-◌, ◌%◌, ◌^◌, List, [], ◌∷◌, Bool, true, false, ◌&&◌, ◌||◌, not, ◌==◌, ltb,
  if◌then◌else◌, Option, none, some, get_elem?, set, ◌>>=◌,
}
use pastoral.Process.{Status, running, waiting, yield, Thread, Task, Regs}
use pastoral.Process.Signals.{deliver}

unfoldable pub is_waiting : Status → Bool
is_waiting waiting = true
is_waiting running = false
is_waiting yield = false

unfoldable pub is_yield : Status → Bool
is_yield yield = true
is_yield running = false
is_yield waiting = false

-- The loop that `find_next_thread` and `find_next_task` share: index `i`, the largest count so far
-- and the entry that has it. Each entry ages by one, on 64 bits.
module _ {A : Type 0} (state : A → Status) (idle : A → ℕ) (age : A → A) where
  unfoldable pub find_next : ℕ → ℕ → Option ℕ → List (Option A) → Option ℕ × List (Option A)
  unfolding is_waiting
  find_next i cnt best [] = (best, [])
  find_next i cnt best (none ∷ xs) =
      let rest = find_next (i + 1) cnt best xs in (rest.0, none ∷ rest.1)
  find_next i cnt best (some x ∷ xs) =
      let better = is_waiting (state x) && ltb cnt (idle (age x)) in
      let rest =
        find_next (i + 1) (if better then idle (age x) else cnt) (if better then some i else best)
          xs in
      (rest.0, some (age x) ∷ rest.1)

unfoldable pub age_thread : Thread → Thread
age_thread t = record t { idle_cnt = (t.idle_cnt + 1) % 2 ^ 64 }

unfoldable pub age_task : Task → Task
age_task t = record t { idle_cnt = (t.idle_cnt + 1) % 2 ^ 64 }

unfoldable pub find_next_thread : List (Option Thread) → Option ℕ × List (Option Thread)
unfolding find_next age_thread
find_next_thread threads = find_next (λ t. t.status) (λ t. t.idle_cnt) age_thread 0 0 none threads

unfoldable pub find_next_task : List (Option Task) → Option ℕ × List (Option Task)
unfolding find_next age_task
find_next_task tasks = find_next (λ t. t.status) (λ t. t.idle_cnt) age_task 0 0 none tasks

-- `TASK_MAX_PRIORITY`
abbrev pub task_max_priority : ℕ
task_max_priority = 2 ^ 64 - 1

-- `sched_dequeue` and `sched_requeue` on one task and one of its threads.
unfoldable pub sched_dequeue : Task × Thread → Task × Thread
sched_dequeue (task, thread) = (record task { status = yield }, record thread { status = yield })

unfoldable pub sched_requeue : Task × Thread → Task × Thread
sched_requeue (task, thread) = (
  record task { status = waiting; idle_cnt = task_max_priority },
  record thread { status = waiting; idle_cnt = task_max_priority },
)

-- The table of tasks, `sched_lock`, and the `pid` and `tid` of CORE_LOCAL as the task and the thread
-- that they name; `none` for -1.
pub record World : Type 0 where
  pub tasks : List (Option Task)
  pub sched_lock : Bool
  pub current : Option (ℕ × ℕ)

-- How `reschedule` ends: it returns to the interrupted thread, it never returns (`sched_idle`), or
-- it enters a thread.
pub data Outcome : Type 0 where
  back idled switched : Outcome

unfoldable pub get_task : List (Option Task) → ℕ → Option Task
get_task tasks i = get_elem? tasks i >>= λ t. t

unfoldable pub get_thread : List (Option Thread) → ℕ → Option Thread
get_thread threads j = get_elem? threads j >>= λ t. t

-- `status != TASK_YIELD` is put back among the waiting.
unfoldable pub park_status : Status → Status
unfolding is_yield
park_status s = if is_yield s then yield else waiting

-- The last thread and its task, with the registers saved; `none` where one of them is gone.
unfoldable pub park : ℕ → ℕ → Regs → List (Option Task) → Option (List (Option Task))
unfolding get_task get_thread park_status
park i j regs tasks = do
  task ← get_task tasks i
  thread ← get_thread task.thread_list j
  let saved : Thread = record {
    status = park_status thread.status;
    regs = regs;
    tid = thread.tid;
    idle_cnt = thread.idle_cnt;
    sigmask = thread.sigmask;
    sigpending = thread.sigpending;
    queue = thread.queue;
  }
  some (
      set tasks i (
        some (record task {
          status = park_status task.status;
          thread_list = set task.thread_list j (some saved);
        })))

-- The chosen thread and its task: counters at 0, both running, no event awaited, and a signal
-- delivered.
unfoldable pub enter_thread : ℕ → ℕ → List (Option Task) → Option (List (Option Task))
unfolding get_task get_thread
enter_thread i j tasks = do
  task ← get_task tasks i
  thread ← get_thread task.thread_list j
  entered ← deliver task.sigactions (record thread { idle_cnt = 0; status = running })
  some (
      set tasks i (
        some (record task {
          idle_cnt = 0;
          status = running;
          event_waiting = false;
          thread_list = set task.thread_list j (some entered);
        })))

-- The current thread, if there is one, is parked.
unfoldable pub leave : Regs → Option (ℕ × ℕ) → List (Option Task) → Option (List (Option Task))
unfolding park
leave regs none tasks = some tasks
leave regs (some (i, j)) tasks = park i j regs tasks

-- Nothing to run: back to the current thread if there is one.
unfoldable pub stay : World → Outcome × World
stay w = elim w.current [ some c ↦ (back, w) | none ↦ (idled, w) ]

-- The second half of `reschedule`: the current thread is parked and the chosen one entered.
unfoldable pub switch_to : Regs → World → ℕ → ℕ → List (Option Task) → Option (Outcome × World)
switch_to regs w i j tasks = elim (leave regs w.current tasks) [
  | none ↦ some (idled, record w { tasks = tasks })
  | some parked ↦ do
    entered ← enter_thread i j parked
    some (switched, record w { tasks = entered; current = some (i, j) })
]

-- The choice of a thread of the task `i`.
unfoldable pub schedule_task : Regs → World → ℕ → List (Option Task) → Option (Outcome × World)
unfolding get_task find_next_thread switch_to stay
schedule_task regs w i tasks = do
  task ← get_task tasks i
  let (chosen, threads) = find_next_thread task.thread_list
  let aged : List (Option Task) = set tasks i (some (record task { thread_list = threads }))
  elim chosen [
    | none ↦ some (stay (record w { tasks = aged }))
    | some j ↦ switch_to regs w i j aged
  ]

-- `reschedule`; the lock is released on every path that has taken it. `none`: the delivery of a
-- signal faults.
unfoldable pub reschedule : Regs → World → Option (Outcome × World)
unfolding find_next_task schedule_task stay
reschedule regs w =
    if w.sched_lock
    then some (back, w)
    else (let (next, tasks) = find_next_task w.tasks in
        elim next [
          | none ↦ some (stay (record w { tasks = tasks }))
          | some i ↦ schedule_task regs w i tasks
        ])
