-- ===== src/Process/Sched/Parked.antt =====
-- What `reschedule` keeps of the thread that it leaves.
use pastoral.Base.{
  ℕ, ◌+◌, ◌≡◌, ◌≢◌, refl, sym, ap, ◌∙◌, ◌⊎◌, inl, inr, List, Option, none, some, set, >>=-eq-some,
  arith, ◌%◌, ◌^◌, false, subst,
}
use native.Mathlib.Decide.{ℕ_discrete}
use pastoral.Process.{Status, running, waiting, yield, Thread, Task, Regs}
use pastoral.Process.Signals.{deliver}
use pastoral.Process.Sched.{
  get_task, get_thread, park, park_status, is_yield, leave, enter_thread, find_next_task,
  find_next_thread, age_task, age_thread,
}
use pastoral.Process.Sched.Entries.{
  get_task-set, get_thread-set, get_task-elem, get_thread-elem, get_task-set_ne, get_thread-set_ne,
  find_next-ages,
}

-- `thread` is thread `l` of task `k`.
pub record At (k l : ℕ) (tasks : List (Option Task)) (thread : Thread) : Type 0 where
  pub task : Task
  pub task_at : get_task tasks k ≡ some task
  pub thread_at : get_thread task.thread_list l ≡ some thread

-- The status of a thread that has lost the processor.
abbrev pub left_status : Status → Status
left_status yield = yield
left_status running = waiting
left_status waiting = waiting

-- `saved` is `thread` with the registers `regs`, for the next time that it is entered.
pub record Saved (regs : Regs) (thread saved : Thread) : Type 0 where
  pub registers : saved.regs ≡ regs
  pub status : saved.status ≡ left_status thread.status
  pub same_tid : saved.tid ≡ thread.tid
  pub same_mask : saved.sigmask ≡ thread.sigmask
  pub same_pending : saved.sigpending ≡ thread.sigpending
  pub same_queue : saved.queue ≡ thread.queue

find_next_task-At :
    (k l : ℕ) (tasks : List (Option Task)) (thread : Thread)
    → At k l tasks thread
    → At k l (find_next_task tasks).1 thread
unfolding find_next_task get_task age_task
find_next_task-At k l tasks thread a = record {
  task = age_task a.task;
  task_at =
      rw
        (find_next-ages (λ t. t.status) (λ t. t.idle_cnt) age_task 0 0 none tasks k a.task
          (get_task-elem tasks k a.task a.task_at))
        refl;
  thread_at = a.thread_at;
}

find_next_thread-ages :
    (threads : List (Option Thread)) (l : ℕ) (thread : Thread)
    → get_thread threads l ≡ some thread
    → get_thread (find_next_thread threads).1 l
      ≡ some (record thread { idle_cnt = (thread.idle_cnt + 1) % 2 ^ 64 })
unfolding find_next_thread get_thread age_thread
find_next_thread-ages threads l thread e =
    rw
      (find_next-ages (λ t. t.status) (λ t. t.idle_cnt) age_thread 0 0 none threads l thread
        (get_thread-elem threads l thread e))
      refl

same_task :
    (tasks : List (Option Task)) (i k : ℕ) (t u : Task)
    → i ≡ k
    → get_task tasks i ≡ some t
    → get_task tasks k ≡ some u
    → u ≡ t
same_task tasks i k t u same p q =
    let both : some u ≡ some t = sym q ∙ ap (get_task tasks) (sym same) ∙ p in ground (arith, both)

-- The threads of task `i` have aged.
find_next_thread-At :
    (i k l : ℕ) (tasks : List (Option Task)) (task : Task) (thread : Thread)
    → get_task tasks i ≡ some task
    → At k l tasks thread
    → (n : ℕ) × At k l
        (set tasks i (some (record task { thread_list = (find_next_thread task.thread_list).1 })))
        (record thread { idle_cnt = n })
find_next_thread-At i k l tasks task thread at a = elim (ℕ_discrete i k) [
  | yes same ↦
      let aged : Task = record task { thread_list = (find_next_thread task.thread_list).1 } in
      let there : get_thread task.thread_list l ≡ some thread =
        subst (λ (x : Task). get_thread x.thread_list l ≡ some thread)
          (same_task tasks i k task a.task same at a.task_at) a.thread_at in
      (
        (thread.idle_cnt + 1) % 2 ^ 64,
        record {
          task = aged;
          task_at =
              ap (get_task (set tasks i (some aged))) (sym same) ∙ get_task-set tasks i aged at;
          thread_at = find_next_thread-ages task.thread_list l thread there;
        },
      )
  | no ne ↦ (
    thread.idle_cnt,
    record {
      task = a.task;
      task_at = get_task-set_ne tasks i k _ ne ∙ a.task_at;
      thread_at = a.thread_at;
    },
  )
]

leave-Saved :
    (regs : Regs) (k l : ℕ) (tasks parked : List (Option Task)) (thread : Thread)
    → leave regs (some (k, l)) tasks ≡ some parked
    → At k l tasks thread
    → (saved : Thread) × At k l parked saved × Saved regs thread saved
unfolding leave park
leave-Saved regs k l tasks parked thread e a =
    let saved : Thread = record thread { status = park_status thread.status; regs = regs } in
    let task : Task = record a.task {
      status = park_status a.task.status;
      thread_list = set a.task.thread_list l (some saved);
    } in
    let after : set tasks k (some task) ≡ parked =
      ground (arith, rw (a.task_at, a.thread_at) at e) in
    (
      saved,
      subst (λ (x : List (Option Task)). At k l x saved) after
          (record {
            task = task;
            task_at = get_task-set tasks k task a.task_at;
            thread_at = get_thread-set a.task.thread_list l saved a.thread_at;
          }),
      record {
        registers = refl;
        status = parks thread.status;
        same_tid = refl;
        same_mask = refl;
        same_pending = refl;
        same_queue = refl;
      },
    )
  where
    parks : (st : Status) → park_status st ≡ left_status st
    parks running = unfold park_status is_yield in refl
    parks waiting = unfold park_status is_yield in refl
    parks yield = unfold park_status is_yield in refl

enter_thread-At :
    (i j k l : ℕ) (tasks tasks' : List (Option Task)) (thread : Thread)
    → enter_thread i j tasks ≡ some tasks'
    → (k ≢ i) ⊎ (l ≢ j)
    → At k l tasks thread
    → At k l tasks' thread
unfolding enter_thread
enter_thread-At i j k l tasks tasks' thread e apart a =
    let (task, t_at, e₁) = >>=-eq-some (get_task tasks i) _ e in
    let (chosen, th_at, e₂) = >>=-eq-some (get_thread task.thread_list j) _ e₁ in
    let (entered, d, e₃) =
      >>=-eq-some (deliver task.sigactions (record chosen { idle_cnt = 0; status = running })) _
        e₂ in
    let final : Task = record task {
      idle_cnt = 0;
      status = running;
      event_waiting = false;
      thread_list = set task.thread_list j (some entered);
    } in
    let same : set tasks i (some final) ≡ tasks' = ground (arith, e₃) in
    subst (λ (x : List (Option Task)). At k l x thread) same
      (elim (ℕ_discrete i k) [
        | yes at ↦
            let other : j ≢ l = λ z. elim apart [ inl h ↦ h (sym at) | inr h ↦ h (sym z) ] in
            let there : get_thread task.thread_list l ≡ some thread =
              subst (λ (x : Task). get_thread x.thread_list l ≡ some thread)
                (same_task tasks i k task a.task at t_at a.task_at) a.thread_at in
            record {
              task = final;
              task_at =
                  ap (get_task (set tasks i (some final))) (sym at)
                  ∙ get_task-set tasks i final t_at;
              thread_at = get_thread-set_ne task.thread_list j l (some entered) other ∙ there;
            }
        | no ne ↦ record {
          task = a.task;
          task_at = get_task-set_ne tasks i k (some final) ne ∙ a.task_at;
          thread_at = a.thread_at;
        }
      ])

-- The whole of a switch, from the table of tasks before it.
pub switch-Saved :
    (regs : Regs) (i j k l : ℕ) (tasks parked tasks' : List (Option Task)) (task : Task)
    (thread : Thread)
    → At k l tasks thread
    → get_task (find_next_task tasks).1 i ≡ some task
    → leave regs (some (k, l)) (
        set
          (find_next_task tasks).1
          i
          (some (record task { thread_list = (find_next_thread task.thread_list).1 })))
      ≡ some parked
    → enter_thread i j parked ≡ some tasks'
    → (k ≢ i) ⊎ (l ≢ j)
    → (saved : Thread) × At k l tasks' saved × Saved regs thread saved
switch-Saved regs i j k l tasks parked tasks' task thread a at gone entered apart =
    let (n, aged) =
      find_next_thread-At i k l (find_next_task tasks).1 task thread at
        (find_next_task-At k l tasks thread a) in
    let (saved, here, s) =
      leave-Saved regs k l _ parked (record thread { idle_cnt = n }) gone aged in
    (
      saved,
      enter_thread-At i j k l parked tasks' saved entered apart here,
      record {
        registers = s.registers;
        status = s.status;
        same_tid = s.same_tid;
        same_mask = s.same_mask;
        same_pending = s.same_pending;
        same_queue = s.same_queue;
      },
    )
