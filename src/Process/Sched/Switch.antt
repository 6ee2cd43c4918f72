-- ===== src/Process/Sched/Switch.antt =====
-- What `reschedule` makes of the thread that it enters and of the thread that it leaves.
use pastoral.Base.{
  ℕ, ◌≢◌, ◌⊎◌, ap, sym, ◌∙◌, zero, suc, ◌+◌, ◌≡◌, refl, inl, inr, List, false, ◌==◌, arith, Option,
  some, get_elem?, set, >>=-eq-some, Bool-cases, subst, bit_and, Option-cases,
}
use pastoral.Process.{running, Thread, Task, Regs}
use pastoral.Process.Sched.Entries.{get_task-set, get_thread-set}
use pastoral.Process.Sched.Parked.{At, Saved, switch-Saved}
use pastoral.Process.Signals.{deliver, deliver_from, fire, signal_max, int_bit}
use pastoral.Process.Sched.{
  get_task, get_thread, enter_thread, leave, switch_to, schedule_task, reschedule, stay, World,
  switched, find_next_task, find_next_thread,
}

-- The thread `j` of the task `i` has the processor.
pub record Entered (i j : ℕ) (tasks : List (Option Task)) : Type 0 where
  pub task : Task
  pub thread : Thread
  pub task_at : get_task tasks i ≡ some task
  pub thread_at : get_thread task.thread_list j ≡ some thread
  pub task_runs : (task.status ≡ running) × (task.idle_cnt ≡ 0) × (task.event_waiting ≡ false)
  pub thread_runs : (thread.status ≡ running) × (thread.idle_cnt ≡ 0)

-- The delivery of a signal changes neither the status nor the counter of a thread.
Kept : Thread → Thread → Type 0
Kept t t' = (t'.status ≡ t.status) × (t'.idle_cnt ≡ t.idle_cnt)

fire-Kept :
    (i mask : ℕ) (actions : List _) (t t' : Thread) → fire i mask actions t ≡ some t' → Kept t t'
unfolding fire Kept
fire-Kept i mask actions t t' e =
    let (s, _, e₁) = >>=-eq-some (get_elem? t.queue i) _ e in
    let (k, _, e₂) = >>=-eq-some s.sigaction _ e₁ in
    let (a, _, e₃) = >>=-eq-some (get_elem? actions k) _ e₂ in
    (ground (arith, e₃), ground (arith, e₃))

deliver_from-Kept :
    (n i : ℕ) (actions : List _) (t t' : Thread) → deliver_from n i actions t ≡ some t' → Kept t t'
unfolding deliver_from Kept
deliver_from-Kept zero i actions t t' e = (ground (arith, e), ground (arith, e))
deliver_from-Kept (suc n) i actions t t' e =
    elim (Bool-cases (bit_and t.sigpending (int_bit i) == 0)) [
      | inl clear ↦ deliver_from-Kept n (i + 1) actions t t' (rw clear at e)
      | inr pending ↦ fire-Kept i (int_bit i) actions t t' (rw pending at e)
    ]

enter_thread-Entered :
    (i j : ℕ) (tasks tasks' : List (Option Task))
    → enter_thread i j tasks ≡ some tasks'
    → Entered i j tasks'
unfolding enter_thread
enter_thread-Entered i j tasks tasks' e =
    let (task, t_at, e₁) = >>=-eq-some (get_task tasks i) _ e in
    let (thread, th_at, e₂) = >>=-eq-some (get_thread task.thread_list j) _ e₁ in
    let (entered, d, e₃) =
      >>=-eq-some (deliver task.sigactions (record thread { idle_cnt = 0; status = running })) _
        e₂ in
    let final : Task = record task {
      idle_cnt = 0;
      status = running;
      event_waiting = false;
      thread_list = set task.thread_list j (some entered);
    } in
    let kept : Kept (record thread { idle_cnt = 0; status = running }) entered =
      delivered task thread entered d in
    let same : set tasks i (some final) ≡ tasks' = ground (arith, e₃) in
    subst (λ x. Entered i j x) same
      (record {
        task = final;
        thread = entered;
        task_at = get_task-set tasks i final t_at;
        thread_at = get_thread-set task.thread_list j entered th_at;
        task_runs = (refl, refl, refl);
        thread_runs = unfold Kept in kept;
      })
  where
    delivered :
        (task : Task) (thread entered : Thread)
        → deliver task.sigactions (record thread { idle_cnt = 0; status = running }) ≡ some entered
        → Kept (record thread { idle_cnt = 0; status = running }) entered
    delivered task thread entered d =
        unfold deliver in
        deliver_from-Kept signal_max 0 task.sigactions
          (record thread { idle_cnt = 0; status = running }) entered d

-- How `switch_to` enters a thread.
switch_to-parts :
    (regs : Regs) (w : World) (i j : ℕ) (tasks : List (Option Task)) (w' : World)
    → switch_to regs w i j tasks ≡ some (switched, w')
    → (parked : List (Option Task)) × (leave regs w.current tasks ≡ some parked)
      × (enter_thread i j parked ≡ some w'.tasks)
      × (w'.current ≡ some (i, j))
unfolding switch_to
switch_to-parts regs w i j tasks w' e = elim (Option-cases (leave regs w.current tasks)) [
  | inl gone ↦ absurd (ground (arith, rw (gone, switch_to) at e))
  | inr (parked, p) ↦
      let (entered, ok, q) = >>=-eq-some (enter_thread i j parked) _ (rw (p, switch_to) at e) in
      let same : record w { tasks = entered; current = some (i, j) } ≡ w' = ground (arith, q) in
      (
        parked,
        p,
        ok ∙ ap (λ (x : World). some x.tasks) same,
        sym (ap (λ (x : World). x.current) same),
      )
]

not_stay : (w w' : World) → stay w ≢ (switched, w')
unfolding stay
not_stay w w' e = elim (Option-cases w.current) [
  | inl idle ↦ absurd (ground (arith, rw idle at e))
  | inr (c, here) ↦ absurd (ground (arith, rw here at e))
]

schedule_task-parts :
    (regs : Regs) (w : World) (i : ℕ) (tasks : List (Option Task)) (w' : World)
    → schedule_task regs w i tasks ≡ some (switched, w')
    → (task : Task) × (j : ℕ) × (get_task tasks i ≡ some task)
      × ((find_next_thread task.thread_list).0 ≡ some j)
      × (switch_to regs w i j (
            set tasks i
              (some (record task { thread_list = (find_next_thread task.thread_list).1 })))
          ≡ some (switched, w'))
unfolding schedule_task
schedule_task-parts regs w i tasks w' e =
    let (task, at, e₁) = >>=-eq-some (get_task tasks i) _ e in
    elim (Option-cases (find_next_thread task.thread_list).0) [
      | inl nobody ↦
          let aged : List (Option Task) =
            set tasks i
              (some (record task { thread_list = (find_next_thread task.thread_list).1 })) in
          let stays : some (stay (record w { tasks = aged })) ≡ some (switched, w') =
            rw nobody at e₁ in
          absurd (not_stay (record w { tasks = aged }) w' (ground (arith, stays)))
      | inr (j, chosen) ↦ (task, j, at, chosen, rw chosen at e₁)
    ]

reschedule-parts :
    (regs : Regs) (w w' : World)
    → reschedule regs w ≡ some (switched, w')
    → (i : ℕ) × ((find_next_task w.tasks).0 ≡ some i)
      × (schedule_task regs w i (find_next_task w.tasks).1 ≡ some (switched, w'))
unfolding reschedule
reschedule-parts regs w w' e = elim (Bool-cases w.sched_lock) [
  | inl locked ↦ absurd (ground (arith, rw locked at e))
  | inr open_ ↦ elim (Option-cases (find_next_task w.tasks).0) [
    | inl nobody ↦
        let aged : World = record w { tasks = (find_next_task w.tasks).1 } in
        let stays : some (stay aged) ≡ some (switched, w') = rw (open_, nobody) at e in
        absurd (not_stay aged w' (ground (arith, stays)))
    | inr (i, chosen) ↦ (i, chosen, rw (open_, chosen) at e)
  ]
]

-- Where `reschedule` enters a thread, it is the one of `find_next_task` and `find_next_thread`;
-- CORE_LOCAL names it; it and its task are running with their counters at 0, and the task waits for no
-- event. The thread that had the processor, if it is another one, is kept with the registers of the
-- interrupt, waiting unless it had yielded, and with the rest of its state but the counter unchanged.
pub reschedule-Switched :
    (regs : Regs) (w w' : World)
    → reschedule regs w ≡ some (switched, w')
    → (i : ℕ) × (j : ℕ) × (task : Task) × ((find_next_task w.tasks).0 ≡ some i)
      × (get_task (find_next_task w.tasks).1 i ≡ some task)
      × ((find_next_thread task.thread_list).0 ≡ some j)
      × (w'.current ≡ some (i, j))
      × Entered i j w'.tasks
      × ((k l : ℕ) (thread : Thread)
          → w.current ≡ some (k, l)
          → At k l w.tasks thread
          → (k ≢ i) ⊎ (l ≢ j)
          → (saved : Thread) × At k l w'.tasks saved × Saved regs thread saved)
reschedule-Switched regs w w' e =
    let (i, chosen, e₁) = reschedule-parts regs w w' e in
    let (task, j, at, next, e₂) = schedule_task-parts regs w i (find_next_task w.tasks).1 w' e₁ in
    let (parked, gone, entered, current) = switch_to-parts regs w i j _ w' e₂ in
    (
      i,
      j,
      task,
      chosen,
      at,
      next,
      current,
      enter_thread-Entered i j parked w'.tasks entered,
      λ k l thread was a apart.
          switch-Saved regs i j k l w.tasks parked w'.tasks task thread a at (rw was at gone)
            entered apart,
    )
