-- ===== src/Process/Tests.antt =====
-- Runs of the process code, and its theorems at small states.
use pastoral.Base.{
  ℕ, zero, suc, ◌+◌, ◌-◌, ◌%◌, ◌^◌, ◌<◌, ◌≤◌, ◌≡◌, ◌≢◌, refl, [], ◌∷◌, List, none, some, Option,
  true, false, ◌==◌, if◌then◌else◌, ◌⊎◌, arith, bit, get_elem?, replicate, ℤ, pos,
}
use pastoral.Process.Cred
use pastoral.Process.Cred.{
  Call, call_setuid, call_seteuid, setuid, IsUnprivileged, Confined, run-Confined, run-setuid_drops,
  to_id,
}
use pastoral.Process.Signals.Mask
use pastoral.Process.{
  ret, fail, eperm, Creds, SigAction, Signal, running, waiting, Thread, Task, Regs,
}
use pastoral.Process.Signals.{signal_send, signal_check_permissions, deliver, deliver_from, int_bit}
use pastoral.Process.Signals.Mask.{wanted, IsSafe, sigprocmask-bits, run-Guarded}
use pastoral.Process.Signals.Send.{Queued, signal_send-Queued}
use pastoral.Process.Signals.Deliver.{deliver-lowest}
use pastoral.Process.Sched.{
  find_next_task, World, switched, reschedule, find_next, find_next_thread, schedule_task,
  enter_thread, get_task, get_thread, switch_to, leave, park, park_status, is_yield,
}
use pastoral.Process.Sched.Choice.{TaskBest, TaskBelow, find_next_task-Best}
use pastoral.Process.Sched.Parked.{At, Saved}
use pastoral.Process.Sched.Switch.{Entered, reschedule-Switched}
use pastoral.Process.Event.{EventState, outside, event_fire, start, and_then, fires, Trace-pending}

abbrev root : Creds
root = record {
  real_uid = 0;
  effective_uid = 0;
  saved_uid = 0;
  real_gid = 0;
  effective_gid = 0;
  saved_gid = 0;
}

abbrev user : Creds
user = record {
  real_uid = 7;
  effective_uid = 7;
  saved_uid = 7;
  real_gid = 7;
  effective_gid = 7;
  saved_gid = 7;
}

abbrev no_action : SigAction
no_action = record { handler = 0; sa_mask = 0; sa_flags = 0; sa_restorer = 0 }

abbrev act : SigAction
act = record { handler = 0x5000; sa_mask = 2 ^ 64 - 1; sa_flags = 0; sa_restorer = 0 }

abbrev no_signal : Signal
no_signal = record { refcnt = 0; signum = 0; sigaction = none }

abbrev thread : Thread
thread = record {
  tid = 0;
  status = waiting;
  idle_cnt = 0;
  sigmask = 5;
  sigpending = 0;
  queue = replicate 34 no_signal;
  regs = record { rip = 0; rsp = 0x8000; rdi = 0; rsi = 0; rdx = 0 };
}

abbrev task : Task
task = record {
  pid = 1;
  status = waiting;
  idle_cnt = 3;
  creds = user;
  sigactions = replicate 34 no_action;
  event_waiting = true;
  thread_list = some thread ∷ [];
}

run-Confined_example : Confined user (Cred.run (call_setuid 0 ∷ call_seteuid 7 ∷ []) user)
run-Confined_example =
    run-Confined (call_setuid 0 ∷ call_seteuid 7 ∷ []) user
      (record { effective = omega arith; real = omega arith; saved = omega arith })

run-setuid_drops_example : (Cred.run (call_seteuid 0 ∷ []) (setuid 7 root).1).effective_uid ≢ 0
run-setuid_drops_example = run-setuid_drops (call_seteuid 0 ∷ []) 7 root refl (omega arith)

abbrev calls : List (ℤ × Option SigAction)
calls = (pos 9, some act) ∷ (pos 2, some act) ∷ []

run-Guarded_example :
    (get_elem? (Mask.run calls task.sigactions) 8 ≡ get_elem? task.sigactions 8)
    × (get_elem? (Mask.run calls task.sigactions) 18 ≡ get_elem? task.sigactions 18)
    × (IsSafe task.sigactions → IsSafe (Mask.run calls task.sigactions))
run-Guarded_example = run-Guarded calls task.sigactions

signal_send-Queued_example :
    (signal_check_permissions root user ≡ true
      → (t' : Thread) × (signal_send root user thread (pos 2) ≡ some (ret 0, t'))
        × Queued 2 thread t')
    × (signal_check_permissions root user ≡ false
        → signal_send root user thread (pos 2) ≡ some (fail eperm, thread))
signal_send-Queued_example = signal_send-Queued root user thread 2 (omega arith) (omega arith) refl

-- Signals 2 and 3 are pending, and have their actions.
abbrev own : ℕ → Signal
own i = record { refcnt = 1; signum = 0; sigaction = some i }

abbrev signalled : Thread
signalled = record thread { sigpending = 6; queue = own 0 ∷ own 1 ∷ own 2 ∷ replicate 31 no_signal }

deliver-lowest_example :
    (t' : Thread) × (deliver (no_action ∷ act ∷ []) signalled ≡ some t')
    × (t'.regs.rip ≡ 0x5000)
    × (t'.regs.rdi ≡ 0)
    × (t'.regs.rsp % 8 ≡ 0)
    × ((i : ℕ) → i < 64 → bit t'.sigpending i ≡ (if i == 1 then 0 else bit 6 i))
unfolding bit
deliver-lowest_example =
    deliver-lowest 1 (no_action ∷ act ∷ []) signalled (own 1) act (omega arith) (omega arith) lower
      refl refl refl refl
  where
    lower : (j : ℕ) → 0 ≤ j → j < 1 → bit 6 j ≡ 0
    lower zero lo hi = unfold bit in refl
    lower (suc j) lo hi = absurd (omega arith)

abbrev tasks : List (Option Task)
tasks = none ∷ some task ∷ some (record task { pid = 2; idle_cnt = 9 }) ∷ []

find_next_task-Best_example :
    (((find_next_task tasks).0 ≡ none) × TaskBelow 0 tasks)
    ⊎ ((k : ℕ) × (t : Task) × ((find_next_task tasks).0 ≡ some k) × TaskBest 0 tasks k t)
find_next_task-Best_example = find_next_task-Best tasks

chosen_task : (find_next_task tasks).0 ≡ some 2
unfolding find_next_task find_next
chosen_task = refl

abbrev busy : Thread
busy = record thread { status = running }

-- The thread of task 1 has the processor, and is interrupted with these registers.
abbrev world : World
world = record {
  tasks =
      none
      ∷ some (record task { status = running; thread_list = some busy ∷ [] })
      ∷ some (record task { pid = 2; idle_cnt = 9 })
      ∷ [];
  sched_lock = false;
  current = some (1, 0);
}

abbrev interrupted : Regs
interrupted = record { rip = 0x1234; rsp = 0x9000; rdi = 1; rsi = 2; rdx = 3 }

-- The world after the thread of task 2 has been entered.
abbrev next_tasks : List (Option Task)
next_tasks =
    none
    ∷ some (record task {
      idle_cnt = 4;
      thread_list = some (record thread { regs = interrupted }) ∷ [];
    })
    ∷ some (record task {
      pid = 2;
      idle_cnt = 0;
      status = running;
      event_waiting = false;
      thread_list = some (record thread { idle_cnt = 0; status = running }) ∷ [];
    })
    ∷ []

abbrev next_world : World
next_world = record { tasks = next_tasks; sched_lock = false; current = some (2, 0) }

entered_world : reschedule interrupted world ≡ some (switched, next_world)
unfolding reschedule find_next_task find_next find_next_thread schedule_task switch_to leave
    enter_thread get_task get_thread deliver deliver_from int_bit park park_status is_yield
entered_world = refl

reschedule-Switched_example :
    (i : ℕ) × (j : ℕ) × (t : Task) × ((find_next_task world.tasks).0 ≡ some i)
    × (get_task (find_next_task world.tasks).1 i ≡ some t)
    × ((find_next_thread t.thread_list).0 ≡ some j)
    × (next_world.current ≡ some (i, j))
    × Entered i j next_tasks
    × ((k l : ℕ) (th : Thread)
        → world.current ≡ some (k, l)
        → At k l world.tasks th
        → (k ≢ i) ⊎ (l ≢ j)
        → (saved : Thread) × At k l next_tasks saved × Saved interrupted th saved)
reschedule-Switched_example = reschedule-Switched interrupted world next_world entered_world

abbrev idle_event : EventState
idle_event = record {
  pending = 0;
  event_waiting = false;
  last_trigger = 0;
  status = running;
  place = outside;
}

Trace-pending_example :
    ((event_fire 1 (event_fire 2 idle_event)).pending + 0) % 2 ^ 32
    ≡ (idle_event.pending + 2) % 2 ^ 32
Trace-pending_example = Trace-pending idle_event (event_fire 1 (event_fire 2 idle_event)) 2 0 (
    and_then (and_then (start idle_event) (fires 2 idle_event)) (fires 1 (event_fire 2 idle_event)))
