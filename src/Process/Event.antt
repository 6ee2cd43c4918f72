-- ===== src/Process/Event.antt =====
-- `event_wait` and `event_fire` of kernel/sched/sched.c, on the event of one task and the one thread
-- that waits for it. `sched_dequeue` and `sched_requeue` change the status; the scheduler clears
-- `event_waiting` when it enters the task again.
use pastoral.Base.{
  ℕ, suc, ◌+◌, ◌-◌, ◌%◌, ◌^◌, ◌≡◌, Bool, true, false, ◌==◌, if◌then◌else◌, arith, ltb,
}
use pastoral.Process.{Status, running, waiting, yield}

-- Where the thread stands in `event_wait`: outside, or in its loop, waiting for a type of event.
pub data Place : Type 0 where
  outside : Place
  looping : ℕ → Place

-- `pending` of the event, an `int` as a 32-bit word, `event_waiting` and the type of `last_trigger` of the task, its status, and
-- the place of its thread.
pub record EventState : Type 0 where
  pub pending : ℕ
  pub event_waiting : Bool
  pub last_trigger : ℕ
  pub status : Status
  pub place : Place

-- One turn of the loop: `sched_dequeue`, then `event_waiting = 1`.
unfoldable pub block : ℕ → EventState → EventState
block ty s = record s { status = yield; event_waiting = true; place = looping ty }

-- `event_wait` up to its return or its first sleep.
unfoldable pub event_wait : ℕ → EventState → EventState
unfolding block
event_wait ty s =
    if ltb 0 s.pending then record s { pending = s.pending - 1; place = outside } else block ty s

-- `event_fire`
unfoldable pub event_fire : ℕ → EventState → EventState
event_fire ty s = record s {
  pending = (s.pending + 1) % 2 ^ 32;
  last_trigger = ty;
  status = waiting;
}

-- `reschedule` enters the task: running, `event_waiting = 0`.
unfoldable pub resume : EventState → EventState
resume s = record s { status = running; event_waiting = false }

-- Behind `while(task->event_waiting)`: the thread returns if the trigger has the type, or sleeps
-- again.
unfoldable pub wake : ℕ → EventState → EventState
unfolding block
wake ty s =
    let s' : EventState = record s { event_waiting = false } in
    if s'.last_trigger == ty then record s' { place = outside } else block ty s'

-- What can happen: a thread outside waits for a type; a trigger fires; the scheduler enters a task
-- that is waiting to run, or takes the processor away; a thread that runs in its loop goes on. The
-- number is 1 for a fire, 2 for a wait that returns at once, and 0 for the other steps.
pub data Step : EventState → ℕ → EventState → Type 0 where
  waits :
      (ty : ℕ) (s : EventState)
      → s.place ≡ outside
      → s.status ≡ running
      → s.pending ≡ 0
      → Step s 0 (event_wait ty s)
  returns :
      (ty n : ℕ) (s : EventState)
      → s.place ≡ outside
      → s.status ≡ running
      → s.pending ≡ suc n
      → Step s 2 (event_wait ty s)
  fires : (ty : ℕ) (s : EventState) → Step s 1 (event_fire ty s)
  enters : (s : EventState) → s.status ≡ waiting → Step s 0 (resume s)
  parks : (s : EventState) → s.status ≡ running → Step s 0 (record s { status = waiting })
  goes_on :
      (ty : ℕ) (s : EventState)
      → s.place ≡ looping ty
      → s.status ≡ running
      → s.event_waiting ≡ false
      → Step s 0 (wake ty s)

-- Steps with the numbers of fires and of waits that returned at once.
pub data Trace : EventState → ℕ → ℕ → EventState → Type 0 where
  start : (s : EventState) → Trace s 0 0 s
  and_then :
      {s t u : EventState} {fired immediate k : ℕ}
      → Trace s fired immediate t
      → Step t k u
      → Trace s (fired + (if k == 1 then 1 else 0)) (immediate + (if k == 2 then 1 else 0)) u

Step-pending :
    {s t : EventState} {k : ℕ}
    → Step s k t
    → (t.pending + (if k == 2 then 1 else 0)) % 2 ^ 32
      ≡ (s.pending + (if k == 1 then 1 else 0)) % 2 ^ 32
unfolding event_wait event_fire resume wake
Step-pending (waits ty s p r z) = ground arith
Step-pending (returns ty n s p r z) = ground arith
Step-pending (fires ty s) = omega arith
Step-pending (enters s r) = omega arith
Step-pending (parks s r) = omega arith
Step-pending (goes_on ty s p r w) = ground arith

-- A wait that sleeps and is woken does not take its event back: in every run, the pending events are
-- those of the start and all that were fired, less only the waits that returned at once, on 32 bits.
pub Trace-pending :
    (s t : EventState) (fired immediate : ℕ)
    → Trace s fired immediate t
    → (t.pending + immediate) % 2 ^ 32 ≡ (s.pending + fired) % 2 ^ 32
Trace-pending s t _ _ (start _) = omega arith
Trace-pending s u _ _ (and_then {t = t} {fired = f} {immediate = m} run step) =
    omega (arith, Trace-pending s t f m run, Step-pending step)

-- A thread that sleeps for a type of event is woken by a trigger of that type: once the scheduler
-- has entered it, it leaves `event_wait` without a further sleep; a trigger of another type makes it
-- sleep again. Either way the event stays pending.
pub event_fire-wake :
    (ty fired : ℕ) (s : EventState)
    → s.pending ≡ 0
    → let woken = wake ty (resume (event_fire fired (event_wait ty s))) in
      (woken.pending ≡ 1)
      × (fired ≡ ty → (woken.place ≡ outside) × (woken.status ≡ running))
      × ((fired == ty) ≡ false → (woken.place ≡ looping ty) × (woken.status ≡ yield))
unfolding wake resume event_fire event_wait
event_fire-wake ty fired s z =
    (ground arith, λ e. (ground arith, ground arith), λ ne. (ground arith, ground arith))

-- After one wait that slept, the next wait returns at once, whatever its type, though nothing has
-- fired in between.
pub event_wait-spurious :
    (ty other : ℕ) (s : EventState)
    → s.pending ≡ 0
    → let woken = wake ty (resume (event_fire ty (event_wait ty s))) in
      ((event_wait other woken).place ≡ outside)
      × ((event_wait other woken).pending ≡ 0)
      × ((event_wait other woken).last_trigger ≡ ty)
unfolding wake resume event_fire event_wait
event_wait-spurious ty other s z = (ground arith, ground arith, ground arith)
