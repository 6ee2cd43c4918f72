-- ===== src/Process.antt =====
-- The state that the process code keeps: kernel/sched/sched.h, kernel/sched/signal.h, the registers
-- of kernel/lib/cpu.h, and the error codes of kernel/lib/errno.h.
pub mod Cred
pub mod Signals
pub mod Sched
pub mod Event
mod Tests
use pastoral.Base.{ℕ, List, Option, Bool}

pub data Errno : Type 0 where
  eacces ebadf eexist einval eisdir enametoolong enodev enoent enotdir enotty eperm espipe : Errno
  esrch erange : Errno

-- What a system call leaves in `rax`: a value, or -1 with the code that `set_errno` was given, or -1
-- alone.
pub data Reply : Type 0 where
  ret : ℕ → Reply
  fail : Errno → Reply
  minus_one : Reply

-- The user and group ids of `struct sched_task`; an id is the 32-bit pattern of a `uid_t`.
pub record Creds : Type 0 where
  pub real_uid : ℕ
  pub effective_uid : ℕ
  pub saved_uid : ℕ
  pub real_gid : ℕ
  pub effective_gid : ℕ
  pub saved_gid : ℕ

-- `struct sigaction`; the handler is an address.
pub record SigAction : Type 0 where
  pub handler : ℕ
  pub sa_mask : ℕ
  pub sa_flags : ℕ
  pub sa_restorer : ℕ

-- `struct signal`. `sigaction` points into the `sigactions` of the task: here it is the index, or
-- `none` for NULL. What the code only allocates for it (`siginfo`, `trigger`) is left out.
pub record Signal : Type 0 where
  pub refcnt : ℕ
  pub signum : ℕ
  pub sigaction : Option ℕ

-- The registers of `struct registers` that the scheduler reads or writes.
pub record Regs : Type 0 where
  pub rip : ℕ
  pub rsp : ℕ
  pub rdi : ℕ
  pub rsi : ℕ
  pub rdx : ℕ

-- `TASK_RUNNING`, `TASK_WAITING` and `TASK_YIELD`
pub data Status : Type 0 where
  running waiting yield : Status

-- `struct sched_thread`: its signals and its registers.
pub record Thread : Type 0 where
  pub tid : ℕ
  pub status : Status
  pub idle_cnt : ℕ
  pub sigmask : ℕ
  pub sigpending : ℕ
  pub queue : List Signal
  pub regs : Regs

-- `struct sched_task`; `thread_list` is the `data` array of the table, NULL entries included.
pub record Task : Type 0 where
  pub pid : ℕ
  pub status : Status
  pub idle_cnt : ℕ
  pub creds : Creds
  pub sigactions : List SigAction
  pub event_waiting : Bool
  pub thread_list : List (Option Thread)
