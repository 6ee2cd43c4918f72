-- ===== src/Process/Cred.antt =====
-- The system calls on user and group ids of kernel/sched/sched.c.
use pastoral.Base.{
  ℕ, ◌%◌, ◌^◌, ◌≡◌, ◌≢◌, ◌⊎◌, inl, inr, refl, List, [], ◌∷◌, ◌||◌, ◌==◌, if◌then◌else◌, arith,
}
use pastoral.Process.{Reply, ret, fail, eperm, Creds}

-- The argument register is cut to a 32-bit id.
abbrev pub to_id : ℕ → ℕ
to_id rdi = rdi % 2 ^ 32

-- `syscall_setuid`
unfoldable pub setuid : ℕ → Creds → Reply × Creds
setuid rdi c =
    let uid = to_id rdi in
    if c.effective_uid == 0
    then (ret 0, record c { real_uid = uid; effective_uid = uid; saved_uid = uid })
    else if c.real_uid == uid || (c.effective_uid == uid || c.saved_uid == uid)
    then (ret 0, record c { effective_uid = uid })
    else (fail eperm, c)

-- `syscall_seteuid`
unfoldable pub seteuid : ℕ → Creds → Reply × Creds
seteuid rdi c =
    let euid = to_id rdi in
    if c.real_uid == euid || (c.effective_uid == euid || c.saved_uid == euid)
    then (ret 0, record c { effective_uid = euid })
    else (fail eperm, c)

-- `syscall_setgid`
unfoldable pub setgid : ℕ → Creds → Reply × Creds
setgid rdi c =
    let gid = to_id rdi in
    if c.effective_uid == 0
    then (ret 0, record c { real_gid = gid; effective_gid = gid; saved_gid = gid })
    else if c.real_gid == gid || (c.effective_gid == gid || c.saved_gid == gid)
    then (ret 0, record c { effective_gid = gid })
    else (fail eperm, c)

-- `syscall_setegid`
unfoldable pub setegid : ℕ → Creds → Reply × Creds
setegid rdi c =
    let egid = to_id rdi in
    if c.real_gid == egid || (c.effective_gid == egid || c.saved_gid == egid)
    then (ret 0, record c { effective_gid = egid })
    else (fail eperm, c)

-- A program's calls, in order.
pub data Call : Type 0 where
  call_setuid call_seteuid call_setgid call_setegid : ℕ → Call

unfoldable pub step : Call → Creds → Creds
step (call_setuid id) c = (setuid id c).1
step (call_seteuid id) c = (seteuid id c).1
step (call_setgid id) c = (setgid id c).1
step (call_setegid id) c = (setegid id c).1

unfoldable pub run : List Call → Creds → Creds
run [] c = c
run (call ∷ calls) c = run calls (step call c)

abbrev OneOf : ℕ → ℕ → ℕ → ℕ → Type 0
OneOf x a b c = (x ≡ a) ⊎ ((x ≡ b) ⊎ (x ≡ c))

-- No user id of the process is root's.
pub record IsUnprivileged (c : Creds) : Type 0 where
  pub real : c.real_uid ≢ 0
  pub effective : c.effective_uid ≢ 0
  pub saved : c.saved_uid ≢ 0

-- `d` has the real and saved ids of `c`, and its effective ids are among the ids of `c`.
pub record Confined (c d : Creds) : Type 0 where
  pub real_uid : d.real_uid ≡ c.real_uid
  pub saved_uid : d.saved_uid ≡ c.saved_uid
  pub effective_uid : OneOf d.effective_uid c.real_uid c.effective_uid c.saved_uid
  pub real_gid : d.real_gid ≡ c.real_gid
  pub saved_gid : d.saved_gid ≡ c.saved_gid
  pub effective_gid : OneOf d.effective_gid c.real_gid c.effective_gid c.saved_gid

step-Confined :
    (call : Call) (c d : Creds) → IsUnprivileged c → Confined c d → Confined c (step call d)
unfolding step setuid seteuid setgid setegid
step-Confined (call_setuid id) c d u k = ground arith
step-Confined (call_seteuid id) c d u k = ground arith
step-Confined (call_setgid id) c d u k = ground arith
step-Confined (call_setegid id) c d u k = ground arith

run_from-Confined :
    (calls : List Call) (c d : Creds) → IsUnprivileged c → Confined c d → Confined c (run calls d)
unfolding run
run_from-Confined [] c d u k = k
run_from-Confined (call ∷ calls) c d u k =
    run_from-Confined calls c (step call d) u (step-Confined call c d u k)

Confined-self : (c : Creds) → Confined c c
Confined-self c = record {
  real_uid = refl;
  saved_uid = refl;
  effective_uid = inr (inl refl);
  real_gid = refl;
  saved_gid = refl;
  effective_gid = inr (inl refl);
}

-- No sequence of calls takes a process without root's user id outside the ids that it started with:
-- the real and saved ids stay, and the effective ids are among those of the start.
pub run-Confined : (calls : List Call) (c : Creds) → IsUnprivileged c → Confined c (run calls c)
run-Confined calls c u = run_from-Confined calls c c u (Confined-self c)

-- After root's `setuid` to another id, no sequence of calls makes the effective user root again.
pub run-setuid_drops :
    (calls : List Call) (id : ℕ) (c : Creds)
    → c.effective_uid ≡ 0
    → to_id id ≢ 0
    → (run calls (setuid id c).1).effective_uid ≢ 0
run-setuid_drops calls id c root ne =
    let u : IsUnprivileged (setuid id c).1 = dropped in
    let k : Confined (setuid id c).1 (run calls (setuid id c).1) =
      run-Confined calls (setuid id c).1 u in
    ground (arith, k.effective_uid)
  where
    dropped : IsUnprivileged (setuid id c).1
    dropped = unfold setuid in ground arith
