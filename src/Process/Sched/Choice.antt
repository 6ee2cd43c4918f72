-- ===== src/Process/Sched/Choice.antt =====
-- Which entry `find_next_task` and `find_next_thread` choose.
use pastoral.Base.{
  ℕ, zero, suc, ◌+◌, ◌%◌, ◌^◌, ◌<◌, ◌≤◌, ◌≡◌, ◌≢◌, refl, ◌⊎◌, inl, inr, List, [], ◌∷◌, true, false,
  ◌&&◌, ltb, arith, Option, none, some, get_elem?, Bool-cases, ap, ◌∙◌,
}
use pastoral.Process.{Status, waiting, Thread, Task}
use pastoral.Process.Sched.{
  is_waiting, find_next, find_next_thread, find_next_task, age_thread, age_task, sched_requeue,
  task_max_priority,
}

module _ {A : Type 0} (state : A → Status) (idle : A → ℕ) (age : A → A) where
  -- The entries that are waiting have, aged, a count of at most `cnt`.
  abbrev pub Below : ℕ → List (Option A) → Type 0
  Below cnt xs =
      (j : ℕ) (y : A)
      → get_elem? xs j ≡ some (some y)
      → is_waiting (state y) ≡ true
      → idle (age y) ≤ cnt

  -- The entry `k` is waiting, its aged count is above `cnt`, and none that waits has more.
  pub record Best (cnt : ℕ) (xs : List (Option A)) (k : ℕ) (x : A) : Type 0 where
    pub entry : get_elem? xs k ≡ some (some x)
    pub waits : is_waiting (state x) ≡ true
    pub above : cnt < idle (age x)
    pub most : Below (idle (age x)) xs

  abbrev pub Result : ℕ → ℕ → Option ℕ → List (Option A) → Type 0
  Result i cnt best xs =
      ((find_next state idle age i cnt best xs).0 ≡ best) × Below cnt xs
      ⊎ ((k : ℕ) × (x : A) × ((find_next state idle age i cnt best xs).0 ≡ some (i + k))
          × Best cnt xs k x)

  Below-empty : (cnt : ℕ) → Below cnt []
  Below-empty cnt j y e w = absurd (ground arith)

  Below-none : (cnt : ℕ) (xs : List (Option A)) → Below cnt xs → Below cnt (none ∷ xs)
  Below-none cnt xs b zero y e w = absurd (ground arith)
  Below-none cnt xs b (suc j) y e w = b j y e w

  Below-some :
      (cnt : ℕ) (x : A) (xs : List (Option A))
      → (is_waiting (state x) ≡ true → idle (age x) ≤ cnt)
      → Below cnt xs
      → Below cnt (some x ∷ xs)
  Below-some cnt x xs h b zero y e w =
      let same : x ≡ y = ground arith in
      ground (arith, ap (λ t. idle (age t)) same, ap (λ t. is_waiting (state t)) same, h)
  Below-some cnt x xs h b (suc j) y e w = b j y e w

  Below-le : (c d : ℕ) (xs : List (Option A)) → c ≤ d → Below c xs → Below d xs
  Below-le c d xs h b j y e w = omega (arith, b j y e w)

  find_next-none :
      (i cnt : ℕ) (best : Option ℕ) (xs : List (Option A))
      → (find_next state idle age i cnt best (none ∷ xs)).0
        ≡ (find_next state idle age (i + 1) cnt best xs).0
  unfolding find_next
  find_next-none i cnt best xs = refl

  find_next-better :
      (i cnt : ℕ) (best : Option ℕ) (x : A) (xs : List (Option A))
      → (is_waiting (state x) && ltb cnt (idle (age x))) ≡ true
      → (find_next state idle age i cnt best (some x ∷ xs)).0
        ≡ (find_next state idle age (i + 1) (idle (age x)) (some i) xs).0
  unfolding find_next
  find_next-better i cnt best x xs h = rw h refl

  find_next-worse :
      (i cnt : ℕ) (best : Option ℕ) (x : A) (xs : List (Option A))
      → (is_waiting (state x) && ltb cnt (idle (age x))) ≡ false
      → (find_next state idle age i cnt best (some x ∷ xs)).0
        ≡ (find_next state idle age (i + 1) cnt best xs).0
  unfolding find_next
  find_next-worse i cnt best x xs h = rw h refl

  Best-none :
      (cnt : ℕ) (xs : List (Option A)) (k : ℕ) (x : A)
      → Best cnt xs k x
      → Best cnt (none ∷ xs) (suc k) x
  Best-none cnt xs k x b = record {
    entry = b.entry;
    waits = b.waits;
    above = b.above;
    most = Below-none (idle (age x)) xs b.most;
  }

  Best-some :
      (c cnt : ℕ) (y : A) (xs : List (Option A)) (k : ℕ) (x : A)
      → (is_waiting (state y) ≡ true → idle (age y) ≤ c)
      → cnt ≤ c
      → Best c xs k x
      → Best cnt (some y ∷ xs) (suc k) x
  Best-some c cnt y xs k x h le b = record {
    entry = b.entry;
    waits = b.waits;
    above = omega (arith, b.above);
    most = Below-some (idle (age x)) y xs (λ w. omega (arith, h w, b.above)) b.most;
  }

  pub find_next-Result : (i cnt : ℕ) (best : Option ℕ) (xs : List (Option A)) → Result i cnt best xs
  find_next-Result i cnt best [] = inl (unfold find_next in refl, Below-empty cnt)
  find_next-Result i cnt best (none ∷ xs) = elim (find_next-Result (i + 1) cnt best xs) [
    | inl (r, b) ↦ inl (find_next-none i cnt best xs ∙ r, Below-none cnt xs b)
    | inr (k, x, r, b) ↦
        inr (
          suc k,
          x,
          find_next-none i cnt best xs ∙ r ∙ ap some (omega arith),
          Best-none cnt xs k x b,
        )
  ]
  find_next-Result i cnt best (some y ∷ xs) =
      elim (Bool-cases (is_waiting (state y) && ltb cnt (idle (age y)))) [
        | inl yes_ ↦ elim (find_next-Result (i + 1) (idle (age y)) (some i) xs) [
          | inl (r, b) ↦ inr (
            0,
            y,
            find_next-better i cnt best y xs yes_ ∙ r ∙ ap some (omega arith),
            record {
              entry = refl;
              waits = ground arith;
              above = ground arith;
              most = Below-some (idle (age y)) y xs (λ w. omega arith) b;
            },
          )
          | inr (k, x, r, b) ↦ inr (
            suc k,
            x,
            find_next-better i cnt best y xs yes_ ∙ r ∙ ap some (omega arith),
            Best-some (idle (age y)) cnt y xs k x (λ w. omega arith) (ground arith) b,
          )
        ]
        | inr no_ ↦ elim (find_next-Result (i + 1) cnt best xs) [
          | inl (r, b) ↦
              inl
                (find_next-worse i cnt best y xs no_ ∙ r, Below-some cnt y xs (λ w. ground arith) b)
          | inr (k, x, r, b) ↦ inr (
            suc k,
            x,
            find_next-worse i cnt best y xs no_ ∙ r ∙ ap some (omega arith),
            Best-some cnt cnt y xs k x (λ w. ground arith) (omega arith) b,
          )
        ]
      ]

abbrev pub ThreadBest : ℕ → List (Option Thread) → ℕ → Thread → Type 0
ThreadBest = Best (λ t. t.status) (λ t. t.idle_cnt) age_thread

abbrev pub ThreadBelow : ℕ → List (Option Thread) → Type 0
ThreadBelow = Below (λ t. t.status) (λ t. t.idle_cnt) age_thread

abbrev pub TaskBest : ℕ → List (Option Task) → ℕ → Task → Type 0
TaskBest = Best (λ t. t.status) (λ t. t.idle_cnt) age_task

abbrev pub TaskBelow : ℕ → List (Option Task) → Type 0
TaskBelow = Below (λ t. t.status) (λ t. t.idle_cnt) age_task

-- `find_next_task` returns a waiting task whose count, aged by this call, is not 0 and the largest
-- of all waiting tasks, or NULL, and NULL only if every waiting task has aged to 0.
pub find_next_task-Best :
    (tasks : List (Option Task))
    → (((find_next_task tasks).0 ≡ none) × TaskBelow 0 tasks)
      ⊎ ((k : ℕ) × (t : Task) × ((find_next_task tasks).0 ≡ some k) × TaskBest 0 tasks k t)
unfolding find_next_task
find_next_task-Best tasks =
    elim (find_next-Result (λ t. t.status) (λ t. t.idle_cnt) age_task 0 0 none tasks) [
      | inl r ↦ inl r
      | inr (k, t, r, b) ↦ inr (k, t, r ∙ ap some (omega arith), b)
    ]

pub find_next_thread-Best :
    (threads : List (Option Thread))
    → (((find_next_thread threads).0 ≡ none) × ThreadBelow 0 threads)
      ⊎ ((k : ℕ) × (t : Thread) × ((find_next_thread threads).0 ≡ some k)
          × ThreadBest 0 threads k t)
unfolding find_next_thread
find_next_thread-Best threads =
    elim (find_next-Result (λ t. t.status) (λ t. t.idle_cnt) age_thread 0 0 none threads) [
      | inl r ↦ inl r
      | inr (k, t, r, b) ↦ inr (k, t, r ∙ ap some (omega arith), b)
    ]

-- A task that `sched_requeue` has just put back is not the one that the next `find_next_task`
-- chooses, whatever else waits: its maximal count ages to 0.
pub find_next_task-sched_requeue :
    (tasks : List (Option Task)) (task : Task) (thread : Thread) (k : ℕ)
    → get_elem? tasks k ≡ some (some (sched_requeue (task, thread)).0)
    → (find_next_task tasks).0 ≢ some k
unfolding sched_requeue
find_next_task-sched_requeue tasks task thread k e chosen = elim (find_next_task-Best tasks) [
  | inl (r, b) ↦ ground (arith, r, chosen)
  | inr (j, t, r, b) ↦
      let same : j ≡ k = ground (arith, r, chosen) in
      let is_t : record task { status = waiting; idle_cnt = task_max_priority } ≡ t =
        ground (arith, b.entry, e, ap (get_elem? tasks) same) in
      let wraps : (task_max_priority + 1) % 2 ^ 64 ≡ (age_task t).idle_cnt = aged t is_t in
      absurd (omega (arith, b.above))
]
  where
    aged :
        (t : Task)
        → record task { status = waiting; idle_cnt = task_max_priority } ≡ t
        → (task_max_priority + 1) % 2 ^ 64 ≡ (age_task t).idle_cnt
    aged t p = unfold age_task in ap (λ x. (age_task x).idle_cnt) p
