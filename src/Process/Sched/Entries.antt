-- ===== src/Process/Sched/Entries.antt =====
-- The entries of the tables of tasks and threads, as they are stored to and age.
use pastoral.Base.{
  ℕ, zero, suc, ◌+◌, ◌≡◌, ◌≢◌, refl, ap, ◌∙◌, List, [], ◌∷◌, Option, none, some, get_elem?, set,
  >>=-eq-some, get_elem?-set_self, get_elem?-set_ne, lt_of_get_elem?, arith, ltb, ◌&&◌,
  if◌then◌else◌,
}
use pastoral.Process.{Status, Thread, Task}
use pastoral.Process.Sched.{get_task, get_thread, find_next, is_waiting}

pub get_task-set :
    (tasks : List (Option Task)) (i : ℕ) (t : Task) {u : Task}
    → get_task tasks i ≡ some u
    → get_task (set tasks i (some t)) i ≡ some t
unfolding get_task
get_task-set tasks i t {u = u} e =
    let (x, p, q) = >>=-eq-some (get_elem? tasks i) (λ t. t) e in
    rw (get_elem?-set_self tasks i (some t) (lt_of_get_elem? tasks i p)) refl

pub get_thread-set :
    (threads : List (Option Thread)) (j : ℕ) (t : Thread) {u : Thread}
    → get_thread threads j ≡ some u
    → get_thread (set threads j (some t)) j ≡ some t
unfolding get_thread
get_thread-set threads j t {u = u} e =
    let (x, p, q) = >>=-eq-some (get_elem? threads j) (λ t. t) e in
    rw (get_elem?-set_self threads j (some t) (lt_of_get_elem? threads j p)) refl

pub get_task-elem :
    (tasks : List (Option Task)) (i : ℕ) (t : Task)
    → get_task tasks i ≡ some t
    → get_elem? tasks i ≡ some (some t)
unfolding get_task
get_task-elem tasks i t e =
    let (x, p, q) = >>=-eq-some (get_elem? tasks i) (λ t. t) e in p ∙ ap some q

pub get_thread-elem :
    (threads : List (Option Thread)) (j : ℕ) (t : Thread)
    → get_thread threads j ≡ some t
    → get_elem? threads j ≡ some (some t)
unfolding get_thread
get_thread-elem threads j t e =
    let (x, p, q) = >>=-eq-some (get_elem? threads j) (λ t. t) e in p ∙ ap some q

pub get_task-set_ne :
    (tasks : List (Option Task)) (i k : ℕ) (t : Option Task)
    → i ≢ k
    → get_task (set tasks i t) k ≡ get_task tasks k
unfolding get_task
get_task-set_ne tasks i k t ne = rw (get_elem?-set_ne tasks i k t ne) refl

pub get_thread-set_ne :
    (threads : List (Option Thread)) (j l : ℕ) (t : Option Thread)
    → j ≢ l
    → get_thread (set threads j t) l ≡ get_thread threads l
unfolding get_thread
get_thread-set_ne threads j l t ne = rw (get_elem?-set_ne threads j l t ne) refl

-- The search for the next entry ages every entry.
module _ {A : Type 0} (state : A → Status) (idle : A → ℕ) (age : A → A) where
  pub find_next-ages :
      (i cnt : ℕ) (best : Option ℕ) (xs : List (Option A)) (j : ℕ) (x : A)
      → get_elem? xs j ≡ some (some x)
      → get_elem? (find_next state idle age i cnt best xs).1 j ≡ some (some (age x))
  unfolding find_next
  find_next-ages i cnt best [] j x e = absurd (ground arith)
  find_next-ages i cnt best (none ∷ xs) zero x e = absurd (ground arith)
  find_next-ages i cnt best (none ∷ xs) (suc j) x e = find_next-ages (i + 1) cnt best xs j x e
  find_next-ages i cnt best (some y ∷ xs) zero x e =
      let same : y ≡ x = ground (arith, e) in ap (λ z. some (some (age z))) same
  find_next-ages i cnt best (some y ∷ xs) (suc j) x e =
      let better = is_waiting (state y) && ltb cnt (idle (age y)) in
      find_next-ages (i + 1) (if better then idle (age y) else cnt)
        (if better then some i else best) xs j x e
