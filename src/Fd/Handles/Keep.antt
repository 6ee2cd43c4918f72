-- ===== src/Fd/Handles/Keep.antt =====
-- The table of handles: what pushing and deleting do to searches and to the number of handles that
-- share a file handle.
use pastoral.Base.{
  ℕ, ◌+◌, ◌≤◌, ◌≡◌, ◌≢◌, refl, inl, inr, ◌==◌, if◌then◌else◌, none, some, List, [], ◌∷◌, arith,
  Bool-cases, ap, ◌∙◌,
}
use pastoral.Fd.{FdHandle, search_fd, push_fd, delete_fd}

-- The handles on the file handle `p`.
unfoldable pub count : ℕ → List FdHandle → ℕ
count p [] = 0
count p (h ∷ hs) = (if h.file_handle == p then 1 else 0) + count p hs

pub search_fd-push_fd :
    (fd : ℕ) (h : FdHandle) (hs : List FdHandle)
    → search_fd fd (push_fd h hs) ≡ (if h.fd_number == fd then some h else search_fd fd hs)
unfolding search_fd push_fd
search_fd-push_fd fd h [] = refl
search_fd-push_fd fd h (k ∷ ks) = ground (arith, search_fd-push_fd fd h ks)

pub search_fd-number :
    (fd : ℕ) (hs : List FdHandle) {h : FdHandle} → search_fd fd hs ≡ some h → h.fd_number ≡ fd
unfolding search_fd
search_fd-number fd [] e = absurd (ground arith)
search_fd-number fd (k ∷ ks) {h = h} e = elim (Bool-cases (k.fd_number == fd)) [
  | inl p ↦ ground (arith, rw p at e)
  | inr p ↦ search_fd-number fd ks (rw p at e)
]

pub search_fd-delete_fd_ne :
    (fd c : ℕ) (hs : List FdHandle) → fd ≢ c → search_fd fd (delete_fd c hs) ≡ search_fd fd hs
unfolding search_fd delete_fd
search_fd-delete_fd_ne fd c [] ne = refl
search_fd-delete_fd_ne fd c (k ∷ ks) ne = ground (arith, search_fd-delete_fd_ne fd c ks ne)

pub count-push_fd :
    (p : ℕ) (h : FdHandle) (hs : List FdHandle)
    → search_fd h.fd_number hs ≡ none
    → count p (push_fd h hs) ≡ count p hs + (if h.file_handle == p then 1 else 0)
unfolding search_fd push_fd count
count-push_fd p h [] e = ground arith
count-push_fd p h (k ∷ ks) e = elim (Bool-cases (k.fd_number == h.fd_number)) [
  | inl q ↦ absurd (ground (arith, rw q at e))
  | inr q ↦ ground (arith, count-push_fd p h ks (rw q at e))
]

pub count-delete_fd :
    (p fd : ℕ) (hs : List FdHandle) {h : FdHandle}
    → search_fd fd hs ≡ some h
    → count p (delete_fd fd hs) + (if h.file_handle == p then 1 else 0) ≡ count p hs
unfolding search_fd delete_fd count
count-delete_fd p fd [] e = absurd (ground arith)
count-delete_fd p fd (k ∷ ks) {h = h} e = elim (Bool-cases (k.fd_number == fd)) [
  | inl q ↦
      let same : k ≡ h = ground (arith, rw q at e) in
      rw q (ground (arith, ap (λ x. x.file_handle) same))
  | inr q ↦ rw q (ground (arith, count-delete_fd p fd ks {h = h} (rw q at e)))
]

pub count-pos :
    (fd : ℕ) (hs : List FdHandle) {h : FdHandle}
    → search_fd fd hs ≡ some h
    → 1 ≤ count h.file_handle hs
count-pos fd hs {h = h} e = ground (arith, count-delete_fd h.file_handle fd hs e)

-- Each descriptor has one handle.
abbrev pub Distinct : List FdHandle → Type 0
Distinct hs = (fd : ℕ) → search_fd fd (delete_fd fd hs) ≡ none

delete_fd-absent : (fd : ℕ) (hs : List FdHandle) → search_fd fd hs ≡ none → delete_fd fd hs ≡ hs
unfolding search_fd delete_fd
delete_fd-absent fd [] e = refl
delete_fd-absent fd (k ∷ ks) e = elim (Bool-cases (k.fd_number == fd)) [
  | inl q ↦ absurd (ground (arith, rw q at e))
  | inr q ↦ rw q (ap (λ x. k ∷ x) (delete_fd-absent fd ks (rw q at e)))
]

delete_fd-push_fd_self :
    (h : FdHandle) (hs : List FdHandle)
    → delete_fd h.fd_number (push_fd h hs) ≡ delete_fd h.fd_number hs
unfolding delete_fd push_fd
delete_fd-push_fd_self h [] = ground arith
delete_fd-push_fd_self h (k ∷ ks) = ground (arith, delete_fd-push_fd_self h ks)

delete_fd-push_fd_ne :
    (fd : ℕ) (h : FdHandle) (hs : List FdHandle)
    → fd ≢ h.fd_number
    → delete_fd fd (push_fd h hs) ≡ push_fd h (delete_fd fd hs)
unfolding delete_fd push_fd
delete_fd-push_fd_ne fd h [] ne = ground arith
delete_fd-push_fd_ne fd h (k ∷ ks) ne = ground (arith, delete_fd-push_fd_ne fd h ks ne)

delete_fd_comm :
    (a b : ℕ) (hs : List FdHandle)
    → a ≢ b
    → delete_fd a (delete_fd b hs) ≡ delete_fd b (delete_fd a hs)
unfolding delete_fd
delete_fd_comm a b [] ne = refl
delete_fd_comm a b (k ∷ ks) ne = ground (arith, delete_fd_comm a b ks ne)

pub push_fd-Distinct : (h : FdHandle) (hs : List FdHandle) → Distinct hs → Distinct (push_fd h hs)
push_fd-Distinct h hs d fd = elim (Bool-cases (fd == h.fd_number)) [
  | inl p ↦
      let q : fd ≡ h.fd_number = ground arith in
      rw q (rw (delete_fd-push_fd_self h hs) (d h.fd_number))
  | inr p ↦
      rw (delete_fd-push_fd_ne fd h hs (ground arith))
        (search_fd-push_fd fd h (delete_fd fd hs) ∙ ground (arith, d fd))
]

pub delete_fd-Distinct : (c : ℕ) (hs : List FdHandle) → Distinct hs → Distinct (delete_fd c hs)
delete_fd-Distinct c hs d fd = elim (Bool-cases (fd == c)) [
  | inl p ↦
      let q : fd ≡ c = ground arith in rw q (rw (delete_fd-absent c (delete_fd c hs) (d c)) (d c))
  | inr p ↦
      rw (delete_fd_comm fd c hs (ground arith))
        (search_fd-delete_fd_ne fd c (delete_fd fd hs) (ground arith) ∙ d fd)
]
