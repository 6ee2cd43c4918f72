-- ===== src/Pmm/Alloc.antt =====
-- `pmm_module_alloc` hands out runs of free pages.
use pastoral.Base.{
  ℕ, zero, suc, ◌+◌, ◌-◌, ◌*◌, ◌/◌, ◌%◌, ◌^◌, ◌≤◌, ◌<◌, ◌≡◌, refl, ◌⊎◌, inl, inr, false, Option,
  none, some, length, ltb, ◌==◌, if◌then◌else◌, arith, Bool-cases, ◌∙◌, sym, ap, subst,
}
use native.Mathlib.Nat.{mul_assoc, suc-mul, div-mul-le_self, lt-div-mul-add}
use pastoral.Bitmap.{get_bit}
use pastoral.Pmm.{
  PmmModule, page_size, add, align_up, busy, whole, try_run, take_run, search_runs,
  pmm_module_alloc,
}
use pastoral.Pmm.Run.{Free, inside, try_run-start, set_run-bits, next_free-lt}

-- A module: its bitmap covers its pages, and they lie in the address space, which leaves room for
-- one step of `gap` more.
pub record IsModule (gap : ℕ) (m : PmmModule) : Type 0 where
  pub covered : m.bitmap_entry_cnt ≤ 8 * length m.bits
  pub fits : m.base + (m.bitmap_entry_cnt + gap) * page_size < 2 ^ 64
  pub hint : m.last_free ≤ m.bitmap_entry_cnt
  pub aligned : m.base % page_size ≡ 0

-- `m'` is `m` with the `cnt` free pages from number `k` on taken.
pub record Taken (k cnt : ℕ) (m m' : PmmModule) : Type 0 where
  pub in_range : k + cnt ≤ m.bitmap_entry_cnt
  pub were_free : Free m.bits k cnt
  pub now : (x : ℕ) → get_bit m'.bits x ≡ (if inside k cnt x then 1 else get_bit m.bits x)
  pub same_base : m'.base ≡ m.base
  pub same_size : m'.bitmap_entry_cnt ≡ m.bitmap_entry_cnt
  pub covered : m'.bitmap_entry_cnt ≤ 8 * length m'.bits
  pub hint : m'.last_free ≤ m'.bitmap_entry_cnt

take_run-Taken :
    (cnt k : ℕ) (m : PmmModule) {gap : ℕ}
    → IsModule gap m
    → 1 ≤ cnt
    → k + cnt ≤ m.bitmap_entry_cnt
    → Free m.bits k cnt
    → (m' : PmmModule) × (take_run cnt k (k + cnt - 1) m ≡ some m') × Taken k cnt m m'
unfolding take_run
take_run-Taken cnt k m v h room f =
    let (b, r, l, g) = set_run-bits cnt k m.bits (omega (arith, v.covered)) in
    let z : ℕ = k + cnt - 1 in
    let (last, r', le) = next_free-lt (m.bitmap_entry_cnt - z) z b (omega (arith, v.covered, l)) in
    (
      record m { bits = b; last_free = last },
      rw (r, r') refl,
      record {
        in_range = room;
        were_free = f;
        now = g;
        same_base = refl;
        same_size = refl;
        covered = omega (arith, v.covered, l);
        hint = omega arith;
      },
    )

-- How `pmm_module_alloc` can end.
abbrev pub Allocated : ℕ → ℕ → PmmModule → Option (Option ℕ × PmmModule) → Type 0
Allocated cnt align m result =
    ((k : ℕ) × (q : ℕ) × (m' : PmmModule) × (result ≡ some (some (m.base + k * page_size), m'))
      × (m.base + k * page_size ≡ q * (align * page_size))
      × Taken k cnt m m')
    ⊎ (result ≡ some (none, m))

module _ (cnt align : ℕ) (m : PmmModule) (v : IsModule (align + cnt) m) (some_pages : 1 ≤ cnt)
    (some_step : 1 ≤ align) where
  step_eq : (align * page_size) % 2 ^ 64 ≡ align * page_size
  step_eq = omega (arith, v.fits)

  -- The rounds of the outer loop.
  search_runs-end :
      (n i base : ℕ)
      → m.bitmap_entry_cnt ≤ i
      → search_runs (suc n) i base cnt align m ≡ some (none, m)
  unfolding search_runs
  search_runs-end n i base h = ground arith

  search_runs-short :
      (n i base : ℕ)
      → i < m.bitmap_entry_cnt
      → m.bitmap_entry_cnt < i + cnt
      → search_runs (suc n) i base cnt align m ≡ some (none, m)
  unfolding search_runs
  search_runs-short n i base lt short =
      let sum : add i cnt ≡ i + cnt = omega (arith, v.fits) in ground (arith, sum)

  search_runs-busy :
      (n i base : ℕ)
      → i + cnt ≤ m.bitmap_entry_cnt
      → base < 2 ^ 64 - align * page_size
      → try_run cnt i 0 cnt m.bits ≡ some busy
      → search_runs (suc n) i base cnt align m
        ≡ search_runs n (i + align) (base + align * page_size) cnt align m
  unfolding search_runs
  search_runs-busy n i base room fits e =
      let sum : add i cnt ≡ i + cnt = omega (arith, v.fits) in
      let rounds : i + cnt - i ≡ cnt = omega arith in
      let next : add i align ≡ i + align = omega (arith, v.fits) in
      let next_base : add base (align * page_size) ≡ base + align * page_size = omega arith in
      ground (arith, sum, rounds, next, next_base, step_eq, e)

  search_runs-whole :
      (n i base j : ℕ) (m' : PmmModule)
      → i + cnt ≤ m.bitmap_entry_cnt
      → try_run cnt i 0 cnt m.bits ≡ some (whole j)
      → take_run cnt i j m ≡ some m'
      → search_runs (suc n) i base cnt align m ≡ some (some base, m')
  unfolding search_runs
  search_runs-whole n i base j m' room e t =
      let sum : add i cnt ≡ i + cnt = omega (arith, v.fits) in
      let rounds : i + cnt - i ≡ cnt = omega arith in ground (arith, sum, rounds, e, t)

  search_runs-Allocated :
      (n i q base : ℕ)
      → m.bitmap_entry_cnt ≤ n + i
      → base ≡ m.base + i * page_size
      → base ≡ q * (align * page_size)
      → Allocated cnt align m (search_runs (suc n) i base cnt align m)
  search_runs-Allocated zero i q base fuel at multiple =
      inr (search_runs-end 0 i base (omega arith))
  search_runs-Allocated (suc n) i q base fuel at multiple =
      elim (Bool-cases (ltb i m.bitmap_entry_cnt)) [
        | inr stop ↦ inr (search_runs-end (suc n) i base (ground arith))
        | inl go ↦ elim (Bool-cases (ltb m.bitmap_entry_cnt (i + cnt))) [
          | inl short ↦ inr (search_runs-short (suc n) i base (ground arith) (ground arith))
          | inr room ↦ elim (try_run-start cnt i m.bits some_pages (ground (arith, v.covered))) [
            | inl (e, f) ↦
                let (m', t, taken) = take_run-Taken cnt i m v some_pages (ground arith) f in
                inl (
                  i,
                  q,
                  m',
                  search_runs-whole (suc n) i base (i + cnt - 1) m' (ground arith) e t
                      ∙ ap (λ (b : ℕ). some (some b, m')) at,
                  sym at ∙ multiple,
                  taken,
                )
            | inr e ↦
                subst (λ r. Allocated cnt align m r)
                  (sym (search_runs-busy (suc n) i base (ground arith) (ground (arith, v.fits)) e))
                  (search_runs-Allocated n (i + align) (suc q) (base + align * page_size)
                    (omega arith) (omega arith) (omega (arith, suc-mul q (align * page_size))))
          ]
        ]
      ]

  abbrev start : ℕ
  start = m.base + m.last_free * page_size

  abbrev quotient : ℕ
  quotient = (start + (align * page_size - 1)) / (align * page_size)

  align_up-eq : align_up start (align * page_size) ≡ quotient * (align * page_size)
  unfolding align_up
  align_up-eq =
      let same : add start (align * page_size - 1) ≡ start + (align * page_size - 1) =
        omega (arith, v.fits, v.hint) in
      rw same refl

  above : start ≤ quotient * (align * page_size)
  above = omega (
    arith,
    lt-div-mul-add {a = start + (align * page_size - 1)} {b = align * page_size} (omega arith),
  )

  below : quotient * (align * page_size) ≤ start + (align * page_size - 1)
  below = div-mul-le_self (start + (align * page_size - 1)) (align * page_size)

  whole_pages : quotient * (align * page_size) ≡ quotient * align * page_size
  whole_pages = sym (mul_assoc quotient align page_size)

  abbrev first_page : ℕ
  first_page = (quotient * (align * page_size) - m.base) / page_size

  at_page : quotient * (align * page_size) ≡ m.base + first_page * page_size
  at_page = omega (arith, above, whole_pages, v.aligned)

  pmm_module_alloc-eq :
      pmm_module_alloc m cnt align
      ≡ search_runs (suc m.bitmap_entry_cnt) first_page (quotient * (align * page_size)) cnt align m
  unfolding pmm_module_alloc
  pmm_module_alloc-eq =
      let sum : add m.base ((m.last_free * page_size) % 2 ^ 64) ≡ start =
        omega (arith, v.fits, v.hint) in
      let back : (quotient * (align * page_size) + 2 ^ 64 - m.base) % 2 ^ 64 / page_size
          ≡ first_page =
        omega (arith, above, below, v.fits, v.hint) in
      let nonzero : ((align * page_size) == 0) ≡ false = ground arith in
      rw (step_eq, nonzero, sum, align_up-eq, back) refl

  pmm_module_alloc_result : Allocated cnt align m (pmm_module_alloc m cnt align)
  pmm_module_alloc_result =
      subst (λ r. Allocated cnt align m r) (sym pmm_module_alloc-eq)
        (search_runs-Allocated m.bitmap_entry_cnt first_page quotient
          (quotient * (align * page_size)) (omega arith) at_page refl)

-- `pmm_module_alloc` on a module whose addresses leave room for `align + cnt` pages more returns the
-- address of a run of `cnt` pages of the module that is a multiple of `align` pages, whose pages were
-- all free and are now taken, with every other page as it was and the module still in order; or it
-- returns -1 with the module unchanged.
pub pmm_module_alloc-Allocated :
    (cnt align : ℕ) (m : PmmModule)
    → IsModule (align + cnt) m
    → 1 ≤ cnt
    → 1 ≤ align
    → Allocated cnt align m (pmm_module_alloc m cnt align)
pmm_module_alloc-Allocated cnt align m v h k = pmm_module_alloc_result cnt align m v h k
