-- ===== src/Sched/PidLaws.antt =====
-- kernel/sched.c: a new pid was free and then names its task; ids are never given back.
use mirros.Base.{
  ℕ, zero, suc, ◌+◌, ◌-◌, ◌≤◌, ◌<◌, ◌≡◌, ◌≢◌, ◌⊎◌, inl, inr, refl, none, some, List, [], ◌∷◌, arith,
  ◌==◌, Bool-cases, Option-cases,
}
use mirros.Base.Int.{ℤ, pos, negsuc, minus_one}
use mirros.Sched.{PidMap}
use mirros.Sched.Pid.{find_free, get_new_pid, release_pid, pid_get_task}

-- The scan returns the first free id of its range, and none when the range is full.
find_free_lem :
    (k i : ℕ) (base : ℕ → ℕ)
    → ((find_free k i base ≡ none) × ((q : ℕ) → i ≤ q → q < i + k → base q ≢ 0))
      ⊎ ((j : ℕ) × (find_free k i base ≡ some j)
          × (i ≤ j)
          × (j < i + k)
          × (base j ≡ 0)
          × ((q : ℕ) → i ≤ q → q < j → base q ≢ 0))
unfolding find_free
find_free_lem zero i base = inl (refl, λ q a b. absurd (omega arith))
find_free_lem (suc k) i base = elim (Bool-cases (base i == 0)) [
  | inl e ↦
      rw e (inr (i, refl, omega arith, omega arith, ground arith, λ q a b. absurd (omega arith)))
  | inr e ↦ rw e (elim (find_free_lem k (i + 1) base) [
    | inl (f, full) ↦ inl (
      f,
      λ q a b. elim (Bool-cases (q == i)) [
        | inl same ↦ ground arith
        | inr other ↦ full q (ground arith) (omega arith)
      ],
    )
    | inr (j, f, a, b, c, d) ↦ inr (
      j,
      f,
      omega arith,
      omega arith,
      c,
      λ q p r. elim (Bool-cases (q == i)) [
        | inl same ↦ ground arith
        | inr other ↦ d q (ground arith) r
      ],
    )
  ])
]

-- What `get_new_pid` does: it fails and changes nothing when its count is used up or no id from
-- `current` on is free; else it takes the first free id from `current` on, which then names the
-- task, and every other id names what it named.
pub get_new_pid_cases :
    (map : PidMap) (task : ℕ)
    → ((get_new_pid map task ≡ (map, minus_one))
        × ((map.nr_free ≡ 0) ⊎ ((q : ℕ) → map.current ≤ q → q < map.nr → map.addr q ≢ 0)))
      ⊎ ((j : ℕ) × ((get_new_pid map task).1 ≡ pos j)
          × (map.current ≤ j)
          × (j < map.nr)
          × (map.addr j ≡ 0)
          × (pid_get_task (get_new_pid map task).0 j ≡ task)
          × ((q : ℕ) → q ≢ j → pid_get_task (get_new_pid map task).0 q ≡ pid_get_task map q))
unfolding get_new_pid pid_get_task
get_new_pid_cases map task = elim (Bool-cases (map.nr_free == 0)) [
  | inl e ↦ inl (ground arith, inl (ground arith))
  | inr e ↦ elim (find_free_lem (map.nr - map.current) map.current map.addr) [
    | inl (f, full) ↦ inl (ground arith, inr (λ q a b. full q a (omega arith)))
    | inr (j, f, a, b, c, d) ↦
        inr (j, ground arith, a, omega arith, c, ground arith, λ q ne. ground arith)
  ]
]

-- A use of the pid map: a new pid for a task, or the release of a pid.
pub data PidUse : Type 0 where
  take : ℕ → PidUse
  release : ℕ → PidUse

abbrev pub use_pid : PidMap → PidUse → PidMap
use_pid map (take task) = (get_new_pid map task).0
use_pid map (release pid) = release_pid map pid

-- One for a pid that was given out.
abbrev pub given : ℤ → ℕ
given (pos n) = 1
given (negsuc n) = 0

abbrev pub given_by : PidMap → PidUse → ℕ
given_by map (take task) = given (get_new_pid map task).1
given_by map (release pid) = 0

-- The pids given out by a sequence of uses, and the map after it.
abbrev pub total_given : PidMap → List PidUse → ℕ
total_given map [] = 0
total_given map (u ∷ us) = given_by map u + total_given (use_pid map u) us

use_pid-nr_free :
    (map : PidMap) (u : PidUse) → given_by map u + (use_pid map u).nr_free ≡ map.nr_free
unfolding get_new_pid release_pid
use_pid-nr_free map (take task) =
    ground (arith, Option-cases (find_free (map.nr - map.current) map.current map.addr))
use_pid-nr_free map (release pid) = omega arith

-- However often pids are released, a map gives out no more of them than it counts as free.
pub total_given-le_nr_free : (map : PidMap) (us : List PidUse) → total_given map us ≤ map.nr_free
total_given-le_nr_free map [] = omega arith
total_given-le_nr_free map (u ∷ us) =
    omega (arith, use_pid-nr_free map u, total_given-le_nr_free (use_pid map u) us)
