-- ===== src/Sched/Pid.antt =====
-- kernel/sched.c: process ids.
use mirros.Base.{ℕ, zero, suc, ◌+◌, ◌-◌, Option, none, some, ◌==◌, ltb, if◌then◌else◌, update}
use mirros.Base.Int.{ℤ, pos, negsuc, minus_one}
use mirros.Sched.{PidMap, Sched}

-- `init_pid_allocater`, given what get_free_pages returns; the page is cleared. -ENOMEM is -12.
unfoldable pub init_pid_allocater : ℕ → PidMap × ℤ
init_pid_allocater page =
    if page == 0
    then (record { nr_free = 1024; current = 0; nr = 1024; addr = λ i. 0 }, negsuc 11)
    else (record { nr_free = 1024; current = 0; nr = 1024; addr = λ i. 0 }, pos 0)

unfoldable pub release_pid : PidMap → ℕ → PidMap
release_pid map pid = record map { addr = update map.addr pid 0 }

-- The loop of `get_new_pid`: the first free id from `i` on, with the rounds left.
unfoldable pub find_free : ℕ → ℕ → (ℕ → ℕ) → Option ℕ
find_free zero i base = none
find_free (suc k) i base =
    let rest = find_free k (i + 1) base in if base i == 0 then some i else rest

abbrev pub take_pid : PidMap → ℕ → Option ℕ → PidMap × ℤ
take_pid map task none = (map, minus_one)
take_pid map task (some i) = (
  record map {
    nr_free = map.nr_free - 1;
    current = map.current + 1;
    addr = update map.addr i task;
  },
  pos i,
)

-- `nr_free` is not 0 where it is decremented, so the truncated `-` is exact.
unfoldable pub get_new_pid : PidMap → ℕ → PidMap × ℤ
unfolding find_free
get_new_pid map task =
    if map.nr_free == 0
    then (map, minus_one)
    else take_pid map task (find_free (map.nr - map.current) map.current map.addr)

unfoldable pub get_task_pid : Sched → ℕ → ℤ
get_task_pid s t = (s.task t).pid

-- `sys_getpid`
unfoldable pub sys_getpid : Sched → ℤ
unfolding get_task_pid
sys_getpid s = get_task_pid s s.current

-- The pid is not negative; 0 is NULL.
unfoldable pub pid_get_task : PidMap → ℕ → ℕ
pid_get_task map pid = if ltb pid map.nr then map.addr pid else 0
