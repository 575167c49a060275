-- ===== src/Sched/Change.antt =====
-- kernel/sched.c: the table of state changes, and `set_task_state`.
use mirros.Base.{ℕ, ◌&&◌, List, [], ◌∷◌, ◌==◌, if◌then◌else◌}
use mirros.Sched.{
  TaskState, prepare, running, sleep, idle, stop, unknown, Sched, set_task, get_task_state,
  prio_list_add_task_tail, prio_list_del_task, system_add_task_tail, sleep_add_task,
  sleep_add_task_tail, sleep_del_task, idle_add_task_tail,
}

-- `state_change_t`
pub data StateChange : Type 0 where
  none_to_prepare none_to_sleep prepare_to_running prepare_to_sleep prepare_to_idle : StateChange
  running_to_sleep running_to_prepare running_to_idle sleep_to_prepare : StateChange
  sleep_to_idle sleep_to_running prepare_to_unknown none_to_none : StateChange

-- The numbers of the two enums.
abbrev pub state_code : TaskState → ℕ
state_code prepare = 0
state_code running = 1
state_code sleep = 2
state_code idle = 3
state_code stop = 4
state_code unknown = 5

abbrev pub change_code : StateChange → ℕ
change_code none_to_prepare = 0
change_code none_to_sleep = 1
change_code prepare_to_running = 2
change_code prepare_to_sleep = 3
change_code prepare_to_idle = 4
change_code running_to_sleep = 5
change_code running_to_prepare = 6
change_code running_to_idle = 7
change_code sleep_to_prepare = 8
change_code sleep_to_idle = 9
change_code sleep_to_running = 10
change_code prepare_to_unknown = 11
change_code none_to_none = 12

-- The constant with a number; the table holds no number above 12.
abbrev pub change_of : ℕ → StateChange
change_of n = find (
    none_to_prepare ∷ none_to_sleep ∷ prepare_to_running ∷ prepare_to_sleep ∷ prepare_to_idle
    ∷ running_to_sleep ∷ running_to_prepare ∷ running_to_idle ∷ sleep_to_prepare ∷ sleep_to_idle
    ∷ sleep_to_running ∷ prepare_to_unknown ∷ [])
  where
    find : List StateChange → StateChange
    find [] = none_to_none
    find (c ∷ cs) = if change_code c == n then c else find cs

abbrev row : TaskState → TaskState → StateChange → List ℕ → List ℕ
row old new change rest = state_code old ∷ state_code new ∷ change_code change ∷ rest

-- CHANGE_TABLE_SIZE is 14 * 3 and the initialiser gives twelve rows: the last six bytes are 0.
abbrev pub change_table : List ℕ
change_table = row unknown prepare none_to_prepare (
    row unknown sleep none_to_sleep (
      row prepare running prepare_to_running (
        row prepare sleep prepare_to_sleep (
          row prepare idle prepare_to_idle (
            row running sleep running_to_sleep (
              row running prepare running_to_prepare (
                row running idle running_to_idle (
                  row sleep prepare sleep_to_prepare (
                    row sleep idle sleep_to_idle (
                      row sleep running sleep_to_running (
                        row prepare unknown prepare_to_unknown
                          (0 ∷ 0 ∷ 0 ∷ 0 ∷ 0 ∷ 0 ∷ []))))))))))))

-- The loop of `get_state_change`, three bytes a round.
abbrev scan : ℕ → ℕ → List ℕ → ℕ
scan old new (o ∷ n ∷ c ∷ rest) = if (old == o) && (new == n) then c else scan old new rest
scan old new _ = change_code none_to_none

unfoldable pub get_state_change : TaskState → TaskState → StateChange
get_state_change old new = change_of (scan (state_code old) (state_code new) change_table)

-- The switch of `set_task_state`, after the new state is stored.
unfoldable pub apply_change : StateChange → Sched → ℕ → Sched
apply_change none_to_prepare s t = prio_list_add_task_tail (system_add_task_tail s t) t
apply_change none_to_sleep s t = sleep_add_task (system_add_task_tail s t) t
apply_change prepare_to_running s t = prio_list_del_task s t
apply_change prepare_to_idle s t = idle_add_task_tail (prio_list_del_task s t) t
apply_change prepare_to_sleep s t = sleep_add_task_tail (prio_list_del_task s t) t
apply_change running_to_sleep s t = sleep_add_task_tail s t
apply_change running_to_prepare s t = prio_list_add_task_tail s t
apply_change running_to_idle s t = idle_add_task_tail s t
apply_change sleep_to_prepare s t = prio_list_add_task_tail (sleep_del_task s t) t
apply_change sleep_to_idle s t = idle_add_task_tail (sleep_del_task s t) t
apply_change sleep_to_running s t = sleep_del_task s t
apply_change prepare_to_unknown s t = prio_list_del_task s t
apply_change none_to_none s t = s

-- The early return on STATE_NONE_TO_NONE, else the new state and the switch.
abbrev pub change_state : StateChange → Sched → ℕ → TaskState → Sched
change_state none_to_none s t new = s
change_state c s t new = apply_change c (set_task s t (record (s.task t) { state = new })) t

unfoldable pub set_task_state : Sched → ℕ → TaskState → Sched
set_task_state s t state = change_state (get_state_change (get_task_state s t) state) s t state
