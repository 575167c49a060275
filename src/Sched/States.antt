-- ===== src/Sched/States.antt =====
-- kernel/sched.c: the old and the new state of each change in change_table.
use mirros.Base.{◌≡◌, refl}
use mirros.Sched.{TaskState, prepare, running, sleep, idle, stop, unknown}
use mirros.Sched.Change.{
  StateChange, none_to_prepare, none_to_sleep, prepare_to_running, prepare_to_sleep,
  prepare_to_idle, running_to_sleep, running_to_prepare, running_to_idle, sleep_to_prepare,
  sleep_to_idle, sleep_to_running, prepare_to_unknown, none_to_none, get_state_change,
}

-- The old state of a change; `none_to_prepare` and `none_to_sleep` ask for none.
abbrev pub OldState : StateChange → TaskState → Type 0
OldState none_to_prepare old = Unit
OldState none_to_sleep old = Unit
OldState prepare_to_running old = old ≡ prepare
OldState prepare_to_sleep old = old ≡ prepare
OldState prepare_to_idle old = old ≡ prepare
OldState running_to_sleep old = old ≡ running
OldState running_to_prepare old = old ≡ running
OldState running_to_idle old = old ≡ running
OldState sleep_to_prepare old = old ≡ sleep
OldState sleep_to_idle old = old ≡ sleep
OldState sleep_to_running old = old ≡ sleep
OldState prepare_to_unknown old = old ≡ prepare
OldState none_to_none old = Unit

abbrev pub NewState : StateChange → TaskState → Type 0
NewState none_to_prepare new = new ≡ prepare
NewState none_to_sleep new = new ≡ sleep
NewState prepare_to_running new = new ≡ running
NewState prepare_to_sleep new = new ≡ sleep
NewState prepare_to_idle new = new ≡ idle
NewState running_to_sleep new = new ≡ sleep
NewState running_to_prepare new = new ≡ prepare
NewState running_to_idle new = new ≡ idle
NewState sleep_to_prepare new = new ≡ prepare
NewState sleep_to_idle new = new ≡ idle
NewState sleep_to_running new = new ≡ running
NewState prepare_to_unknown new = new ≡ unknown
NewState none_to_none new = Unit

-- The table gives a change only for its two states.
pub get_state_change_states :
    (old new : TaskState)
    → OldState (get_state_change old new) old × NewState (get_state_change old new) new
unfolding get_state_change
get_state_change_states prepare prepare = (tt, refl)
get_state_change_states prepare running = (refl, refl)
get_state_change_states prepare sleep = (refl, refl)
get_state_change_states prepare idle = (refl, refl)
get_state_change_states prepare stop = (tt, tt)
get_state_change_states prepare unknown = (refl, refl)
get_state_change_states running prepare = (refl, refl)
get_state_change_states running running = (tt, tt)
get_state_change_states running sleep = (refl, refl)
get_state_change_states running idle = (refl, refl)
get_state_change_states running stop = (tt, tt)
get_state_change_states running unknown = (tt, tt)
get_state_change_states sleep prepare = (refl, refl)
get_state_change_states sleep running = (refl, refl)
get_state_change_states sleep sleep = (tt, tt)
get_state_change_states sleep idle = (refl, refl)
get_state_change_states sleep stop = (tt, tt)
get_state_change_states sleep unknown = (tt, tt)
get_state_change_states idle prepare = (tt, tt)
get_state_change_states idle _ = (tt, tt)
get_state_change_states stop prepare = (tt, tt)
get_state_change_states stop _ = (tt, tt)
get_state_change_states unknown prepare = (tt, refl)
get_state_change_states unknown sleep = (tt, refl)
get_state_change_states unknown _ = (tt, tt)
