-- ===== src/Sched/Steps/Boot.antt =====
-- kernel/sched.c and kernel/task.c: the scheduler as init/main.c starts it.
use mirros.Sched.{Sched}
use mirros.Sched.Rings.{Rings}
