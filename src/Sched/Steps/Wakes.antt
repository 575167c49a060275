-- ===== src/Sched/Steps/Wakes.antt =====
-- kernel/sched.c: the timer interrupts that a sleeping task waits for.
use mirros.Base.{
  ℕ, zero, suc, ◌+◌, ◌≤◌, ◌<◌, ◌≡◌, ◌≢◌, refl, ap, ◌∙◌, sym, true, false, Option, none, some, ◌∷◌,
  arith, ◌==◌, length, ◌∈◌,
}
use mirros.Base.Int.{pos}
use mirros.Interrupt.{
  Irqs, arch_get_irq_description, do_irq_handler, platform_timer_tick_handler, os_exit_irq,
}
use mirros.Sched.{sleep, Task, Sched}
use mirros.Sched.Lists.{Lists}
use mirros.Sched.Refine.{managed}
use mirros.Sched.Steps.{Valid, timer_irq}
use mirros.Sched.Steps.Kept.{ValidWith, Core, Valid-Core, Core-in_interrupt}
use mirros.Sched.Steps.Live.{Sleeps, Woken, turn-Sleeps, turn-Woken}
use mirros.Sched.Steps.Short.{length-le}
use mirros.Sched.Steps.Timer.{Ticked-Core, os_exit_irq_lem, timer_irq-Valid}
use mirros.Sched.Switch.{tick_current}
use mirros.Sched.Tick.{ticked}
use mirros.Sched.Tick.Loop.{Ticked, os_tick_handler-Ticked}

-- Interrupts of the timer, one after the other.
unfoldable pub timer_irqs : ℕ → ℕ → Irqs → ℕ → Sched → Option Sched
unfolding timer_irq
timer_irqs zero fuel irqs nr s = some s
timer_irqs (suc n) fuel irqs nr s = elim (timer_irq fuel irqs nr s) [
  | none ↦ none
  | some s' ↦ timer_irqs n fuel irqs nr s'
]

module _ (s : Sched) (l : Lists) (v : Valid s l) (fuel : ℕ) (irqs : Irqs) (nr : ℕ)
    (enough : length l.system_list + 1 < fuel)
    (some_des : arch_get_irq_description irqs nr ≢ 0) where
  abbrev in_irq : Sched
  in_irq = record s { in_interrupt = true }

  abbrev c1 : Core in_irq l
  c1 = Core-in_interrupt s l true (Valid-Core v)

  -- The interrupt ends, with the loop over the sleeping tasks and then the turn to the next one.
  irq_ends :
      (s2 : Sched) × Ticked in_irq l l.sleep_list s2
      × (timer_irq fuel irqs nr s
          ≡ some (os_exit_irq (record (tick_current s2) { in_interrupt = false })))
  unfolding timer_irq do_irq_handler platform_timer_tick_handler
  irq_ends =
      let test : (arch_get_irq_description irqs nr == 0) ≡ false = ground arith in
      let short : length l.sleep_list < fuel = omega (
        arith,
        enough,
        length-le l.sleep_list (s.idle_task ∷ l.system_list) v.inv.rings.sleep.ring.distinct
            (λ u i. ground (arith, v.inv.members.sleep_mem u)),
      ) in
      let (s2, found, t) = os_tick_handler-Ticked fuel in_irq l c1.inv short in
      (s2, t, rw (test, found))

  module _ (u : ℕ) (m : managed s l u ≡ true) where
    listed : (s.task u).state ≡ sleep → u ∈ l.sleep_list
    listed asleep = ground (arith, v.inv.members.sleep_mem u, m)

    -- A task that waits for more than one tick.
    irq-Sleeps :
        (n : ℕ)
        → Sleeps u (pos (suc (suc n))) s
        → (s' : Sched) × (timer_irq fuel irqs nr s ≡ some s')
          × ValidWith l.system_list s'
          × Sleeps u (pos (suc n)) s'
    irq-Sleeps n (asleep, wait, away) =
        let (s2, t, e) = irq_ends in
        let s' = os_exit_irq (record (tick_current s2) { in_interrupt = false }) in
        let (l2, tasks2, core2) = Ticked-Core in_irq l c1 s2 t in
        let at : s2.task u ≡ ticked (s.task u) = t.older u (listed asleep) in
        let chosen : s2.next_run ≡ s2.current =
          t.globals.next_run ∙ v.chosen ∙ sym t.globals.current in
        let after =
          turn-Sleeps s2 l2 core2 u (rw t.globals.current away) chosen (pos (suc n))
            (ap (λ (x : Task). x.state) at ∙ rw wait asleep)
            (ap (λ (x : Task). x.wait_time) at ∙ rw wait refl) in
        (
          s',
          e,
          timer_irq-Valid s l v fuel irqs nr s' some_des e,
          rw (os_exit_irq_lem (record (tick_current s2) { in_interrupt = false })) after,
        )

    irq-Woken :
        Sleeps u (pos 1) s → (s' : Sched) × (timer_irq fuel irqs nr s ≡ some s') × Woken u s'
    irq-Woken (asleep, wait, away) =
        let (s2, t, e) = irq_ends in
        let s' = os_exit_irq (record (tick_current s2) { in_interrupt = false }) in
        let (l2, tasks2, core2) = Ticked-Core in_irq l c1 s2 t in
        let at : s2.task u ≡ ticked (s.task u) = t.older u (listed asleep) in
        let chosen : s2.next_run ≡ s2.current =
          t.globals.next_run ∙ v.chosen ∙ sym t.globals.current in
        let after =
          turn-Woken s2 l2 core2 u (rw t.globals.current away) chosen
            (rw (t.globals.idle_task, tasks2) m) (ap (λ (x : Task). x.state) at ∙ rw wait refl) in
        (s', e, rw (os_exit_irq_lem (record (tick_current s2) { in_interrupt = false })) after)

timer_irqs-suc :
    (n fuel : ℕ) (irqs : Irqs) (nr : ℕ) (s s1 : Sched)
    → timer_irq fuel irqs nr s ≡ some s1
    → timer_irqs (suc n) fuel irqs nr s ≡ timer_irqs n fuel irqs nr s1
unfolding timer_irqs
timer_irqs-suc n fuel irqs nr s s1 e = rw (timer_irqs, e)

-- A task that sleeps with a timeout of `n + 1`, and is not the one that goes on although it sleeps,
-- is still asleep after each of the next `n` timer interrupts, and after one more it is prepared or,
-- if its turn came at once, runs as the current task. All these interrupts end. The fuel of a tick
-- is more than the tasks, and the table of interrupts is in place.
pub timer_irqs-Woken :
    (n : ℕ) (s : Sched) (l : Lists) (fuel : ℕ) (irqs : Irqs) (nr u : ℕ)
    → Valid s l
    → length l.system_list + 1 < fuel
    → arch_get_irq_description irqs nr ≢ 0
    → u ∈ l.system_list
    → Sleeps u (pos (suc n)) s
    → ((k : ℕ)
        → k ≤ n
        → (t : Sched) × (timer_irqs k fuel irqs nr s ≡ some t) × ((t.task u).state ≡ sleep))
      × ((t : Sched) × (timer_irqs (suc n) fuel irqs nr s ≡ some t) × Woken u t)
unfolding timer_irqs
timer_irqs-Woken zero s l fuel irqs nr u v enough some_des i sleeps =
    let (t, e, w) = irq-Woken s l v fuel irqs nr enough some_des u (ground arith) sleeps in
    (
      λ k h. let none_left : k ≡ 0 = omega arith in rw none_left (s, refl, sleeps.0),
      (t, timer_irqs-suc zero fuel irqs nr s t e, w),
    )
timer_irqs-Woken (suc n) s l fuel irqs nr u v enough some_des i sleeps =
    let (s1, e, (l1, tasks, v1), sleeps1) =
      irq-Sleeps s l v fuel irqs nr enough some_des u (ground arith) n sleeps in
    let (before, (t, f, w)) =
      timer_irqs-Woken n s1 l1 fuel irqs nr u v1 (rw tasks enough) some_des (rw tasks i) sleeps1 in
    (later s1 e before, (t, timer_irqs-suc (suc n) fuel irqs nr s s1 e ∙ f, w))
  where
    later :
        (s1 : Sched)
        → timer_irq fuel irqs nr s ≡ some s1
        → ((k : ℕ)
            → k ≤ n
            → (t : Sched) × (timer_irqs k fuel irqs nr s1 ≡ some t) × ((t.task u).state ≡ sleep))
        → (k : ℕ) → k ≤ suc n
        → (t : Sched) × (timer_irqs k fuel irqs nr s ≡ some t) × ((t.task u).state ≡ sleep)
    later s1 e before zero h = (s, refl, sleeps.0)
    later s1 e before (suc k) h =
        let (t, f, asleep) = before k (omega arith) in
        (t, timer_irqs-suc k fuel irqs nr s s1 e ∙ f, asleep)
