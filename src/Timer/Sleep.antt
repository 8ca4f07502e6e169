-- ===== src/Timer/Sleep.antt =====
-- timer_sleep parks the running thread until its time.
use tony_henry_niklas.Common.Int.{pos}
use tony_henry_niklas.Threads.{Status, Kernel, Thread, Frame, is_running, is_dying, intr_disable}
use tony_henry_niklas.Threads.Switch.{thread_current, schedule}
use tony_henry_niklas.Threads.Life.{thread_block}
use tony_henry_niklas.Threads.Invariant.{Parked, Inv}
use tony_henry_niklas.Threads.Next.{NoneRuns}
use tony_henry_niklas.Threads.Dispatch.{
  QueueCounts, CanLeave, Switched, schedule-Inv, Switched-thread,
}
use tony_henry_niklas.Threads.Steps.{blocking}
use tony_henry_niklas.Timer.{with_wakeup, sleep_ticks, timer_ticks, timer_sleep}
use tony_henry_niklas.Common.{
  ℕ, suc, ◌^◌, ◌+◌, ◌<◌, ◌≡◌, refl, ap, ◌∙◌, ◌≢◌, true, false, some, arith,
}

-- The state in which `timer_sleep` calls `schedule`.
unfoldable pub asleep : ℕ → Kernel → Kernel
unfolding intr_disable
asleep n k =
    blocking (with_wakeup (intr_disable k) k.running_thread (k.ticks + n))
      (Frame.set_level k.intr_on)

module _ (n : ℕ) (k : Kernel) (v : Inv k) (busy : k.running_thread ≢ k.idle_thread)
    (some_time : 0 < n) where
  asleep-Parked : Parked (asleep n k)
  unfolding asleep
  asleep-Parked = record {
    wait_count = λ s t. ground (arith, v.base.wait_count s t, v.current_runs);
    all_count = λ t. ground (arith, v.base.all_count t, v.current_runs);
    sleeps = λ t h w. ground (arith, v.base.sleeps t);
    parked = λ t h w. ground (arith, v.base.parked t);
    idle_lives = ground (arith, v.base.idle_lives);
    idle_waits_not = ground (arith, v.base.idle_waits_not);
    idle_sleeps_not = ground (arith, v.base.idle_sleeps_not);
  }

  asleep-NoneRuns : NoneRuns (asleep n k)
  unfolding asleep
  asleep-NoneRuns t h = ground (arith, v.one_runs t)

  asleep-QueueCounts : QueueCounts (asleep n k)
  unfolding asleep
  asleep-QueueCounts t = ground (arith, v.ready_count t, v.current_runs)

asleep_off : (n : ℕ) (k : Kernel) → (asleep n k).intr_on ≡ false
unfolding asleep
asleep_off n k = refl

asleep_thread :
    (n : ℕ) (k : Kernel)
    → (asleep n k).thread k.running_thread
      ≡ record (k.thread k.running_thread) { status = Status.blocked; wakeup_time = k.ticks + n }
unfolding asleep
asleep_thread n k = ground arith

asleep_running : (n : ℕ) (k : Kernel) → (asleep n k).running_thread ≡ k.running_thread
unfolding asleep
asleep_running n k = refl

asleep_halted :
    (n : ℕ) (k : Kernel)
    → is_running ((asleep n k).thread (asleep n k).running_thread).status ≡ false
unfolding asleep
asleep_halted n k = ground arith

asleep_not_dying :
    (n : ℕ) (k : Kernel) → is_dying ((asleep n k).thread (asleep n k).running_thread).status ≡ false
unfolding asleep
asleep_not_dying n k = ground arith

asleep-CanLeave : (n : ℕ) (k : Kernel) → CanLeave (asleep n k)
asleep-CanLeave n k d = absurd (ground (arith, asleep_not_dying n k, d))

timer_sleep_from :
    (n : ℕ) (k : Kernel)
    → Inv k
    → k.intr_on ≡ true
    → k.intr_context ≡ false
    → k.ticks + suc n < 2 ^ 63
    → timer_sleep (pos (suc n)) k ≡ schedule (asleep (suc n) k)
unfolding timer_sleep sleep_ticks timer_ticks thread_block thread_current asleep
timer_sleep_from n k v on calm room = ground (arith, v.current_lives, v.current_runs)

-- A thread other than the idle one that sleeps for a number of ticks above 0, with interrupts on
-- and outside a handler, its wake-up below 2 ^ 63, gives way to another thread and stays blocked
-- with its wake-up that many ticks from now; no assertion fails and the invariant is kept.
pub timer_sleep-Inv :
    (n : ℕ) (k : Kernel)
    → Inv k
    → k.running_thread ≢ k.idle_thread
    → k.intr_on ≡ true
    → k.intr_context ≡ false
    → k.ticks + suc n < 2 ^ 63
    → (k' : Kernel) × (timer_sleep (pos (suc n)) k ≡ some k')
      × Inv k'
      × (k'.thread k.running_thread ≡ record (k.thread k.running_thread) {
        status = Status.blocked;
        wakeup_time = k.ticks + suc n;
      })
timer_sleep-Inv n k v busy on calm room =
    let (k', e, sw) =
      schedule-Inv (asleep (suc n) k) (asleep-Parked (suc n) k v busy (omega arith))
        (asleep-NoneRuns (suc n) k v busy (omega arith))
        (asleep-QueueCounts (suc n) k v busy (omega arith)) (asleep_off (suc n) k)
        (asleep_halted (suc n) k) (asleep-CanLeave (suc n) k) in
    (
      k',
      timer_sleep_from n k v on calm room ∙ e,
      sw.inv,
      Switched-thread k.running_thread sw (asleep_not_dying (suc n) k) (other sw)
          ∙ asleep_thread (suc n) k,
    )
  where
    other : {k' : Kernel} → (sw : Switched (asleep (suc n) k) k') → sw.next ≢ k.running_thread
    other sw p = omega (
      arith,
      sw.is_next.awake,
      ap (λ u. ((asleep (suc n) k).thread u).wakeup_time) p,
      ap (λ (t : Thread). t.wakeup_time) (asleep_thread (suc n) k),
    )
