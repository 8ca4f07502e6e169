-- ===== src/Timer.antt =====
-- devices/timer.c, with update_sleeping_threads of threads/thread.c and the path of an external
-- interrupt through intr_handler of threads/interrupt.c.
pub mod Wake
pub mod Tick
pub mod Sleep
use tony_henry_niklas.Common.Int.{ℤ, pos, negsuc}
use tony_henry_niklas.Threads.{Status, Kernel, Thread, Frame, update, is_blocked, intr_disable}
use tony_henry_niklas.Threads.Switch.{thread_current}
use tony_henry_niklas.Threads.Life.{
  thread_block, thread_unblock, thread_yield, thread_tick, thread_foreach, next_count,
}
use tony_henry_niklas.Common.{
  ℕ, zero, suc, ◌+◌, ◌-◌, ◌*◌, ◌/◌, ◌%◌, ◌^◌, ◌≤◌, ◌<◌, ◌≡◌, refl, sym, ap, ◌∙◌, ◌≢◌, ◌↔◌, ◌⊎◌, inl,
  inr, Bool, true, false, ◌&&◌, ◌||◌, not, List, [], ◌∷◌, ◌++◌, map, Option, none, some, arith, ltb,
  leb, ◌==◌, check, if◌then◌else◌, length, get_elem?, set, ◌>>=◌, Bool-cases, Option-cases, ltb→lt,
  leb→le, lt→ltb, ==_iff, take, drop, replicate, length-set, get_elem?-set_self, get_elem?-set_ne,
  length-append, get_or,
}

abbrev pub with_wakeup : Kernel → ℕ → ℕ → Kernel
with_wakeup k t w = record k {
  thread = update k.thread t (record (k.thread t) { wakeup_time = w });
}

unfoldable pub timer_ticks : Kernel → ℕ
timer_ticks k = k.ticks

-- The sum is an int64_t, for which 2 ^ 63 overflows.
unfoldable pub sleep_ticks : ℕ → Kernel → Option Kernel
unfolding timer_ticks intr_disable
sleep_ticks n k = thread_current k >>= λ cur.
    let old_level = k.intr_on in
    let k' = intr_disable k in
    check (ltb (timer_ticks k' + n) (2 ^ 63))
      (thread_block (Frame.set_level old_level) (with_wakeup k' cur (timer_ticks k' + n)))

-- `if (ticks <= 0) return;`
unfoldable pub timer_sleep : ℤ → Kernel → Option Kernel
timer_sleep (pos zero) k = check k.intr_on (some k)
timer_sleep (pos (suc n)) k = check k.intr_on (sleep_ticks (suc n) k)
timer_sleep (negsuc n) k = check k.intr_on (some k)

-- The test of `update_sleeping_threads`.
abbrev pub is_due : Kernel → ℕ → ℕ → Bool
is_due k now t =
    is_blocked (k.thread t).status
    && (ltb 0 (k.thread t).wakeup_time && leb (k.thread t).wakeup_time now)

unfoldable pub update_sleeping_threads : ℕ → ℕ → Kernel → Option Kernel
update_sleeping_threads now t k =
    if is_due k now t then thread_unblock t (with_wakeup k t 0) else some k

unfoldable pub timer_interrupt : Kernel → Option Kernel
timer_interrupt k = next_count k.ticks >>= λ now.
    thread_tick (record k { ticks = now }) >>= λ k'. thread_foreach (update_sleeping_threads now) k'

-- intr_handler at the timer's vector: interrupts are off in the handler, and `iret` enables them
-- again when the interrupted thread goes on, which may be after a yield.
unfoldable pub external_interrupt : Kernel → Option Kernel
external_interrupt k = check k.intr_on (
    check (not k.intr_context) (
      timer_interrupt (record k { intr_on = false; intr_context = true; yield_on_return = false })
      >>= λ k'.
          let left = record k' { intr_context = false } in
          if left.yield_on_return
          then (thread_yield left >>= λ k''.
              some (record k'' {
                frame = update k''.frame left.running_thread (Frame.set_level true);
              }))
          else some (record left { intr_on = true })))
