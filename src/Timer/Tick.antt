-- ===== src/Timer/Tick.antt =====
-- The timer interrupt: the clock goes on, and exactly the threads that are due wake.
use tony_henry_niklas.Threads.{Status, Kernel, Thread, count, intr_yield_on_return}
use tony_henry_niklas.Threads.Switch.{is_thread, thread_current}
use tony_henry_niklas.Threads.Life.{
  foreach_from, thread_foreach, next_count, count_tick, thread_tick, time_slice,
}
use tony_henry_niklas.Threads.Invariant.{is_live, Inv}
use tony_henry_niklas.Timer.{is_due, update_sleeping_threads, timer_interrupt}
use tony_henry_niklas.Timer.Wake.{after_tick, AllThreads, foreach-Ticked}
use tony_henry_niklas.Common.{
  ℕ, refl, ◌+◌, ◌<◌, ◌≡◌, ◌∙◌, true, false, List, [], ◌∷◌, some, arith, leb, ◌==◌, if◌then◌else◌,
  ◌>>=◌, ◌%◌, ◌^◌, ◌≤◌, Option, ltb, lt→ltb, and_then,
}

-- The counters after a tick, and the yield that is asked for at the end of a time slice.
abbrev counted : Kernel → Kernel
counted k = record k {
  ticks = k.ticks + 1;
  idle_ticks = if k.running_thread == k.idle_thread then k.idle_ticks + 1 else k.idle_ticks;
  kernel_ticks = if k.running_thread == k.idle_thread then k.kernel_ticks else k.kernel_ticks + 1;
  thread_ticks = (k.thread_ticks + 1) % 2 ^ 32;
  yield_on_return =
      if leb time_slice ((k.thread_ticks + 1) % 2 ^ 32) then true else k.yield_on_return;
}

-- The counters of ticks can grow: no other than `ticks` itself is the greatest.
pub record CanTick (k : Kernel) : Type 0 where
  pub room : k.ticks + 1 < 2 ^ 63
  pub idle : k.idle_ticks ≤ k.ticks
  pub kernel : k.kernel_ticks ≤ k.ticks

thread_tick_lem :
    (k : Kernel)
    → Inv k
    → k.intr_context ≡ true
    → CanTick k
    → thread_tick (record k { ticks = k.ticks + 1 }) ≡ some (counted k)
unfolding thread_tick thread_current count_tick intr_yield_on_return
thread_tick_lem k v inside can =
    ground (arith, v.current_lives, v.current_runs, inside, can.room, can.idle, can.kernel)

counted-Inv : (k : Kernel) → Inv k → Inv (counted k)
counted-Inv k v = record {
  base = record {
    wait_count = v.base.wait_count;
    all_count = v.base.all_count;
    sleeps = v.base.sleeps;
    parked = v.base.parked;
    idle_lives = v.base.idle_lives;
    idle_waits_not = v.base.idle_waits_not;
    idle_sleeps_not = v.base.idle_sleeps_not;
  };
  ready_count = v.ready_count;
  current_lives = v.current_lives;
  current_runs = v.current_runs;
  one_runs = v.one_runs;
}

AllThreads-of_count :
    (k : Kernel) (l : List ℕ) → ((u : ℕ) → 0 < count u l → is_thread k u ≡ true) → AllThreads k l
AllThreads-of_count k [] h = tt
AllThreads-of_count k (t ∷ l) h =
    (h t (ground arith), AllThreads-of_count k l (λ u p. h u (ground arith)))

all_list-AllThreads : (k : Kernel) → Inv k → AllThreads k k.all_list
all_list-AllThreads k v =
    AllThreads-of_count k k.all_list (λ u p. ground (arith, v.base.all_count u))

-- What the interrupt at time `now` does to a thread: it wakes if it is due.
abbrev pub woken_if_due : Kernel → ℕ → ℕ → Thread
woken_if_due k now u =
    if is_due k now u
    then record (k.thread u) { status = Status.ready; wakeup_time = 0 }
    else k.thread u

after_tick_live :
    (k : Kernel) (u now : ℕ)
    → Inv k
    → is_live k u ≡ true
    → after_tick k now k.all_list u ≡ woken_if_due k now u
after_tick_live k u now v live = ground (arith, v.base.all_count u)

no_oversleep :
    (k k' : Kernel) (u now : ℕ)
    → Inv k
    → Inv k'
    → k'.thread u ≡ after_tick k now k.all_list u
    → is_thread k' u ≡ true
    → 0 < (k'.thread u).wakeup_time
    → now < (k'.thread u).wakeup_time
no_oversleep k k' u now v v' e h w =
    ground (arith, v.base.all_count u, v'.base.sleeps u, v.base.sleeps u)

interrupt_from :
    (k : Kernel)
    → Inv k
    → k.intr_on ≡ false
    → k.intr_context ≡ true
    → CanTick k
    → timer_interrupt k
      ≡ foreach_from (update_sleeping_threads (k.ticks + 1)) k.all_list (counted k)
unfolding timer_interrupt thread_foreach
interrupt_from k v off inside can =
    let walk : Kernel → Option Kernel = thread_foreach (update_sleeping_threads (k.ticks + 1)) in
    let fits : ltb (k.ticks + 1) (2 ^ 63) ≡ true = lt→ltb (k.ticks + 1) (2 ^ 63) can.room in
    let counts : next_count k.ticks ≡ some (k.ticks + 1) = rw fits refl in
    and_then
      (λ now.
        thread_tick (record k { ticks = now }) >>= thread_foreach (update_sleeping_threads now))
      counts
    ∙ and_then walk (thread_tick_lem k v inside can)
    ∙ rw off refl

-- From a kernel in its invariant, in the handler with interrupts off, the clock below its limit
-- and no other counter of ticks above the clock, the timer interrupt fails no assertion and
-- keeps the invariant; the clock goes on by one, exactly the blocked threads whose time has come
-- wake, the other live threads stay as they are, and no thread is left asleep past its time.
pub timer_interrupt_lem :
    (k : Kernel)
    → Inv k
    → k.intr_on ≡ false
    → k.intr_context ≡ true
    → CanTick k
    → (k' : Kernel) × (timer_interrupt k ≡ some k')
      × Inv k'
      × (k'.ticks ≡ k.ticks + 1)
      × ((u : ℕ) → is_live k u ≡ true → k'.thread u ≡ woken_if_due k (k.ticks + 1) u)
      × ((u : ℕ)
          → is_thread k' u ≡ true
          → 0 < (k'.thread u).wakeup_time
          → k.ticks + 1 < (k'.thread u).wakeup_time)
timer_interrupt_lem k v off inside can =
    let (k', e, r) =
      foreach-Ticked (k.ticks + 1) k.all_list (counted k) (counted-Inv k v) (λ p. cc)
        (all_list-AllThreads k v) in
    (
      k',
      interrupt_from k v off inside can ∙ e,
      r.inv,
      r.clock,
      λ u live. r.threads u ∙ after_tick_live k u (k.ticks + 1) v live,
      λ u h w. no_oversleep k k' u (k.ticks + 1) v r.inv (r.threads u) h w,
    )
