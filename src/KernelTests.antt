-- ===== src/KernelTests.antt =====
-- The kernel's operations on a small system: the main thread (page at 4096) runs, the idle thread (8192)
-- is blocked, one thread (12288) is ready, one (16384) waits on semaphore 7, one (20480) sleeps
-- until tick 10.
use tony_henry_niklas.Common.Int.{pos}
use tony_henry_niklas.Threads.{Status, Kernel, Thread, Frame, After, Semaphore, thread_magic}
use tony_henry_niklas.Threads.Switch.{is_thread}
use tony_henry_niklas.Threads.Life.{thread_yield, thread_exit}
use tony_henry_niklas.Threads.Invariant.{is_live, Inv}
use tony_henry_niklas.Threads.RoundRobin.{yield_round_robin, thread_exit_lem}
use tony_henry_niklas.Synch.{with_sema, sema_down, sema_up}
use tony_henry_niklas.Synch.Up.{sema_up-Inv}
use tony_henry_niklas.Synch.Down.{sema_down-Inv}
use tony_henry_niklas.IntQueue.{IntQueue, Progress, intq_empty, intq_full, intq_getc, intq_putc}
use tony_henry_niklas.IntQueue.Fifo.{contents, woken, CanWake, intq_empty-intq_full}
use tony_henry_niklas.IntQueue.Fifo
use tony_henry_niklas.IntQueue.Calls.{intq_putc_lem, intq_getc_lem}
use tony_henry_niklas.Timer.{timer_sleep, timer_interrupt}
use tony_henry_niklas.Timer.Tick.{CanTick, woken_if_due, timer_interrupt_lem}
use tony_henry_niklas.Timer.Sleep.{timer_sleep-Inv}
use tony_henry_niklas.Common.{
  ℕ, ◌-◌, ◌≤◌, ◌<◌, ◌≡◌, refl, ◌≢◌, ◌⊎◌, Bool, true, false, [], ◌∷◌, ◌++◌, some, arith, ◌==◌,
  if◌then◌else◌, length, replicate, leb, ◌&&◌,
}

abbrev a_thread : ℕ → Status → ℕ → Thread
a_thread t s w = record {
  tid = t;
  status = s;
  wakeup_time = w;
  name = [];
  stack = 0;
  priority = 31;
  magic = thread_magic;
}

abbrev threads : ℕ → Thread
threads t =
    if t == 4096
    then a_thread 1 Status.running 0
    else if t == 8192
    then a_thread 2 Status.blocked 0
    else if t == 12288
    then a_thread 3 Status.ready 0
    else if t == 16384
    then a_thread 4 Status.blocked 0
    else if t == 20480
    then a_thread 5 Status.blocked 10
    else record (a_thread 0 Status.dying 0) { magic = 0 }

abbrev frames : ℕ → Frame
frames t = if t == 16384 then Frame.down 7 true After.done else Frame.set_level true

abbrev semas : ℕ → Semaphore
semas s =
    if s == 7
    then record { value = 0; waiters = 16384 ∷ [] }
    else record { value = 2; waiters = [] }

abbrev system : Bool → Bool → Kernel
system on context = record {
  thread = threads;
  frame = frames;
  ready_list = 12288 ∷ [];
  all_list = 4096 ∷ 8192 ∷ 12288 ∷ 16384 ∷ 20480 ∷ [];
  running_thread = 4096;
  idle_thread = 8192;
  initial_thread = 36864;
  next_tid = 6;
  thread_ticks = 0;
  idle_ticks = 0;
  kernel_ticks = 0;
  ticks = 9;
  intr_on = on;
  intr_context = context;
  yield_on_return = false;
  sema = semas;
  holder = λ _. 0;
  cond_waiters = λ _. [];
  page_in_use = λ t. leb 4096 t && leb t 20480;
}

abbrev booted : Kernel
booted = system true false

abbrev in_handler : Kernel
in_handler = system false true

system-Inv : (on context : Bool) → Inv (system on context)
system-Inv on context = record {
  base = record {
    wait_count = λ s t. ground arith;
    all_count = λ t. ground arith;
    sleeps = λ t h w. ground arith;
    parked = λ t h b. ground arith;
    idle_lives = refl;
    idle_waits_not = λ _. refl;
    idle_sleeps_not = refl;
  };
  ready_count = λ t. ground arith;
  current_lives = refl;
  current_runs = refl;
  one_runs = λ t h r. ground arith;
}

booted-Inv : Inv booted
booted-Inv = system-Inv true false

yield_round_robin_example :
    (k' : Kernel) × (thread_yield booted ≡ some k')
    × Inv k'
    × (k'.running_thread ≡ 12288)
    × (k'.ready_list ≡ 4096 ∷ [])
yield_round_robin_example =
    yield_round_robin booted 12288 [] booted-Inv refl (λ p. omega arith) refl

thread_exit_lem_example :
    (k' : Kernel) × (thread_exit booted ≡ some k')
    × Inv k'
    × (is_thread k' 4096 ≡ false)
    × (k'.running_thread ≢ 4096)
    × (k'.page_in_use 4096 ≡ false)
thread_exit_lem_example =
    thread_exit_lem booted booted-Inv refl (λ p. omega arith) (λ p. omega arith) refl

sema_up-Inv_example :
    (k' : Kernel) × (sema_up 7 booted ≡ some k')
    × Inv k'
    × ((k'.sema 7).value ≡ 1)
    × ((k'.sema 7).waiters ≡ [])
    × (k'.ready_list ≡ 12288 ∷ 16384 ∷ [])
sema_up-Inv_example = sema_up-Inv booted 7 (λ p. cc) booted-Inv (λ _. refl)

sema_down-Inv_example :
    (k' : Kernel) × (sema_down 7 booted ≡ some k')
    × Inv k'
    × (((0 < (booted.sema 7).value)
          × (k'
              ≡ with_sema booted 7 (record (booted.sema 7) { value = (booted.sema 7).value - 1 })))
        ⊎ (((booted.sema 7).value ≡ 0)
            × ((k'.sema 7).waiters ≡ 16384 ∷ 4096 ∷ [])
            × ((k'.sema 7).value ≡ 0)))
sema_down-Inv_example = sema_down-Inv 7 booted (λ p. omega arith) booted-Inv (λ p. omega arith) refl

in_handler-CanTick : CanTick in_handler
in_handler-CanTick = record { room = omega arith; idle = omega arith; kernel = omega arith }

timer_interrupt_lem_example :
    (k' : Kernel) × (timer_interrupt in_handler ≡ some k')
    × Inv k'
    × (k'.ticks ≡ 10)
    × ((u : ℕ) → is_live in_handler u ≡ true → k'.thread u ≡ woken_if_due in_handler 10 u)
    × ((u : ℕ)
        → is_thread k' u ≡ true
        → 0 < (k'.thread u).wakeup_time
        → 10 < (k'.thread u).wakeup_time)
timer_interrupt_lem_example =
    timer_interrupt_lem in_handler (system-Inv false true) refl refl in_handler-CanTick

timer_sleep-Inv_example :
    (k' : Kernel) × (timer_sleep (pos 3) booted ≡ some k')
    × Inv k'
    × (k'.thread 4096 ≡ a_thread 1 Status.blocked 12)
timer_sleep-Inv_example =
    timer_sleep-Inv 2 booted booted-Inv (λ p. omega arith) refl refl (omega arith)

-- One byte, at place 63, and thread 16384 waits for another.
abbrev queue : IntQueue
queue = record {
  lock = 20;
  not_full = 0;
  not_empty = 16384;
  buf = replicate 63 7 ++ (8 ∷ []);
  head = 0;
  tail = 63;
}

queue-IsValid : Fifo.IsValid queue
queue-IsValid = record { head_in = omega arith; tail_in = omega arith; size = refl }

intq_empty-intq_full_example :
    (intq_empty (queue, in_handler) ≡ some (length (contents queue) == 0))
    × (intq_full (queue, in_handler) ≡ some (length (contents queue) == 63))
    × (length (contents queue) ≤ 63)
intq_empty-intq_full_example = intq_empty-intq_full queue in_handler queue-IsValid refl

intq_putc_lem_example :
    (q' : IntQueue) × (intq_putc 9 (queue, in_handler)
      ≡ some (Progress.finished 9 (q', woken 16384 in_handler)))
    × Fifo.IsValid q'
    × (contents q' ≡ contents queue ++ (9 ∷ []))
    × (q'.not_empty ≡ 0)
intq_putc_lem_example =
    intq_putc_lem queue in_handler 9 queue-IsValid (omega arith) refl (omega arith)
      (λ _. (refl, refl))

intq_getc_lem_example :
    (byte : ℕ) × (q' : IntQueue) × (intq_getc (queue, in_handler)
      ≡ some (Progress.finished byte (q', woken 0 in_handler)))
    × Fifo.IsValid q'
    × (contents queue ≡ byte ∷ contents q')
    × (q'.not_full ≡ 0)
intq_getc_lem_example =
    intq_getc_lem queue in_handler queue-IsValid refl (omega arith) (λ p. absurd (p refl))
