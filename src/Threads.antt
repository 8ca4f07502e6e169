-- ===== src/Threads.antt =====
-- The state that threads/thread.c, threads/synch.c and devices/timer.c share, and interrupts
-- (threads/interrupt.c). All of OS-lab2-master/pintos/src, as built without USERPROG.
pub mod Switch
pub mod Life
pub mod Update
pub mod Invariant
pub mod Next
pub mod Dispatch
pub mod Steps
pub mod RoundRobin
pub mod Fresh
pub mod Create
use tony_henry_niklas.Common.{
  ℕ, zero, suc, ◌+◌, ◌-◌, ◌*◌, ◌/◌, ◌%◌, ◌^◌, ◌≤◌, ◌<◌, ◌≡◌, refl, sym, ap, ◌∙◌, ◌≢◌, ◌↔◌, ◌⊎◌, inl,
  inr, Bool, true, false, ◌&&◌, ◌||◌, not, List, [], ◌∷◌, ◌++◌, map, Option, none, some, arith, ltb,
  leb, ◌==◌, check, if◌then◌else◌, length, get_elem?, set, ◌>>=◌, Bool-cases, Option-cases, ltb→lt,
  leb→le, lt→ltb, ==_iff, take, drop, replicate, length-set, get_elem?-set_self, get_elem?-set_ne,
  length-append, get_or,
}

-- `enum thread_status`
pub data Status : Type 0 where
  running ready blocked dying : Status

abbrev pub is_running : Status → Bool
is_running Status.running = true
is_running _ = false

abbrev pub is_ready : Status → Bool
is_ready Status.ready = true
is_ready _ = false

abbrev pub is_blocked : Status → Bool
is_blocked Status.blocked = true
is_blocked _ = false

abbrev pub is_dying : Status → Bool
is_dying Status.dying = true
is_dying _ = false

-- `struct thread`. Times are natural numbers: `ticks` starts at 0 and only grows.
pub record Thread : Type 0 where
  pub tid : ℕ
  pub status : Status
  pub wakeup_time : ℕ
  pub name : List ℕ
  pub stack : ℕ
  pub priority : ℕ
  pub magic : ℕ

abbrev pub thread_magic : ℕ
thread_magic = 0xcd6abf4b

-- What follows a wait in `sema_down`: nothing; `lock->holder = thread_current ()` (lock_acquire);
-- or lock_acquire (cond_wait).
pub data After : Type 0 where
  done : After
  hold : (lock : ℕ) → After
  relock : (lock : ℕ) → After

-- What a thread does when `schedule` returns in it, the top of its saved stack: enable interrupts
-- and start its function; put the interrupt level back (thread_yield, timer_sleep; `idle` enables
-- interrupts); or go round the loop of `sema_down` again.
pub data Frame : Type 0 where
  start : Frame
  set_level : (old_level : Bool) → Frame
  down : (sema : ℕ) (old_level : Bool) (after : After) → Frame

-- `struct semaphore`
pub record Semaphore : Type 0 where
  pub value : ℕ
  pub waiters : List ℕ

-- Threads, semaphores, locks and condition variables go by their address; 0 is the null pointer.
-- A lock's semaphore goes by the lock's address, a condition's waiters by their semaphores.
pub record Kernel : Type 0 where
  pub thread : ℕ → Thread
  pub frame : ℕ → Frame
  pub ready_list : List ℕ
  pub all_list : List ℕ
  pub running_thread : ℕ
  pub idle_thread : ℕ
  pub initial_thread : ℕ
  pub next_tid : ℕ
  pub thread_ticks : ℕ
  pub idle_ticks : ℕ
  pub kernel_ticks : ℕ
  pub ticks : ℕ
  pub intr_on : Bool
  pub intr_context : Bool
  pub yield_on_return : Bool
  -- Whether the page at an address lies in a pool of threads/palloc.c and is in use.
  pub page_in_use : ℕ → Bool
  pub sema : ℕ → Semaphore
  pub holder : ℕ → ℕ
  pub cond_waiters : ℕ → List ℕ

abbrev pub update {ℓ} : {A : Type ℓ} → (ℕ → A) → ℕ → A → ℕ → A
update f p v q = if p == q then v else f q

abbrev pub with_status : Kernel → ℕ → Status → Kernel
with_status k t s = record k { thread = update k.thread t (record (k.thread t) { status = s }) }

unfoldable pub intr_disable : Kernel → Kernel
intr_disable k = record k { intr_on = false }

unfoldable pub intr_enable : Kernel → Option Kernel
intr_enable k = check (not k.intr_context) (some (record k { intr_on = true }))

unfoldable pub intr_set_level : Bool → Kernel → Option Kernel
unfolding intr_enable intr_disable
intr_set_level level k = if level then intr_enable k else some (intr_disable k)

unfoldable pub intr_yield_on_return : Kernel → Option Kernel
intr_yield_on_return k = check k.intr_context (some (record k { yield_on_return = true }))

-- How often `x` stands in a list.
abbrev pub count : ℕ → List ℕ → ℕ
count x [] = 0
count x (y ∷ l) = if y == x then suc (count x l) else count x l
