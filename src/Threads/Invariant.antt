-- ===== src/Threads/Invariant.antt =====
-- Where each thread stands: what links a thread's status to the lists of the kernel.
use tony_henry_niklas.Threads.{Kernel, Frame, is_running, is_ready, is_blocked, is_dying, count}
use tony_henry_niklas.Threads.Switch.{is_thread}
use tony_henry_niklas.Common.{ℕ, ◌<◌, ◌≡◌, Bool, true, false, ◌&&◌, ◌||◌, not, ltb, ◌==◌}

abbrev pub is_down : Frame → Bool
is_down Frame.start = false
is_down (Frame.set_level l) = false
is_down (Frame.down s l a) = true

abbrev pub waits_for : Frame → ℕ → Bool
waits_for Frame.start s = false
waits_for (Frame.set_level l) s = false
waits_for (Frame.down s' l a) s = s' == s

abbrev pub one_if : Bool → ℕ
one_if true = 1
one_if false = 0

-- The idle thread is never on the ready list.
abbrev pub is_queued : Kernel → ℕ → Bool
is_queued k t = is_thread k t && (is_ready (k.thread t).status && not (t == k.idle_thread))

abbrev pub is_waiting : Kernel → ℕ → ℕ → Bool
is_waiting k s t = is_thread k t && (is_blocked (k.thread t).status && waits_for (k.frame t) s)

-- Why a thread is blocked: it is the idle thread, sleeps, or waits on a semaphore.
abbrev pub is_parked : Kernel → ℕ → Bool
is_parked k t = t == k.idle_thread || (ltb 0 (k.thread t).wakeup_time || is_down (k.frame t))

abbrev pub is_live : Kernel → ℕ → Bool
is_live k t = is_thread k t && not (is_dying (k.thread t).status)

-- All but the ready list and the running thread.
pub record Parked (k : Kernel) : Type 0 where
  pub wait_count : (s t : ℕ) → count t (k.sema s).waiters ≡ one_if (is_waiting k s t)
  pub all_count : (t : ℕ) → count t k.all_list ≡ one_if (is_live k t)
  pub sleeps :
      (t : ℕ)
      → is_thread k t ≡ true
      → 0 < (k.thread t).wakeup_time
      → (is_blocked (k.thread t).status ≡ true) × (is_down (k.frame t) ≡ false)
  pub parked :
      (t : ℕ) → is_thread k t ≡ true → is_blocked (k.thread t).status ≡ true → is_parked k t ≡ true
  pub idle_lives : is_live k k.idle_thread ≡ true
  pub idle_waits_not :
      is_blocked (k.thread k.idle_thread).status ≡ true → is_down (k.frame k.idle_thread) ≡ false
  pub idle_sleeps_not : (k.thread k.idle_thread).wakeup_time ≡ 0

-- The invariant while a thread runs.
pub record Inv (k : Kernel) : Type 0 where
  pub base : Parked k
  pub ready_count : (t : ℕ) → count t k.ready_list ≡ one_if (is_queued k t)
  pub current_lives : is_thread k k.running_thread ≡ true
  pub current_runs : is_running (k.thread k.running_thread).status ≡ true
  pub one_runs :
      (t : ℕ) → is_thread k t ≡ true → is_running (k.thread t).status ≡ true → t ≡ k.running_thread
