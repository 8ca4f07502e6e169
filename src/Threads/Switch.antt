-- ===== src/Threads/Switch.antt =====
-- The scheduler of threads/thread.c: running_thread, is_thread, thread_current, next_thread_to_run,
-- schedule, thread_schedule_tail.
use tony_henry_niklas.Threads.{
  Status, Kernel, thread_magic, is_running, is_dying, update, with_status,
}
use tony_henry_niklas.Common.{
  ℕ, Bool, ◌%◌, false, ◌&&◌, not, List, [], ◌∷◌, Option, some, ◌==◌, check, if◌then◌else◌,
}

abbrev pub is_thread : Kernel → ℕ → Bool
is_thread k t = not (t == 0) && (k.thread t).magic == thread_magic

unfoldable pub thread_current : Kernel → Option ℕ
thread_current k =
    check (is_thread k k.running_thread)
      (check (is_running (k.thread k.running_thread).status) (some k.running_thread))

abbrev pub first_or_idle : Kernel → List ℕ → ℕ × Kernel
first_or_idle k [] = (k.idle_thread, k)
first_or_idle k (t ∷ l) = (t, record k { ready_list = l })

-- The thread, and the kernel with the ready list that is left.
unfoldable pub next_thread_to_run : Kernel → ℕ × Kernel
next_thread_to_run k = first_or_idle k k.ready_list

-- What palloc_free_page asserts of the address: the start of a page that lies in a pool and is in use.
abbrev pub can_free : Kernel → ℕ → Bool
can_free k t = t % 4096 == 0 && k.page_in_use t

-- The page of a dead thread is filled with 0xcc, its magic is gone, and it is in use no more.
abbrev pub freed : Kernel → ℕ → Kernel
freed k t = record k {
  thread = update k.thread t (record (k.thread t) { magic = 0xcccccccc });
  page_in_use = update k.page_in_use t false;
}

-- `palloc_free_page (prev);`
unfoldable pub free_thread : Kernel → ℕ → Option Kernel
free_thread k t = check (can_free k t) (some (freed k t))

unfoldable pub thread_schedule_tail : ℕ → Kernel → Option Kernel
thread_schedule_tail prev k = check (not k.intr_on) (
    let k' = record (with_status k k.running_thread Status.running) { thread_ticks = 0 } in
    if not (prev == 0) && is_dying (k'.thread prev).status && not (prev == k'.initial_thread)
    then check (not (prev == k'.running_thread)) (free_thread k' prev)
    else some k')

-- The assertions and the switch; `switch_threads` returns in `next`, with the thread that it left.
unfoldable pub switch_to : ℕ → ℕ → Kernel → Option Kernel
switch_to cur next k = check (not k.intr_on) (
    check (not (is_running (k.thread cur).status)) (
      check (is_thread k next) (
        if cur == next
        then thread_schedule_tail 0 k
        else thread_schedule_tail cur (record k { running_thread = next }))))

unfoldable pub schedule : Kernel → Option Kernel
schedule k = let (next, k') = next_thread_to_run k in switch_to k.running_thread next k'
