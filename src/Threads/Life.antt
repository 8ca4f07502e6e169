-- ===== src/Threads/Life.antt =====
-- The life of a thread in threads/thread.c: thread_create, thread_block, thread_unblock,
-- thread_yield, thread_exit, thread_foreach, thread_tick, and what a thread resumes with.
use tony_henry_niklas.Strings.Text.{strlcpy}
use tony_henry_niklas.Threads.{
  Status, Kernel, Frame, thread_magic, is_blocked, update, with_status, intr_disable,
  intr_set_level, intr_yield_on_return,
}
use tony_henry_niklas.Threads.Switch.{is_thread, thread_current, schedule}
use tony_henry_niklas.Common.{
  ℕ, ◌+◌, ◌-◌, ◌%◌, true, ◌&&◌, not, List, [], ◌∷◌, ◌++◌, Option, none, some, leb, ltb, ◌^◌, ◌==◌,
  check, if◌then◌else◌, ◌>>=◌, replicate,
}

-- list_push_back (&ready_list, &t->elem)
abbrev pub push_ready : Kernel → ℕ → Kernel
push_ready k t = record k { ready_list = k.ready_list ++ (t ∷ []) }

unfoldable pub thread_unblock : ℕ → Kernel → Option Kernel
unfolding intr_set_level intr_disable
thread_unblock t k = check (is_thread k t) (
    let old_level = k.intr_on in
    let k' = intr_disable k in
    check (is_blocked (k'.thread t).status)
      (intr_set_level old_level (with_status (push_ready k' t) t Status.ready)))

-- `frame` is what the caller does once it runs again.
unfoldable pub thread_block : Frame → Kernel → Option Kernel
thread_block frame k = check (not k.intr_context) (
    check (not k.intr_on) (
      thread_current k >>= λ cur.
      schedule (record (with_status k cur Status.blocked) { frame = update k.frame cur frame })))

unfoldable pub thread_yield : Kernel → Option Kernel
unfolding intr_disable
thread_yield k = thread_current k >>= λ cur. check (not k.intr_context) (
    let old_level = k.intr_on in
    let k' = intr_disable k in
    let queued = if cur == k'.idle_thread then k' else push_ready k' cur in
    schedule (record (with_status queued cur Status.ready) {
      frame = update k.frame cur (Frame.set_level old_level);
    }))

-- list_remove (&thread_current ()->allelem)
abbrev pub remove : ℕ → List ℕ → List ℕ
remove t [] = []
remove t (x ∷ l) = if x == t then l else x ∷ remove t l

unfoldable pub thread_exit : Kernel → Option Kernel
unfolding intr_disable
thread_exit k = check (not k.intr_context) (
    let k' = intr_disable k in
    thread_current k' >>= λ cur.
    schedule (with_status (record k' { all_list = remove cur k'.all_list }) cur Status.dying))

unfoldable pub foreach_from : (ℕ → Kernel → Option Kernel) → List ℕ → Kernel → Option Kernel
foreach_from func [] k = some k
foreach_from func (t ∷ l) k = func t k >>= λ k'. foreach_from func l k'

unfoldable pub thread_foreach : (ℕ → Kernel → Option Kernel) → Kernel → Option Kernel
thread_foreach func k = check (not k.intr_on) (foreach_from func k.all_list k)

abbrev pub time_slice : ℕ
time_slice = 4

-- `++` on a long long, for which 2 ^ 63 overflows.
abbrev pub next_count : ℕ → Option ℕ
next_count n = check (ltb (n + 1) (2 ^ 63)) (some (n + 1))

-- Without USERPROG no thread has a page directory.
unfoldable pub count_tick : ℕ → Kernel → Option Kernel
count_tick t k =
    if t == k.idle_thread
    then (next_count k.idle_ticks >>= λ n. some (record k { idle_ticks = n }))
    else (next_count k.kernel_ticks >>= λ n. some (record k { kernel_ticks = n }))

-- `++thread_ticks` is on an unsigned int.
unfoldable pub thread_tick : Kernel → Option Kernel
thread_tick k = thread_current k >>= λ t. count_tick t k >>= λ counted.
    let ticked = record counted { thread_ticks = (counted.thread_ticks + 1) % 2 ^ 32 } in
    if leb time_slice ticked.thread_ticks then intr_yield_on_return ticked else some ticked

abbrev pub page_size : ℕ
page_size = 4096

abbrev pub pri_max : ℕ
pri_max = 63

-- `memset (t, 0, sizeof *t)` clears what is not set. `name` is copied into 16 bytes.
unfoldable pub init_thread : ℕ → List ℕ → ℕ → Kernel → Option Kernel
init_thread t name priority k = check (not (t == 0) && leb priority pri_max) (
    strlcpy (replicate 16 0) name 16 >>= λ copied. some (record k {
      thread = update k.thread t (record {
        tid = 0;
        status = Status.blocked;
        wakeup_time = 0;
        name = copied.1;
        stack = t + page_size;
        priority = priority;
        magic = thread_magic;
      });
      all_list = k.all_list ++ (t ∷ []);
    }))

-- `tid_lock` is taken to be free: lock_acquire asserts that no handler runs and takes the lock for the
-- current thread, and lock_release gives it back. The tid is an int, for which 2 ^ 31 overflows.
unfoldable pub allocate_tid : Kernel → Option (ℕ × Kernel)
allocate_tid k = check (not k.intr_context) (
    thread_current k >>= λ cur.
    check (ltb (k.next_tid + 1) (2 ^ 31))
      (some (k.next_tid, record k { next_tid = k.next_tid + 1 })))

-- The bases of the three frames move `stack` down by 12, 4 and 28 bytes.
unfoldable pub alloc_frame : ℕ → ℕ → Kernel → Option Kernel
alloc_frame t size k = check (is_thread k t && size % 4 == 0) (
    some (record k {
      thread = update k.thread t (record (k.thread t) { stack = (k.thread t).stack - size });
    }))

-- `page` is what palloc_get_page returned. The result is the tid, `none` for TID_ERROR.
unfoldable pub thread_create : ℕ → List ℕ → ℕ → Kernel → Option (Option ℕ × Kernel)
thread_create page name priority k =
    if page == 0
    then some (none, k)
    else (init_thread page name priority k >>= λ k1. allocate_tid k1 >>= λ a.
        let tid = a.0 in
        let k2 = a.1 in
        let k3 = record k2 {
          thread = update k2.thread page (record (k2.thread page) { tid = tid });
        } in
        let old_level = k3.intr_on in
        alloc_frame page 12 (intr_disable k3) >>= λ k4. alloc_frame page 4 k4 >>= λ k5.
        alloc_frame page 28 k5 >>= λ k6.
        intr_set_level old_level (record k6 { frame = update k6.frame page Frame.start }) >>= λ k7.
        thread_unblock page k7 >>= λ k8. some (some tid, k8))

unfoldable pub thread_set_priority : ℕ → Kernel → Option Kernel
thread_set_priority new_priority k = thread_current k >>= λ t.
    some (record k { thread = update k.thread t (record (k.thread t) { priority = new_priority }) })

-- One round of the loop in `idle`, up to the switch: it enables interrupts once it runs again.
unfoldable pub idle_round : Kernel → Option Kernel
unfolding intr_disable
idle_round k = thread_block (Frame.set_level true) (intr_disable k)
