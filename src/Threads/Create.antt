-- ===== src/Threads/Create.antt =====
-- thread_create makes a new thread ready, behind the others.
use tony_henry_niklas.Threads.{Kernel, Thread, Frame, update, intr_disable, intr_set_level}
use tony_henry_niklas.Threads.Life.{allocate_tid, alloc_frame, thread_unblock}
use tony_henry_niklas.Common.{ℕ, ◌+◌, ◌-◌, false, Option, some, ◌>>=◌, false}

with_thread : Kernel → ℕ → Thread → Kernel
with_thread k t v = record k { thread = update k.thread t v }

-- What `thread_create` does once the thread is initialised.
after_tid : ℕ → ℕ × Kernel → Option (Option ℕ × Kernel)
after_tid page a =
    let tid = a.0 in
    let k2 = a.1 in
    let k3 = record k2 { thread = update k2.thread page (record (k2.thread page) { tid = tid }) } in
    let old_level = k3.intr_on in
    alloc_frame page 12 (intr_disable k3) >>= λ k4. alloc_frame page 4 k4 >>= λ k5.
    alloc_frame page 28 k5 >>= λ k6.
    intr_set_level old_level (record k6 { frame = update k6.frame page Frame.start }) >>= λ k7.
    thread_unblock page k7 >>= λ k8. some (some tid, k8)

finish_create : ℕ → Kernel → Option (Option ℕ × Kernel)
finish_create page k1 = allocate_tid k1 >>= after_tid page

-- The kernel while the stack frames are laid out, around the new thread.
abbrev laying_out : Kernel → Kernel
laying_out k = record k { next_tid = k.next_tid + 1; intr_on = false }

abbrev framed : Thread → ℕ → Thread
framed v tid = record v { tid = tid; stack = v.stack - 12 - 4 - 28 }

-- The end of `thread_create`, with the level and the tid of the kernel `k` at its start.
raise_create : ℕ → Kernel → Kernel → Option (Option ℕ × Kernel)
raise_create page k k6 =
    intr_set_level k.intr_on (record k6 { frame = update k6.frame page Frame.start }) >>= λ k7.
    thread_unblock page k7 >>= λ k8. some (some k.next_tid, k8)
