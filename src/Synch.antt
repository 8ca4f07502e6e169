-- ===== src/Synch.antt =====
-- Semaphores, locks and condition variables (threads/synch.c). A wait is cut where the thread
-- switches: the operation ends with the next thread running, and `resume` goes on in the waiter.
pub mod Up
pub mod Down
use tony_henry_niklas.Threads.{
  Status, Kernel, Thread, Frame, After, Semaphore, update, intr_disable, intr_enable,
  intr_set_level,
}
use tony_henry_niklas.Threads.Switch.{thread_current}
use tony_henry_niklas.Threads.Life.{thread_block, thread_unblock}
use tony_henry_niklas.Common.{
  ℕ, zero, suc, ◌+◌, ◌-◌, ◌*◌, ◌/◌, ◌%◌, ◌^◌, ◌≤◌, ◌<◌, ◌≡◌, refl, sym, ap, ◌∙◌, ◌≢◌, ◌↔◌, ◌⊎◌, inl,
  inr, Bool, true, false, ◌&&◌, ◌||◌, not, List, [], ◌∷◌, ◌++◌, map, Option, none, some, arith, ltb,
  leb, ◌==◌, check, if◌then◌else◌, length, get_elem?, set, ◌>>=◌, Bool-cases, Option-cases, ltb→lt,
  leb→le, lt→ltb, ==_iff, take, drop, replicate, length-set, get_elem?-set_self, get_elem?-set_ne,
  length-append, get_or,
}

abbrev pub with_sema : Kernel → ℕ → Semaphore → Kernel
with_sema k s v = record k { sema = update k.sema s v }

-- `ASSERT (p != NULL)`
abbrev pub is_given : ℕ → Bool
is_given p = not (p == 0)

unfoldable pub sema_init : ℕ → ℕ → Kernel → Option Kernel
sema_init s value k =
    check (is_given s) (some (with_sema k s (record { value = value; waiters = [] })))

-- The test of the `while` loop of `sema_down`, and what follows up to the switch, or to the end
-- and on into the caller, `finish`.
unfoldable pub down_loop : ℕ → Bool → After → (Kernel → Option Kernel) → Kernel → Option Kernel
unfolding intr_set_level
down_loop s old_level after finish k =
    let v = k.sema s in
    if v.value == 0
    then (thread_current k >>= λ cur.
        thread_block (Frame.down s old_level after)
          (with_sema k s (record v { waiters = v.waiters ++ (cur ∷ []) })))
    else (intr_set_level old_level (with_sema k s (record v { value = v.value - 1 })) >>= λ k'.
        finish k')

unfoldable pub sema_down : ℕ → Kernel → Option Kernel
unfolding intr_disable
sema_down s k =
    check (is_given s)
      (check (not k.intr_context) (down_loop s k.intr_on After.done some (intr_disable k)))

unfoldable pub lock_held_by_current_thread : ℕ → Kernel → Option Bool
lock_held_by_current_thread l k =
    check (is_given l) (thread_current k >>= λ t. some (k.holder l == t))

abbrev pub with_holder : Kernel → ℕ → ℕ → Kernel
with_holder k l t = record k { holder = update k.holder l t }

-- The last line of `lock_acquire`.
unfoldable pub take_hold : ℕ → Kernel → Option Kernel
take_hold l k = thread_current k >>= λ t. some (with_holder k l t)

unfoldable pub lock_acquire : ℕ → Kernel → Option Kernel
unfolding intr_disable
lock_acquire l k = check (is_given l && not k.intr_context) (
    lock_held_by_current_thread l k >>= λ held.
    check (not held) (down_loop l k.intr_on (After.hold l) (take_hold l) (intr_disable k)))

unfoldable pub sema_try_down : ℕ → Kernel → Option (Bool × Kernel)
unfolding intr_disable intr_set_level
sema_try_down s k = check (is_given s) (
    let old_level = k.intr_on in
    let k' = intr_disable k in
    let v = k'.sema s in
    if ltb 0 v.value
    then (intr_set_level old_level (with_sema k' s (record v { value = v.value - 1 })) >>= λ k''.
        some (true, k''))
    else (intr_set_level old_level k' >>= λ k''. some (false, k'')))

-- Wakes the first waiter, if any; `list_pop_front` takes it off.
unfoldable pub wake_first : ℕ → List ℕ → Kernel → Option Kernel
wake_first s [] k = some k
wake_first s (t ∷ l) k = thread_unblock t (with_sema k s (record (k.sema s) { waiters = l }))

-- `value++` on an unsigned int.
unfoldable pub sema_up : ℕ → Kernel → Option Kernel
unfolding intr_disable intr_set_level
sema_up s k = check (is_given s) (
    let old_level = k.intr_on in
    let k' = intr_disable k in
    wake_first s (k'.sema s).waiters k' >>= λ woken.
    intr_set_level old_level
      (with_sema woken s (record (woken.sema s) { value = ((woken.sema s).value + 1) % 2 ^ 32 })))

unfoldable pub lock_init : ℕ → Kernel → Option Kernel
lock_init l k = check (is_given l) (sema_init l 1 (with_holder k l 0))

unfoldable pub lock_try_acquire : ℕ → Kernel → Option (Bool × Kernel)
lock_try_acquire l k = lock_held_by_current_thread l k >>= λ held.
    check (not held) (
      sema_try_down l k >>= λ r.
      if r.0 then (take_hold l r.1 >>= λ k'. some (true, k')) else some r)

unfoldable pub lock_release : ℕ → Kernel → Option Kernel
lock_release l k =
    lock_held_by_current_thread l k >>= λ held. check held (sema_up l (with_holder k l 0))

abbrev pub with_cond : Kernel → ℕ → List ℕ → Kernel
with_cond k c l = record k { cond_waiters = update k.cond_waiters c l }

unfoldable pub cond_init : ℕ → Kernel → Option Kernel
cond_init c k = check (is_given c) (some (with_cond k c []))

-- `waiter` is the semaphore on the caller's stack.
unfoldable pub cond_wait : ℕ → ℕ → ℕ → Kernel → Option Kernel
unfolding intr_disable
cond_wait c l waiter k = check (is_given c && is_given l && not k.intr_context) (
    lock_held_by_current_thread l k >>= λ held. check held (
      sema_init waiter 0 k >>= λ k1.
      lock_release l (with_cond k1 c (k1.cond_waiters c ++ (waiter ∷ []))) >>= λ k2.
      down_loop waiter k2.intr_on (After.relock l) (lock_acquire l) (intr_disable k2)))

-- Wakes the thread behind the first semaphore of the condition's list, if any.
unfoldable pub signal_first : ℕ → List ℕ → Kernel → Option Kernel
signal_first c [] k = some k
signal_first c (s ∷ l) k = sema_up s (with_cond k c l)

unfoldable pub cond_signal : ℕ → ℕ → Kernel → Option Kernel
cond_signal c l k =
    check (is_given c && is_given l && not k.intr_context)
      (lock_held_by_current_thread l k >>= λ held. check held (signal_first c (k.cond_waiters c) k))

-- `while (!list_empty (&cond->waiters)) cond_signal (cond, lock);`, with fuel for the rounds.
unfoldable pub cond_broadcast_loop : ℕ → ℕ → ℕ → Kernel → Option Kernel
cond_broadcast_loop zero c l k = none
cond_broadcast_loop (suc fuel) c l k =
    let rest = cond_signal c l k >>= λ k'. cond_broadcast_loop fuel c l k' in
    if length (k.cond_waiters c) == 0 then some k else rest

unfoldable pub cond_broadcast : ℕ → ℕ → Kernel → Option Kernel
cond_broadcast c l k =
    check (is_given c && is_given l) (cond_broadcast_loop (length (k.cond_waiters c) + 1) c l k)

unfoldable pub finish_down : After → Kernel → Option Kernel
finish_down After.done k = some k
finish_down (After.hold l) k = take_hold l k
finish_down (After.relock l) k = lock_acquire l k

-- What the running thread does when a switch returns in it.
unfoldable pub resume_frame : Frame → Kernel → Option Kernel
unfolding intr_enable intr_set_level
resume_frame Frame.start k = intr_enable k
resume_frame (Frame.set_level old_level) k = intr_set_level old_level k
resume_frame (Frame.down s old_level after) k = down_loop s old_level after (finish_down after) k

unfoldable pub resume : Kernel → Option Kernel
resume k = resume_frame (k.frame k.running_thread) k
