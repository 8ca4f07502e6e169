-- ===== src/Threads/RoundRobin.antt =====
-- The order in which threads run: thread_yield goes to the back of the ready list, and the thread at
-- its front runs. And what thread_exit leaves.
use tony_henry_niklas.Threads.{Kernel, is_dying}
use tony_henry_niklas.Threads.Switch.{is_thread, can_free}
use tony_henry_niklas.Threads.Life.{thread_yield, thread_exit}
use tony_henry_niklas.Threads.Invariant.{is_live, Inv}
use tony_henry_niklas.Threads.Next.{dispatch}
use tony_henry_niklas.Threads.Dispatch.{left_with, first_next}
use tony_henry_niklas.Threads.Steps.{yielding, thread_yield-Inv, exiting, thread_exit-Inv}
use tony_henry_niklas.Common.{
  ℕ, ◌≡◌, refl, ap, ◌∙◌, ◌≢◌, true, false, List, [], ◌∷◌, ◌++◌, some, arith,
}

yielding_busy :
    (k : Kernel)
    → k.running_thread ≢ k.idle_thread
    → (yielding k).ready_list ≡ k.ready_list ++ (k.running_thread ∷ [])
unfolding yielding
yielding_busy k busy = ground arith

-- A thread other than the idle one that yields while others are ready goes to the back of the
-- ready list, the thread at the front runs and the others keep their order; no assertion fails
-- and the invariant is kept.
pub yield_round_robin :
    (k : Kernel) (t : ℕ) (l : List ℕ)
    → Inv k
    → k.intr_context ≡ false
    → k.running_thread ≢ k.idle_thread
    → k.ready_list ≡ t ∷ l
    → (k' : Kernel) × (thread_yield k ≡ some k')
      × Inv k'
      × (k'.running_thread ≡ t)
      × (k'.ready_list ≡ l ++ (k.running_thread ∷ []))
yield_round_robin k t l v calm busy e =
    let (k', y, sw) = thread_yield-Inv k v calm in
    let (n, r) = first_next sw (yielding_busy k busy ∙ ap (λ q. q ++ (k.running_thread ∷ [])) e) in
    (k', y, sw.inv, n, r)

exiting_dies : (k : Kernel) → is_dying ((exiting k).thread (exiting k).running_thread).status ≡ true
unfolding exiting
exiting_dies k = ground arith

exiting_same :
    (k : Kernel)
    → ((exiting k).running_thread ≡ k.running_thread)
      × ((exiting k).initial_thread ≡ k.initial_thread)
unfolding exiting
exiting_same k = (refl, refl)

dispatch_dead :
    (prev next : ℕ) (k : Kernel)
    → is_dying (k.thread prev).status ≡ true
    → is_live k next ≡ true
    → prev ≢ k.initial_thread
    → is_thread (dispatch prev next k) prev ≡ false
dispatch_dead prev next k d l i = ground arith

dispatch_frees :
    (prev next : ℕ) (k : Kernel)
    → is_dying (k.thread prev).status ≡ true
    → is_live k next ≡ true
    → prev ≢ k.initial_thread
    → prev ≢ 0
    → (dispatch prev next k).page_in_use prev ≡ false
dispatch_frees prev next k d l i nz = ground arith

-- A thread that exits outside a handler, other than the idle one and the initial one, its page
-- aligned, in a pool and in use, is no thread any more when the next one runs, since its page
-- has been freed; no assertion fails, the invariant is kept, and the page is in use no more.
pub thread_exit_lem :
    (k : Kernel)
    → Inv k
    → k.intr_context ≡ false
    → k.running_thread ≢ k.idle_thread
    → k.running_thread ≢ k.initial_thread
    → can_free k k.running_thread ≡ true
    → (k' : Kernel) × (thread_exit k ≡ some k')
      × Inv k'
      × (is_thread k' k.running_thread ≡ false)
      × (k'.running_thread ≢ k.running_thread)
      × (k'.page_in_use k.running_thread ≡ false)
unfolding exiting
thread_exit_lem k v calm busy other free =
    let (k', e, sw) = thread_exit-Inv k v busy calm free in
    let gone : is_thread k' k.running_thread ≡ false =
      ap (λ q. is_thread q k.running_thread) sw.ends
      ∙ dispatch_dead k.running_thread sw.next (left_with (exiting k) sw.rest) (exiting_dies k)
          sw.is_next.lives other in
    let returned : k'.page_in_use k.running_thread ≡ false =
      ap (λ q. q.page_in_use k.running_thread) sw.ends
      ∙ dispatch_frees k.running_thread sw.next (left_with (exiting k) sw.rest) (exiting_dies k)
          sw.is_next.lives other (λ p. ground (arith, v.current_lives, p)) in
    (k', e, sw.inv, gone, λ p. ground (arith, sw.inv.current_lives), returned)
