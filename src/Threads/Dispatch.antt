-- ===== src/Threads/Dispatch.antt =====
-- The switch keeps the invariant: `schedule` runs a thread that was ready, or the idle thread.
use tony_henry_niklas.Threads.Next.{
  dispatched, dispatch-Inv, dispatch, NoneRuns, IsNext, switch_to_lem, ready-IsNext, idle-IsNext,
}
use tony_henry_niklas.Threads.{Kernel, is_running, is_dying, count}
use tony_henry_niklas.Threads.Switch.{
  can_free, first_or_idle, next_thread_to_run, switch_to, schedule,
}
use tony_henry_niklas.Threads.Invariant.{one_if, is_queued, Parked, Inv}
use tony_henry_niklas.Common.{
  ℕ, ◌≡◌, refl, sym, ap, ◌∙◌, ◌≢◌, false, List, [], ◌∷◌, some, arith, true,
}

schedule_from :
    (k : Kernel) (r : List ℕ)
    → k.ready_list ≡ r
    → schedule k ≡ switch_to k.running_thread (first_or_idle k r).0 (first_or_idle k r).1
unfolding schedule next_thread_to_run
schedule_from k r e =
    ap (λ q. switch_to k.running_thread (first_or_idle k q).0 (first_or_idle k q).1) e

-- What is left when `next` has been taken off the ready list.
abbrev pub left_with : Kernel → List ℕ → Kernel
left_with k l = record k { ready_list = l }

-- What `next_thread_to_run` takes, with the list that it leaves.
abbrev pub first_choice : Kernel → List ℕ → ℕ × List ℕ
first_choice k [] = (k.idle_thread, [])
first_choice k (t ∷ l) = (t, l)

pub record Switched (k k' : Kernel) : Type 0 where
  pub next : ℕ
  pub rest : List ℕ
  pub is_next : IsNext k next rest
  pub chosen : (next, rest) ≡ first_choice k k.ready_list
  pub ends : k' ≡ dispatch k.running_thread next (left_with k rest)
  pub inv : Inv k'

dispatch-sema : (prev next : ℕ) (k : Kernel) → (dispatch prev next k).sema ≡ k.sema
dispatch-sema prev next k = ground arith

pub Switched-sema : {k k' : Kernel} → Switched k k' → k'.sema ≡ k.sema
Switched-sema {k = k} sw =
    ap (λ q. q.sema) sw.ends ∙ dispatch-sema k.running_thread sw.next (left_with k sw.rest)

-- A thread that is neither dying nor picked stays as it was marked.
dispatch-thread :
    (prev next u : ℕ) (k : Kernel)
    → is_dying (k.thread prev).status ≡ false
    → next ≢ u
    → (dispatch prev next k).thread u ≡ k.thread u
dispatch-thread prev next u k h n = ground arith

pub Switched-thread :
    {k k' : Kernel} (u : ℕ)
    → (sw : Switched k k') → is_dying (k.thread k.running_thread).status ≡ false
    → sw.next ≢ u
    → k'.thread u ≡ k.thread u
Switched-thread {k = k} u sw h n =
    ap (λ q. q.thread u) sw.ends
    ∙ dispatch-thread k.running_thread sw.next u (left_with k sw.rest) h n

dispatch-clock : (prev next : ℕ) (k : Kernel) → (dispatch prev next k).ticks ≡ k.ticks
dispatch-clock prev next k = ground arith

pub Switched-clock : {k k' : Kernel} → Switched k k' → k'.ticks ≡ k.ticks
Switched-clock {k = k} sw =
    ap (λ q. q.ticks) sw.ends ∙ dispatch-clock k.running_thread sw.next (left_with k sw.rest)

abbrev pub QueueCounts : Kernel → Type 0
QueueCounts k = (t : ℕ) → count t k.ready_list ≡ one_if (is_queued k t)

-- A dying thread that the switch leaves has a page that can be freed.
abbrev pub CanLeave : Kernel → Type 0
CanLeave k = is_dying (k.thread k.running_thread).status ≡ true → can_free k k.running_thread ≡ true

schedule_by :
    (k : Kernel) (r : List ℕ)
    → Parked k
    → NoneRuns k
    → QueueCounts k
    → k.intr_on ≡ false
    → is_running (k.thread k.running_thread).status ≡ false
    → CanLeave k
    → k.ready_list ≡ r
    → (k' : Kernel) × (schedule k ≡ some k') × Switched k k'
unfolding dispatched
schedule_by k [] b halt h off halted leaves e =
    let n = idle-IsNext k b h e in
    (
      dispatch k.running_thread k.idle_thread (left_with k []),
      schedule_from k [] e
          ∙ switch_to_lem k k.running_thread k.idle_thread refl off halted n.lives leaves
          ∙ ap (λ q. some (dispatch k.running_thread k.idle_thread (left_with k q))) e,
      record {
        next = k.idle_thread;
        rest = [];
        is_next = n;
        chosen = ap (first_choice k) (sym e);
        ends = refl;
        inv = dispatch-Inv k k.running_thread k.idle_thread [] b halt n;
      },
    )
schedule_by k (t ∷ l) b halt h off halted leaves e =
    let n = ready-IsNext k t l b h e in
    (
      dispatch k.running_thread t (left_with k l),
      schedule_from k (t ∷ l) e
          ∙ switch_to_lem (left_with k l) k.running_thread t refl off halted n.lives leaves,
      record {
        next = t;
        rest = l;
        is_next = n;
        chosen = ap (first_choice k) (sym e);
        ends = refl;
        inv = dispatch-Inv k k.running_thread t l b halt n;
      },
    )

-- With interrupts off and no thread marked running, `schedule` succeeds and a thread runs again.
pub schedule-Inv :
    (k : Kernel)
    → Parked k
    → NoneRuns k
    → QueueCounts k
    → k.intr_on ≡ false
    → is_running (k.thread k.running_thread).status ≡ false
    → CanLeave k
    → (k' : Kernel) × (schedule k ≡ some k') × Switched k k'
schedule-Inv k b halt h off halted leaves =
    schedule_by k k.ready_list b halt h off halted leaves refl

dispatch_runs : (prev next : ℕ) (k : Kernel) → (dispatch prev next k).running_thread ≡ next
dispatch_runs prev next k = ground arith

dispatch_queue : (prev next : ℕ) (k : Kernel) → (dispatch prev next k).ready_list ≡ k.ready_list
dispatch_queue prev next k = ground arith

-- With the ready list `t ∷ l` the switch goes to `t` and leaves `l`.
pub first_next :
    {k k' : Kernel} {t : ℕ} {l : List ℕ}
    → Switched k k'
    → k.ready_list ≡ t ∷ l
    → (k'.running_thread ≡ t) × (k'.ready_list ≡ l)
first_next {k = k} sw e =
    let c = sw.chosen ∙ ap (first_choice k) e in
    (
      ap (λ q. q.running_thread) sw.ends
          ∙ dispatch_runs k.running_thread sw.next (left_with k sw.rest)
          ∙ ap (λ p. p.0) c,
      ap (λ q. q.ready_list) sw.ends
          ∙ dispatch_queue k.running_thread sw.next (left_with k sw.rest)
          ∙ ap (λ p. p.1) c,
    )
