-- ===== src/Timer/Wake.antt =====
-- The tick that wakes sleeping threads: update_sleeping_threads over the list of all threads.
use tony_henry_niklas.Threads.{Status, Kernel, Thread, Frame, count, with_status}
use tony_henry_niklas.Threads.Switch.{is_thread}
use tony_henry_niklas.Threads.Life.{foreach_from, push_ready}
use tony_henry_niklas.Threads.Invariant.{is_down, waits_for, Inv}
use tony_henry_niklas.Threads.Steps.{count-append}
use tony_henry_niklas.Synch.Up.{LevelFits, thread_unblock_lem}
use tony_henry_niklas.Timer.{with_wakeup, is_due, update_sleeping_threads}
use tony_henry_niklas.Common.{
  ℕ, ◌≤◌, ◌≡◌, refl, sym, ◌∙◌, ◌≢◌, inl, inr, true, false, ◌&&◌, List, [], ◌∷◌, some, arith, ltb,
  if◌then◌else◌, Bool-cases,
}

-- What the handler makes of one thread.
abbrev pub wake : ℕ → ℕ → Kernel → Kernel
wake now t k =
    if is_due k now t then with_status (push_ready (with_wakeup k t 0) t) t Status.ready else k

waits_for_none : (f : Frame) (s : ℕ) → is_down f ≡ false → waits_for f s ≡ false
waits_for_none Frame.start s h = refl
waits_for_none (Frame.set_level l) s h = refl
waits_for_none (Frame.down q l a) s h = cc

wake-context : (now t : ℕ) (k : Kernel) → (wake now t k).intr_context ≡ k.intr_context
wake-context now t k = ground arith

wake-level : (now t : ℕ) (k : Kernel) → (wake now t k).intr_on ≡ k.intr_on
wake-level now t k = ground arith

wake-clock : (now t : ℕ) (k : Kernel) → (wake now t k).ticks ≡ k.ticks
wake-clock now t k = ground arith

wake-LevelFits : (now t : ℕ) (k : Kernel) → LevelFits k → LevelFits (wake now t k)
wake-LevelFits now t k f p = wake-context now t k ∙ f (sym (wake-level now t k) ∙ p)

wake-queue : (now t u : ℕ) (k : Kernel) → count u k.ready_list ≤ count u (wake now t k).ready_list
wake-queue now t u k = ground (arith, count-append u k.ready_list (t ∷ []))

update_lem :
    (now t : ℕ) (k : Kernel)
    → LevelFits k
    → is_thread k t ≡ true
    → update_sleeping_threads now t k ≡ some (wake now t k)
unfolding update_sleeping_threads
update_lem now t k f h = elim (Bool-cases (is_due k now t)) [
  | inl due ↦ rw due (thread_unblock_lem (with_wakeup k t 0) t f (ground arith) (ground arith))
  | inr not_due ↦ rw not_due
]

abbrev woken : ℕ → Kernel → Kernel
woken t k = with_status (push_ready (with_wakeup k t 0) t) t Status.ready

module _ (now t : ℕ) (k : Kernel) (v : Inv k) (live : is_thread k t ≡ true)
    (due : is_due k now t ≡ true) where
  not_down : is_down (k.frame t) ≡ false
  not_down = ground (arith, v.base.sleeps t)

  not_waiting : (s : ℕ) → waits_for (k.frame t) s ≡ false
  not_waiting s = waits_for_none (k.frame t) s not_down

  not_idle : t ≢ k.idle_thread
  not_idle p = ground (arith, v.base.idle_sleeps_not)

  woken-Inv : Inv (woken t k)
  woken-Inv = record {
    base = record {
      wait_count = λ s u. ground (arith, v.base.wait_count s u, not_waiting s);
      all_count = λ u. ground (arith, v.base.all_count u);
      sleeps = λ u h w. ground (arith, v.base.sleeps u);
      parked = λ u h w. ground (arith, v.base.parked u);
      idle_lives = ground (arith, v.base.idle_lives);
      idle_waits_not = ground (arith, v.base.idle_waits_not);
      idle_sleeps_not = ground (arith, v.base.idle_sleeps_not);
    };
    ready_count =
        λ u. ground (arith, v.ready_count u, count-append u k.ready_list (t ∷ []), not_idle);
    current_lives = ground (arith, v.current_lives);
    current_runs = ground (arith, v.current_runs);
    one_runs = λ u h r. ground (arith, v.one_runs u);
  }

pub wake-Inv : (now t : ℕ) (k : Kernel) → Inv k → is_thread k t ≡ true → Inv (wake now t k)
wake-Inv now t k v live = elim (Bool-cases (is_due k now t)) [
  | inl due ↦ rw due (woken-Inv now t k v live due)
  | inr not_due ↦ rw not_due v
]

-- A thread after the handler has seen the threads of `l`.
abbrev pub after_tick : Kernel → ℕ → List ℕ → ℕ → Thread
after_tick k now l u =
    if ltb 0 (count u l) && is_due k now u
    then record (k.thread u) { status = Status.ready; wakeup_time = 0 }
    else k.thread u

wake-is_thread : (now t u : ℕ) (k : Kernel) → is_thread (wake now t k) u ≡ is_thread k u
wake-is_thread now t u k = ground arith

wake-after_tick :
    (now t u : ℕ) (l : List ℕ) (k : Kernel)
    → after_tick (wake now t k) now l u ≡ after_tick k now (t ∷ l) u
wake-after_tick now t u l k = ground arith

-- The threads of a list are all threads.
abbrev pub AllThreads : Kernel → List ℕ → Type 0
AllThreads k [] = Unit
AllThreads k (t ∷ l) = (is_thread k t ≡ true) × AllThreads k l

AllThreads-wake :
    (now t : ℕ) (k : Kernel) (l : List ℕ) → AllThreads k l → AllThreads (wake now t k) l
AllThreads-wake now t k [] a = tt
AllThreads-wake now t k (u ∷ l) a = (wake-is_thread now t u k ∙ a.0, AllThreads-wake now t k l a.1)

pub record Ticked (k k' : Kernel) (now : ℕ) (l : List ℕ) : Type 0 where
  pub inv : Inv k'
  pub threads : (u : ℕ) → k'.thread u ≡ after_tick k now l u
  pub queue : (u : ℕ) → count u k.ready_list ≤ count u k'.ready_list
  pub context : k'.intr_context ≡ k.intr_context
  pub level : k'.intr_on ≡ k.intr_on
  pub clock : k'.ticks ≡ k.ticks

pub foreach-Ticked :
    (now : ℕ) (l : List ℕ) (k : Kernel)
    → Inv k
    → LevelFits k
    → AllThreads k l
    → (k' : Kernel) × (foreach_from (update_sleeping_threads now) l k ≡ some k') × Ticked k k' now l
unfolding foreach_from
foreach-Ticked now [] k v f a = (
  k,
  refl,
  record {
    inv = v;
    threads = λ u. ground arith;
    queue = λ u. omega arith;
    context = refl;
    level = refl;
    clock = refl;
  },
)
foreach-Ticked now (t ∷ l) k v f a =
    let (k', e, r) =
      foreach-Ticked now l (wake now t k) (wake-Inv now t k v a.0) (wake-LevelFits now t k f)
        (AllThreads-wake now t k l a.1) in
    (
      k',
      rw (update_lem now t k f a.0) e,
      record {
        inv = r.inv;
        threads = λ u. r.threads u ∙ wake-after_tick now t u l k;
        queue = λ u. omega (arith, r.queue u, wake-queue now t u k);
        context = r.context ∙ wake-context now t k;
        level = r.level ∙ wake-level now t k;
        clock = r.clock ∙ wake-clock now t k;
      },
    )
