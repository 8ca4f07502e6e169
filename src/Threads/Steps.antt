-- ===== src/Threads/Steps.antt =====
-- thread_yield, thread_exit and the round of `idle` succeed and keep the invariant.
use tony_henry_niklas.Threads.{
  Status, Kernel, Frame, is_running, update, count, with_status, intr_disable,
}
use tony_henry_niklas.Threads.Switch.{is_thread, can_free, thread_current, schedule}
use tony_henry_niklas.Threads.Life.{thread_yield, thread_exit, thread_block, push_ready, remove}
use tony_henry_niklas.Threads.Invariant.{Parked, Inv}
use tony_henry_niklas.Threads.Next.{NoneRuns}
use tony_henry_niklas.Threads.Dispatch.{QueueCounts, CanLeave, Switched, schedule-Inv}
use tony_henry_niklas.Common.{
  ℕ, ◌+◌, ◌-◌, ◌≡◌, ◌∙◌, ◌≢◌, true, false, List, [], ◌∷◌, ◌++◌, some, arith, ◌==◌, if◌then◌else◌,
}

pub count-append : (t : ℕ) (l m : List ℕ) → count t (l ++ m) ≡ count t l + count t m
count-append t [] m = omega arith
count-append t (x ∷ l) m = ground (arith, count-append t l m)

count-remove :
    (t u : ℕ) (l : List ℕ) → count u (remove t l) ≡ (if t == u then count u l - 1 else count u l)
count-remove t u [] = ground arith
count-remove t u (x ∷ l) = ground (arith, count-remove t u l)

pub thread_current_lem : {k : Kernel} → Inv k → thread_current k ≡ some k.running_thread
unfolding thread_current
thread_current_lem v = ground (arith, v.current_lives, v.current_runs)

-- The state in which `thread_yield` calls `schedule`.
unfoldable pub yielding : Kernel → Kernel
unfolding intr_disable
yielding k =
    let k' = intr_disable k in
    record (with_status
      (if k.running_thread == k.idle_thread then k' else push_ready k' k.running_thread)
      k.running_thread Status.ready) {
        frame = update k.frame k.running_thread (Frame.set_level k.intr_on);
      }

yielding_off : (k : Kernel) → (yielding k).intr_on ≡ false
unfolding yielding
yielding_off k = ground arith

yielding_halted :
    (k : Kernel) → is_running ((yielding k).thread (yielding k).running_thread).status ≡ false
unfolding yielding
yielding_halted k = ground arith

yielding-CanLeave : (k : Kernel) → CanLeave (yielding k)
unfolding yielding
yielding-CanLeave k d = absurd (ground (arith, d))

module _ (k : Kernel) (v : Inv k) where
  yield_lem : k.intr_context ≡ false → thread_yield k ≡ schedule (yielding k)
  unfolding thread_yield yielding
  yield_lem calm = ground (arith, thread_current_lem v)

  yielding-Parked : Parked (yielding k)
  unfolding yielding
  yielding-Parked = record {
    wait_count = λ s t. ground (arith, v.base.wait_count s t, v.current_runs);
    all_count = λ t. ground (arith, v.base.all_count t, v.current_runs);
    sleeps = λ t h w. ground (arith, v.base.sleeps t, v.current_runs);
    parked = λ t h w. ground (arith, v.base.parked t);
    idle_lives = ground (arith, v.base.idle_lives);
    idle_waits_not = ground (arith, v.base.idle_waits_not);
    idle_sleeps_not = ground (arith, v.base.idle_sleeps_not);
  }

  yielding-NoneRuns : NoneRuns (yielding k)
  unfolding yielding
  yielding-NoneRuns t h = ground (arith, v.one_runs t)

  yielding-QueueCounts : QueueCounts (yielding k)
  unfolding yielding
  yielding-QueueCounts t = ground (
    arith,
    v.ready_count t,
    count-append t k.ready_list (k.running_thread ∷ []),
    v.current_runs,
    v.current_lives,
  )

  -- From a thread that runs with the invariant, `thread_yield` fails no assertion, and a thread
  -- runs again with the invariant.
  pub thread_yield-Inv :
      k.intr_context ≡ false → (k' : Kernel) × (thread_yield k ≡ some k') × Switched (yielding k) k'
  thread_yield-Inv calm =
      let (k', e, sw) =
        schedule-Inv (yielding k) yielding-Parked yielding-NoneRuns yielding-QueueCounts
          (yielding_off k) (yielding_halted k) (yielding-CanLeave k) in
      (k', yield_lem calm ∙ e, sw)

-- The state in which `thread_exit` calls `schedule`.
unfoldable pub exiting : Kernel → Kernel
unfolding intr_disable
exiting k =
    let k' = intr_disable k in
    with_status (record k' { all_list = remove k.running_thread k.all_list }) k.running_thread
      Status.dying

exiting_off : (k : Kernel) → (exiting k).intr_on ≡ false
unfolding exiting
exiting_off k = ground arith

exiting_halted :
    (k : Kernel) → is_running ((exiting k).thread (exiting k).running_thread).status ≡ false
unfolding exiting
exiting_halted k = ground arith

exit_lem : (k : Kernel) (v : Inv k) → k.intr_context ≡ false → thread_exit k ≡ schedule (exiting k)
unfolding thread_exit exiting thread_current
exit_lem k v calm = ground (arith, v.current_lives, v.current_runs)

exiting-CanLeave : (k : Kernel) → can_free k k.running_thread ≡ true → CanLeave (exiting k)
unfolding exiting
exiting-CanLeave k h d = h

module _ (k : Kernel) (v : Inv k) (busy : k.running_thread ≢ k.idle_thread) where
  exiting-Parked : Parked (exiting k)
  unfolding exiting
  exiting-Parked = record {
    wait_count = λ s t. ground (arith, v.base.wait_count s t, v.current_runs);
    all_count = λ t. ground (
      arith,
      v.base.all_count t,
      v.current_runs,
      v.current_lives,
      count-remove k.running_thread t k.all_list,
    );
    sleeps = λ t h w. ground (arith, v.base.sleeps t, v.current_runs);
    parked = λ t h w. ground (arith, v.base.parked t);
    idle_lives = ground (arith, v.base.idle_lives);
    idle_waits_not = ground (arith, v.base.idle_waits_not);
    idle_sleeps_not = ground (arith, v.base.idle_sleeps_not);
  }

  exiting-NoneRuns : NoneRuns (exiting k)
  unfolding exiting
  exiting-NoneRuns t h = ground (arith, v.one_runs t)

  exiting-QueueCounts : QueueCounts (exiting k)
  unfolding exiting
  exiting-QueueCounts t = ground (arith, v.ready_count t, v.current_runs)

  pub thread_exit-Inv :
      k.intr_context ≡ false
      → can_free k k.running_thread ≡ true
      → (k' : Kernel) × (thread_exit k ≡ some k') × Switched (exiting k) k'
  thread_exit-Inv calm free =
      let (k', e, sw) =
        schedule-Inv (exiting k) exiting-Parked exiting-NoneRuns exiting-QueueCounts (exiting_off k)
          (exiting_halted k) (exiting-CanLeave k free) in
      (k', exit_lem k v calm ∙ e, sw)

-- The state in which `thread_block` calls `schedule`, for a thread with the frame `f`.
abbrev pub blocking : Kernel → Frame → Kernel
blocking k f = record (with_status k k.running_thread Status.blocked) {
  frame = update k.frame k.running_thread f;
}

-- `thread_block` by what holds when it has marked the thread.
pub thread_block_lem :
    (k : Kernel) (f : Frame)
    → is_thread k k.running_thread ≡ true
    → is_running (k.thread k.running_thread).status ≡ true
    → k.intr_context ≡ false
    → k.intr_on ≡ false
    → thread_block f k ≡ schedule (blocking k f)
unfolding thread_block thread_current
thread_block_lem k f a b c d = ground arith
