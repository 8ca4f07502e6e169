-- ===== src/Synch/Down.antt =====
-- sema_down of threads/synch.c succeeds, whether it waits or not, and keeps the invariant.
use tony_henry_niklas.Threads.{
  Kernel, Frame, After, is_running, count, intr_disable, intr_set_level,
}
use tony_henry_niklas.Threads.Switch.{thread_current, schedule}
use tony_henry_niklas.Threads.Life.{thread_block}
use tony_henry_niklas.Threads.Invariant.{one_if, is_waiting, Parked, Inv}
use tony_henry_niklas.Threads.Next.{NoneRuns}
use tony_henry_niklas.Threads.Dispatch.{
  QueueCounts, CanLeave, Switched, schedule-Inv, Switched-sema,
}
use tony_henry_niklas.Threads.Steps.{count-append, blocking}
use tony_henry_niklas.Synch.{with_sema, down_loop, sema_down}
use tony_henry_niklas.Common.{
  ℕ, ◌-◌, ◌<◌, ◌≡◌, refl, ap, ◌∙◌, ◌≢◌, ◌⊎◌, inl, inr, Bool, true, false, [], ◌∷◌, ◌++◌, Option,
  some, arith, ◌==◌, Bool-cases, ==_iff,
}

-- The state in which `sema_down` calls `schedule`, when the running thread has to wait.
unfoldable pub waiting_on : ℕ → Bool → After → Kernel → Kernel
unfolding intr_disable
waiting_on s old_level after k =
    blocking
      (with_sema (intr_disable k) s
        (record (k.sema s) { waiters = (k.sema s).waiters ++ (k.running_thread ∷ []) }))
      (Frame.down s old_level after)

waiting_waiters :
    (s : ℕ) (old_level : Bool) (after : After) (k : Kernel)
    → ((waiting_on s old_level after k).sema s).waiters
      ≡ (k.sema s).waiters ++ (k.running_thread ∷ [])
unfolding waiting_on
waiting_waiters s old_level after k = ground arith

waiting_value :
    (s : ℕ) (old_level : Bool) (after : After) (k : Kernel)
    → ((waiting_on s old_level after k).sema s).value ≡ (k.sema s).value
unfolding waiting_on
waiting_value s old_level after k = ground arith

down_loop_blocks :
    (s : ℕ) (old_level : Bool) (after : After) (finish : Kernel → Option Kernel) (k : Kernel)
    → Inv k
    → k.intr_context ≡ false
    → (k.sema s).value ≡ 0
    → down_loop s old_level after finish (intr_disable k)
      ≡ schedule (waiting_on s old_level after k)
unfolding down_loop waiting_on thread_block thread_current
down_loop_blocks s old_level after finish k v calm z =
    ground (arith, v.current_lives, v.current_runs)

module _ (s : ℕ) (old_level : Bool) (after : After) (k : Kernel) (v : Inv k)
    (busy : k.running_thread ≢ k.idle_thread) where
  no_sleep : (k.thread k.running_thread).wakeup_time ≡ 0
  no_sleep = ground (arith, v.base.sleeps k.running_thread, v.current_lives, v.current_runs)

  waiting_on-wait_count :
      (q u : ℕ)
      → count u ((waiting_on s old_level after k).sema q).waiters
        ≡ one_if (is_waiting (waiting_on s old_level after k) q u)
  unfolding waiting_on
  waiting_on-wait_count q u = ground (
    arith,
    v.base.wait_count q u,
    v.current_runs,
    v.current_lives,
    count-append u (k.sema s).waiters (k.running_thread ∷ []),
  )

  waiting_on-Parked : Parked (waiting_on s old_level after k)
  unfolding waiting_on
  waiting_on-Parked = record {
    wait_count = waiting_on-wait_count;
    all_count = λ t. ground (arith, v.base.all_count t, v.current_runs);
    sleeps = λ t h w. ground (arith, v.base.sleeps t, no_sleep);
    parked = λ t h w. ground (arith, v.base.parked t);
    idle_lives = ground (arith, v.base.idle_lives);
    idle_waits_not = ground (arith, v.base.idle_waits_not);
    idle_sleeps_not = ground (arith, v.base.idle_sleeps_not);
  }

  waiting_on-NoneRuns : NoneRuns (waiting_on s old_level after k)
  unfolding waiting_on
  waiting_on-NoneRuns t h = ground (arith, v.one_runs t)

  waiting_on-QueueCounts : QueueCounts (waiting_on s old_level after k)
  unfolding waiting_on
  waiting_on-QueueCounts t = ground (arith, v.ready_count t, v.current_runs)

  -- Where the value is 0 the caller of `sema_down` waits behind the others, and a thread runs.
  pub down_loop_waits :
      (finish : Kernel → Option Kernel)
      → k.intr_context ≡ false
      → (k.sema s).value ≡ 0
      → (k' : Kernel) × (down_loop s old_level after finish (intr_disable k) ≡ some k')
        × Switched (waiting_on s old_level after k) k'
  down_loop_waits finish calm z =
      let (k', e, sw) =
        schedule-Inv (waiting_on s old_level after k) waiting_on-Parked waiting_on-NoneRuns
          waiting_on-QueueCounts off halted leaves in
      (k', down_loop_blocks s old_level after finish k v calm z ∙ e, sw)
    where
      off : (waiting_on s old_level after k).intr_on ≡ false
      off = unfold waiting_on in refl

      leaves : CanLeave (waiting_on s old_level after k)
      leaves = unfold waiting_on in (λ d. absurd (ground (arith, d)))

      halted :
          is_running
            ((waiting_on s old_level after k).thread
              (waiting_on s old_level after k).running_thread).status
          ≡ false
      halted = unfold waiting_on in (ground arith)

-- What a thread goes on with that finds the semaphore's value above 0.
down_loop_takes :
    (s : ℕ) (old_level : Bool) (after : After) (finish : Kernel → Option Kernel) (k : Kernel)
    → (old_level ≡ true → k.intr_context ≡ false)
    → 0 < (k.sema s).value
    → down_loop s old_level after finish (intr_disable k)
      ≡ finish (record (with_sema k s (record (k.sema s) { value = (k.sema s).value - 1 })) {
        intr_on = old_level;
      })
unfolding down_loop intr_disable intr_set_level
down_loop_takes s old_level after finish k f p = ground arith

taken-Inv : (k : Kernel) (s n : ℕ) → Inv k → Inv (with_sema k s (record (k.sema s) { value = n }))
taken-Inv k s n v = record {
  base = record {
    wait_count = λ q u. ground (arith, v.base.wait_count q u);
    all_count = v.base.all_count;
    sleeps = v.base.sleeps;
    parked = v.base.parked;
    idle_lives = v.base.idle_lives;
    idle_waits_not = v.base.idle_waits_not;
    idle_sleeps_not = v.base.idle_sleeps_not;
  };
  ready_count = v.ready_count;
  current_lives = v.current_lives;
  current_runs = v.current_runs;
  one_runs = v.one_runs;
}

sema_down_from :
    (s : ℕ) (k : Kernel)
    → s ≢ 0
    → k.intr_context ≡ false
    → sema_down s k ≡ down_loop s k.intr_on After.done some (intr_disable k)
unfolding sema_down
sema_down_from s k given calm =
    let ok : (s == 0) ≡ false = ground (arith, given) in rw (ok, calm) refl

-- A thread other than the idle one that calls sema_down outside a handler, on a semaphore that
-- is not null, either takes one from a value above 0 and goes on, or finds 0, stands behind the
-- waiters and gives way to a thread that runs; no assertion fails and the invariant is kept.
pub sema_down-Inv :
    (s : ℕ) (k : Kernel)
    → s ≢ 0
    → Inv k
    → k.running_thread ≢ k.idle_thread
    → k.intr_context ≡ false
    → (k' : Kernel) × (sema_down s k ≡ some k')
      × Inv k'
      × (((0 < (k.sema s).value)
            × (k' ≡ with_sema k s (record (k.sema s) { value = (k.sema s).value - 1 })))
          ⊎ (((k.sema s).value ≡ 0)
              × ((k'.sema s).waiters ≡ (k.sema s).waiters ++ (k.running_thread ∷ []))
              × ((k'.sema s).value ≡ 0)))
sema_down-Inv s k given v busy calm = elim (Bool-cases ((k.sema s).value == 0)) [
  | inl z ↦
      let z' = (==_iff (k.sema s).value 0).0 z in
      let (k', e, sw) = down_loop_waits s k.intr_on After.done k v busy some calm z' in
      (
        k',
        sema_down_from s k given calm ∙ e,
        sw.inv,
        inr (
          z',
          ap (λ f. (f s).waiters) (Switched-sema sw) ∙ waiting_waiters s k.intr_on After.done k,
          ap (λ f. (f s).value) (Switched-sema sw) ∙ waiting_value s k.intr_on After.done k ∙ z',
        ),
      )
  | inr p ↦
      let p' : 0 < (k.sema s).value = ground arith in
      (
        with_sema k s (record (k.sema s) { value = (k.sema s).value - 1 }),
        sema_down_from s k given calm
            ∙ down_loop_takes s k.intr_on After.done some k (λ _. calm) p',
        taken-Inv k s ((k.sema s).value - 1) v,
        inl (p', refl),
      )
]
