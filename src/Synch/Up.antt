-- ===== src/Synch/Up.antt =====
-- sema_up of threads/synch.c: the first waiter is made ready.
use mathlib.Core.List.{append-nil}
use tony_henry_niklas.Threads.{
  Status, Kernel, Frame, Semaphore, is_blocked, count, with_status, intr_disable, intr_set_level,
}
use tony_henry_niklas.Threads.Switch.{is_thread}
use tony_henry_niklas.Threads.Life.{thread_unblock, push_ready}
use tony_henry_niklas.Threads.Invariant.{is_down, waits_for, one_if, is_waiting, Inv}
use tony_henry_niklas.Threads.Steps.{count-append}
use tony_henry_niklas.Synch.{with_sema, sema_up, wake_first}
use tony_henry_niklas.Threads.Update.{update-update, update_self}
use tony_henry_niklas.Common.{
  ℕ, ◌+◌, ◌%◌, ◌^◌, ◌≡◌, refl, sym, ap, ◌∙◌, ◌≢◌, true, false, ◌&&◌, not, List, [], ◌∷◌, ◌++◌,
  Option, some, arith, ◌==◌, ◌>>=◌, subst, take, drop,
}

-- Only a thread outside an interrupt handler runs with interrupts on.
abbrev pub LevelFits : Kernel → Type 0
LevelFits k = k.intr_on ≡ true → k.intr_context ≡ false

-- What `sema_up` makes of a kernel whose semaphore `s` has the waiters `l`.
abbrev pub upped : Kernel → ℕ → List ℕ → Kernel
upped k s [] = with_sema k s (record { value = ((k.sema s).value + 1) % 2 ^ 32; waiters = [] })
upped k s (t ∷ l) =
    with_status
      (push_ready (with_sema k s (record { value = ((k.sema s).value + 1) % 2 ^ 32; waiters = l }))
        t)
      t Status.ready

head_waits :
    (k : Kernel) (s t : ℕ) (l : List ℕ)
    → Inv k
    → (k.sema s).waiters ≡ t ∷ l
    → (is_waiting k s t ≡ true) × ((u : ℕ) → count u l ≡ one_if (is_waiting k s u && not (t == u)))
head_waits k s t l v e = (ground (arith, counts t), λ u. ground (arith, counts u))
  where
    counts : (u : ℕ) → count u (t ∷ l) ≡ one_if (is_waiting k s u)
    counts u = subst (λ m. count u m ≡ one_if (is_waiting k s u)) e (v.base.wait_count s u)

-- A thread waits for one semaphore at most.
waits_for_one : (f : Frame) (s s' : ℕ) → waits_for f s ≡ true → waits_for f s' ≡ (s == s')
waits_for_one Frame.start s s' h = cc
waits_for_one (Frame.set_level l) s s' h = cc
waits_for_one (Frame.down q l a) s s' h = ground arith

waits_for-is_down : (f : Frame) (s : ℕ) → waits_for f s ≡ true → is_down f ≡ true
waits_for-is_down Frame.start s h = cc
waits_for-is_down (Frame.set_level l) s h = cc
waits_for-is_down (Frame.down q l a) s h = refl

module _ (k : Kernel) (s t : ℕ) (l : List ℕ) (v : Inv k) (e : (k.sema s).waiters ≡ t ∷ l) where
  waiting : is_waiting k s t ≡ true
  waiting = (head_waits k s t l v e).0

  down : is_down (k.frame t) ≡ true
  down = waits_for-is_down (k.frame t) s (ground (arith, waiting))

  awake : (k.thread t).wakeup_time ≡ 0
  awake = ground (arith, v.base.sleeps t, waiting, down)

  not_idle : t ≢ k.idle_thread
  not_idle p = ground (arith, v.base.idle_waits_not, waiting, down)

  woken-wait_count :
      (q u : ℕ)
      → count u ((upped k s (t ∷ l)).sema q).waiters ≡ one_if (is_waiting (upped k s (t ∷ l)) q u)
  woken-wait_count q u = ground (
    arith,
    v.base.wait_count q u,
    (head_waits k s t l v e).1 u,
    waits_for_one (k.frame t) s q,
    waiting,
  )

  woken-Inv : Inv (upped k s (t ∷ l))
  woken-Inv = record {
    base = record {
      wait_count = woken-wait_count;
      all_count = λ u. ground (arith, v.base.all_count u, waiting);
      sleeps = λ u h w. ground (arith, v.base.sleeps u, awake);
      parked = λ u h w. ground (arith, v.base.parked u);
      idle_lives = ground (arith, v.base.idle_lives);
      idle_waits_not = ground (arith, v.base.idle_waits_not);
      idle_sleeps_not = ground (arith, v.base.idle_sleeps_not);
    };
    ready_count = λ u.
        ground (arith, v.ready_count u, count-append u k.ready_list (t ∷ []), waiting, not_idle);
    current_lives = ground (arith, v.current_lives);
    current_runs = ground (arith, v.current_runs, waiting);
    one_runs = λ u h r. ground (arith, v.one_runs u);
  }

idle_up-Inv : (k : Kernel) (s : ℕ) → Inv k → (k.sema s).waiters ≡ [] → Inv (upped k s [])
idle_up-Inv k s v e = record {
  base = record {
    wait_count = λ q u. ground (arith, v.base.wait_count q u, none_waits u);
    all_count = v.base.all_count;
    sleeps = v.base.sleeps;
    parked = v.base.parked;
    idle_lives = v.base.idle_lives;
    idle_waits_not = v.base.idle_waits_not;
    idle_sleeps_not = v.base.idle_sleeps_not;
  };
  ready_count = v.ready_count;
  current_lives = v.current_lives;
  current_runs = v.current_runs;
  one_runs = v.one_runs;
}
  where
    none_waits : (u : ℕ) → 0 ≡ one_if (is_waiting k s u)
    none_waits u = subst (λ m. count u m ≡ one_if (is_waiting k s u)) e (v.base.wait_count s u)

upped-Inv : (k : Kernel) (s : ℕ) (l : List ℕ) → Inv k → (k.sema s).waiters ≡ l → Inv (upped k s l)
upped-Inv k s [] v e = idle_up-Inv k s v e
upped-Inv k s (t ∷ l) v e = woken-Inv k s t l v e

-- `sema_up` by the list of waiters.
up_from : Kernel → ℕ → List ℕ → Option Kernel
up_from k s l = wake_first s l (intr_disable k) >>= λ woken.
    intr_set_level k.intr_on
      (with_sema woken s (record (woken.sema s) { value = ((woken.sema s).value + 1) % 2 ^ 32 }))

sema_up_from : (k : Kernel) (s : ℕ) → s ≢ 0 → sema_up s k ≡ up_from k s (k.sema s).waiters
unfolding sema_up up_from
sema_up_from k s given = let ok : (s == 0) ≡ false = ground (arith, given) in rw ok refl

level_back : (k : Kernel) → LevelFits k → intr_set_level k.intr_on (intr_disable k) ≡ some k
unfolding intr_set_level
level_back k f = ground arith

up_nobody :
    (k : Kernel) (s : ℕ)
    → LevelFits k
    → up_from k s []
      ≡ some (with_sema k s (record (k.sema s) { value = ((k.sema s).value + 1) % 2 ^ 32 }))
unfolding up_from wake_first intr_set_level
up_nobody k s f = ground arith

-- A blocked thread is put on the ready list, whatever the interrupt level.
pub thread_unblock_lem :
    (k : Kernel) (t : ℕ)
    → LevelFits k
    → is_thread k t ≡ true
    → is_blocked (k.thread t).status ≡ true
    → thread_unblock t k ≡ some (with_status (push_ready k t) t Status.ready)
unfolding thread_unblock intr_set_level
thread_unblock_lem k t f h b = ground arith

raise : Kernel → ℕ → Kernel → Option Kernel
raise k s woken =
    intr_set_level k.intr_on
      (with_sema woken s (record (woken.sema s) { value = ((woken.sema s).value + 1) % 2 ^ 32 }))

raise_lem :
    (k : Kernel) (s t : ℕ) (l : List ℕ)
    → LevelFits k
    → raise k s (
        with_status
          (push_ready (with_sema (intr_disable k) s (record (k.sema s) { waiters = l })) t)
          t
          Status.ready)
      ≡ some (upped k s (t ∷ l))
unfolding raise intr_set_level
raise_lem k s t l f =
    let v : Semaphore = record (k.sema s) { waiters = l } in
    rw
      (
        update_self k.sema s v,
        update-update k.sema s v (record { value = ((k.sema s).value + 1) % 2 ^ 32; waiters = l }),
      )
      (ground arith)

up_wakes :
    (k : Kernel) (s t : ℕ) (l : List ℕ)
    → LevelFits k
    → is_waiting k s t ≡ true
    → up_from k s (t ∷ l) ≡ some (upped k s (t ∷ l))
unfolding up_from wake_first raise intr_disable
up_wakes k s t l f w =
    ap (λ o. o >>= raise k s)
      (thread_unblock_lem
        (with_sema (intr_disable k) s (record ((intr_disable k).sema s) { waiters = l })) t
        (λ p. cc) (ground arith) (ground arith))
    ∙ raise_lem k s t l f

sema_up_lem :
    (k : Kernel) (s : ℕ) (l : List ℕ)
    → s ≢ 0
    → Inv k
    → LevelFits k
    → (k.sema s).waiters ≡ l
    → sema_up s k ≡ some (upped k s l)
sema_up_lem k s [] given v f e =
    sema_up_from k s given
    ∙ ap (up_from k s) e
    ∙ up_nobody k s f
    ∙ ap
        (λ m.
          some (with_sema k s (record { value = ((k.sema s).value + 1) % 2 ^ 32; waiters = m })))
        e
sema_up_lem k s (t ∷ l) given v f e =
    sema_up_from k s given ∙ ap (up_from k s) e ∙ up_wakes k s t l f (head_waits k s t l v e).0

-- sema_up of a semaphore that is not null fails no assertion and keeps the invariant; the first
-- waiter is ready behind the ready list, the others wait on, and the value has grown by one
-- modulo 2 ^ 32. Interrupts are off where it is called in a handler.
pub sema_up-Inv :
    (k : Kernel) (s : ℕ)
    → s ≢ 0
    → Inv k
    → LevelFits k
    → (k' : Kernel) × (sema_up s k ≡ some k')
      × Inv k'
      × ((k'.sema s).value ≡ ((k.sema s).value + 1) % 2 ^ 32)
      × ((k'.sema s).waiters ≡ drop 1 (k.sema s).waiters)
      × (k'.ready_list ≡ k.ready_list ++ take 1 (k.sema s).waiters)
sema_up-Inv k s given v f = go (k.sema s).waiters refl
  where
    upped_value : (l : List ℕ) → ((upped k s l).sema s).value ≡ ((k.sema s).value + 1) % 2 ^ 32
    upped_value [] = ground arith
    upped_value (t ∷ l) = ground arith

    upped_waiters : (l : List ℕ) → ((upped k s l).sema s).waiters ≡ drop 1 l
    upped_waiters [] = ground arith
    upped_waiters (t ∷ l) = ground arith

    upped_ready : (l : List ℕ) → (upped k s l).ready_list ≡ k.ready_list ++ take 1 l
    upped_ready [] = sym (append-nil k.ready_list)
    upped_ready (t ∷ l) = refl

    go :
        (l : List ℕ)
        → (k.sema s).waiters ≡ l
        → (k' : Kernel) × (sema_up s k ≡ some k')
          × Inv k'
          × ((k'.sema s).value ≡ ((k.sema s).value + 1) % 2 ^ 32)
          × ((k'.sema s).waiters ≡ drop 1 (k.sema s).waiters)
          × (k'.ready_list ≡ k.ready_list ++ take 1 (k.sema s).waiters)
    go l e = (
      upped k s l,
      sema_up_lem k s l given v f e,
      upped-Inv k s l v e,
      upped_value l,
      upped_waiters l ∙ ap (drop 1) (sym e),
      upped_ready l ∙ ap (λ m. k.ready_list ++ take 1 m) (sym e),
    )
