-- ===== src/Threads/Next.antt =====
-- The switch to the next thread in threads/thread.c: the front of the ready list, or the idle thread.
use tony_henry_niklas.Threads.{
  Status, Kernel, Frame, is_running, is_blocked, is_dying, count, with_status,
}
use tony_henry_niklas.Threads.Switch.{
  is_thread, can_free, freed, free_thread, thread_schedule_tail, switch_to,
}
use tony_henry_niklas.Threads.Invariant.{
  is_down, waits_for, one_if, is_queued, is_waiting, is_parked, is_live, Parked, Inv,
}
use tony_henry_niklas.Common.{
  ℕ, ◌<◌, ◌≡◌, refl, true, false, ◌&&◌, not, List, [], ◌∷◌, some, arith, ◌==◌, if◌then◌else◌, subst,
}

abbrev pub run : Kernel → ℕ → Kernel
run k next = record (with_status (record k { running_thread = next }) next Status.running) {
  thread_ticks = 0;
}

-- Where `schedule` ends when it goes from `prev` to `next`; `k` has `next` off its ready list.
abbrev pub dispatch : ℕ → ℕ → Kernel → Kernel
dispatch prev next k =
    if not (prev == next)
      && (not (prev == 0) && is_dying (k.thread prev).status && not (prev == k.initial_thread))
    then freed (run k next) prev
    else run k next

abbrev pub NoneRuns : Kernel → Type 0
NoneRuns k = (t : ℕ) → is_thread k t ≡ true → is_running (k.thread t).status ≡ false

-- What makes a thread one that the scheduler may run.
pub record IsNext (k : Kernel) (next : ℕ) (l : List ℕ) : Type 0 where
  pub popped : (t : ℕ) → count t l ≡ one_if (is_queued k t && not (next == t))
  pub lives : is_live k next ≡ true
  pub awake : (k.thread next).wakeup_time ≡ 0
  pub still : is_blocked (k.thread next).status ≡ true → is_down (k.frame next) ≡ false

waits_for-is_down : (f : Frame) (s : ℕ) → is_down f ≡ false → waits_for f s ≡ false
waits_for-is_down Frame.start s h = refl
waits_for-is_down (Frame.set_level l) s h = refl
waits_for-is_down (Frame.down s' l a) s h = cc

module _ (k : Kernel) (prev next : ℕ) (l : List ℕ) (b : Parked k) (none_runs : NoneRuns k)
    (n : IsNext k next l) where
  unfoldable pub dispatched : Kernel
  dispatched = dispatch prev next (record k { ready_list = l })

  dispatch-wait_count :
      (s t : ℕ) → count t (dispatched.sema s).waiters ≡ one_if (is_waiting dispatched s t)
  unfolding dispatched
  dispatch-wait_count s t =
      ground (arith, b.wait_count s t, none_runs next, n.still, waits_for-is_down (k.frame next) s)

  dispatch-all_count : (t : ℕ) → count t dispatched.all_list ≡ one_if (is_live dispatched t)
  unfolding dispatched
  dispatch-all_count t = ground (arith, b.all_count t, n.lives)

  dispatch-sleeps :
      (t : ℕ)
      → is_thread dispatched t ≡ true
      → 0 < (dispatched.thread t).wakeup_time
      → (is_blocked (dispatched.thread t).status ≡ true) × (is_down (dispatched.frame t) ≡ false)
  unfolding dispatched
  dispatch-sleeps t h w = ground (arith, b.sleeps t, n.awake)

  dispatch-parked :
      (t : ℕ)
      → is_thread dispatched t ≡ true
      → is_blocked (dispatched.thread t).status ≡ true
      → is_parked dispatched t ≡ true
  unfolding dispatched
  dispatch-parked t h w = ground (arith, b.parked t)

  dispatch-ready_count : (t : ℕ) → count t dispatched.ready_list ≡ one_if (is_queued dispatched t)
  unfolding dispatched
  dispatch-ready_count t = ground (arith, n.popped t)

  dispatch-one_runs :
      (t : ℕ)
      → is_thread dispatched t ≡ true
      → is_running (dispatched.thread t).status ≡ true
      → t ≡ dispatched.running_thread
  unfolding dispatched
  dispatch-one_runs t h r = ground (arith, none_runs t)

  pub dispatch-Inv : Inv dispatched
  unfolding dispatched
  dispatch-Inv = record {
    base = record {
      wait_count = dispatch-wait_count;
      all_count = dispatch-all_count;
      sleeps = dispatch-sleeps;
      parked = dispatch-parked;
      idle_lives = ground (arith, b.idle_lives, n.lives);
      idle_waits_not = ground (arith, b.idle_waits_not);
      idle_sleeps_not = ground (arith, b.idle_sleeps_not);
    };
    ready_count = dispatch-ready_count;
    current_lives = ground (arith, n.lives);
    current_runs = ground (arith, n.lives);
    one_runs = dispatch-one_runs;
  }

ready_head :
    (k : Kernel) (t : ℕ) (l : List ℕ)
    → ((u : ℕ) → count u k.ready_list ≡ one_if (is_queued k u))
    → k.ready_list ≡ t ∷ l
    → (is_queued k t ≡ true) × ((u : ℕ) → count u l ≡ one_if (is_queued k u && not (t == u)))
ready_head k t l h e = (ground (arith, h t, count_head), rest)
  where
    counts : (u : ℕ) → count u (t ∷ l) ≡ one_if (is_queued k u)
    counts u = subst (λ m. count u m ≡ one_if (is_queued k u)) e (h u)

    count_head : is_queued k t ≡ true
    count_head = ground (arith, counts t)

    rest : (u : ℕ) → count u l ≡ one_if (is_queued k u && not (t == u))
    rest u = ground (arith, counts u)

pub switch_to_lem :
    (k : Kernel) (cur next : ℕ)
    → cur ≡ k.running_thread
    → k.intr_on ≡ false
    → is_running (k.thread cur).status ≡ false
    → is_live k next ≡ true
    → (is_dying (k.thread cur).status ≡ true → can_free k cur ≡ true)
    → switch_to cur next k ≡ some (dispatch cur next k)
unfolding switch_to thread_schedule_tail free_thread
switch_to_lem k cur next c off halted lives leaves = ground arith

-- Something ran before: a live thread that the current one is not mistaken for.
pub ready-IsNext :
    (k : Kernel) (t : ℕ) (l : List ℕ)
    → Parked k
    → ((u : ℕ) → count u k.ready_list ≡ one_if (is_queued k u))
    → k.ready_list ≡ t ∷ l
    → IsNext k t l
ready-IsNext k t l b h e =
    let (q, p) = ready_head k t l h e in
    record {
      popped = p;
      lives = ground (arith, q);
      awake = ground (arith, b.sleeps t);
      still = ground (arith, q);
    }

pub idle-IsNext :
    (k : Kernel)
    → Parked k
    → ((u : ℕ) → count u k.ready_list ≡ one_if (is_queued k u))
    → k.ready_list ≡ []
    → IsNext k k.idle_thread []
idle-IsNext k b h e = record {
  popped = λ u.
      let z : 0 ≡ one_if (is_queued k u) =
        subst (λ m. count u m ≡ one_if (is_queued k u)) e (h u) in
      ground arith;
  lives = b.idle_lives;
  awake = b.idle_sleeps_not;
  still = b.idle_waits_not;
}
