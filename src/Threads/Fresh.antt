-- ===== src/Threads/Fresh.antt =====
-- A new thread of threads/thread.c: what init_thread leaves, and the invariant with it.
use Prim.Native.Nat.{min}
use tony_henry_niklas.Strings.Order.{NoNul, c_string}
use tony_henry_niklas.Strings.Copy.{strlcpy_lem}
use tony_henry_niklas.Threads.{Status, Kernel, Thread, Frame, thread_magic, update}
use tony_henry_niklas.Threads.Switch.{is_thread}
use tony_henry_niklas.Threads.Life.{init_thread, page_size, pri_max}
use tony_henry_niklas.Threads.Invariant.{Inv}
use tony_henry_niklas.Threads.Steps.{count-append}
use tony_henry_niklas.Common.{
  ℕ, suc, ◌+◌, ◌-◌, ◌≤◌, ◌≡◌, ◌≢◌, true, false, ◌&&◌, not, List, [], ◌∷◌, ◌++◌, some, arith, leb,
  ◌==◌, length, take, drop, replicate, false,
}

-- The first 15 bytes of the name, ended by a null byte, in 16 bytes.
abbrev pub short_name : List ℕ → List ℕ
short_name s = take (min (length s) 15) s ++ (0 ∷ drop (suc (min (length s) 15)) (replicate 16 0))

abbrev pub new_thread : ℕ → List ℕ → ℕ → ℕ → Thread
new_thread page name priority tid = record {
  tid = tid;
  status = Status.ready;
  wakeup_time = 0;
  name = short_name name;
  stack = page + page_size - 12 - 4 - 28;
  priority = priority;
  magic = thread_magic;
}

abbrev pub created : ℕ → List ℕ → ℕ → Kernel → Kernel
created page name priority k = record k {
  thread = update k.thread page (new_thread page name priority k.next_tid);
  frame = update k.frame page Frame.start;
  all_list = k.all_list ++ (page ∷ []);
  ready_list = k.ready_list ++ (page ∷ []);
  next_tid = k.next_tid + 1;
}

module _ (page : ℕ) (name : List ℕ) (priority : ℕ) (k : Kernel) (v : Inv k)
    (fresh : is_thread k page ≡ false) (given : page ≢ 0) where
  pub created-Inv : Inv (created page name priority k)
  created-Inv = record {
    base = record {
      wait_count = λ s u. ground (arith, v.base.wait_count s u);
      all_count = λ u. ground (arith, v.base.all_count u, count-append u k.all_list (page ∷ []));
      sleeps = λ u h w. ground (arith, v.base.sleeps u);
      parked = λ u h w. ground (arith, v.base.parked u);
      idle_lives = ground (arith, v.base.idle_lives);
      idle_waits_not = ground (arith, v.base.idle_waits_not, v.base.idle_lives);
      idle_sleeps_not = ground (arith, v.base.idle_sleeps_not);
    };
    ready_count = λ u.
        ground (arith, v.ready_count u, count-append u k.ready_list (page ∷ []), v.base.idle_lives);
    current_lives = ground (arith, v.current_lives);
    current_runs = ground (arith, v.current_lives, v.current_runs);
    one_runs = λ u h r. ground (arith, v.one_runs u);
  }

-- What `init_thread` leaves.
abbrev pub initialised : ℕ → List ℕ → ℕ → Kernel → Kernel
initialised page name priority k = record k {
  thread = update k.thread page (record {
    tid = 0;
    status = Status.blocked;
    wakeup_time = 0;
    name = short_name name;
    stack = page + page_size;
    priority = priority;
    magic = thread_magic;
  });
  all_list = k.all_list ++ (page ∷ []);
}

pub init_thread_lem :
    (page : ℕ) (name rest : List ℕ) (priority : ℕ) (k : Kernel)
    → page ≢ 0
    → NoNul name
    → priority ≤ pri_max
    → init_thread page (c_string name rest) priority k ≡ some (initialised page name priority k)
unfolding init_thread
init_thread_lem page name rest priority k given h p =
    let ok : (not (page == 0) && leb priority pri_max) ≡ true = ground arith in
    rw (ok, strlcpy_lem (replicate 16 0) name rest 16 h (omega arith))
