-- ===== src/IntQueue.antt =====
-- The circular queue between threads and interrupt handlers, devices/intq.c of
-- OS-lab2-master/pintos/src. An operation that has to wait is cut where its thread may switch: it
-- first asks for the queue's lock, then waits, then gives the lock back and tests again.
pub mod Fifo
pub mod Calls
use tony_henry_niklas.Threads.{Kernel, Frame}
use tony_henry_niklas.Threads.Switch.{thread_current}
use tony_henry_niklas.Threads.Life.{thread_block, thread_unblock}
use tony_henry_niklas.Synch.{lock_init, lock_acquire, lock_release}
use tony_henry_niklas.Common.{
  ℕ, zero, suc, ◌+◌, ◌-◌, ◌*◌, ◌/◌, ◌%◌, ◌^◌, ◌≤◌, ◌<◌, ◌≡◌, refl, sym, ap, ◌∙◌, ◌≢◌, ◌↔◌, ◌⊎◌, inl,
  inr, Bool, true, false, ◌&&◌, ◌||◌, not, List, [], ◌∷◌, ◌++◌, map, Option, none, some, arith, ltb,
  leb, ◌==◌, check, if◌then◌else◌, length, get_elem?, set, ◌>>=◌, Bool-cases, Option-cases, subst,
  fun_ext, ltb→lt, leb→le, lt→ltb, ==_iff, take, drop, replicate, length-set, get_elem?-set_self,
  get_elem?-set_ne, length-append, get_or,
}

abbrev pub intq_bufsize : ℕ
intq_bufsize = 64

-- `struct intq`, with its lock by the address; a waiting thread goes by its address, 0 is NULL.
pub record IntQueue : Type 0 where
  pub lock : ℕ
  pub not_full : ℕ
  pub not_empty : ℕ
  pub buf : List ℕ
  pub head : ℕ
  pub tail : ℕ

-- What the calls change.
abbrev pub State : Type 0
State = IntQueue × Kernel

unfoldable pub next : ℕ → ℕ
next position = (position + 1) % intq_bufsize

unfoldable pub intq_init : State → Option State
intq_init (q, k) = lock_init q.lock k >>= λ k'.
    some (record q { not_full = 0; not_empty = 0; head = 0; tail = 0 }, k')

unfoldable pub intq_empty : State → Option Bool
intq_empty (q, k) = check (not k.intr_on) (some (q.head == q.tail))

unfoldable pub intq_full : State → Option Bool
unfolding next
intq_full (q, k) = check (not k.intr_on) (some (next q.head == q.tail))

-- `*waiter` for the two members that a call may name.
pub data Waiter : Type 0 where
  for_space for_byte : Waiter

unfoldable pub waiter_of : Waiter → IntQueue → ℕ
waiter_of Waiter.for_space q = q.not_full
waiter_of Waiter.for_byte q = q.not_empty

unfoldable pub with_waiter : Waiter → ℕ → IntQueue → IntQueue
with_waiter Waiter.for_space t q = record q { not_full = t }
with_waiter Waiter.for_byte t q = record q { not_empty = t }

-- The condition that the member stands for: there is a byte, or there is space.
unfoldable pub condition : Waiter → State → Option Bool
condition Waiter.for_space s = intq_full s >>= λ full. some (not full)
condition Waiter.for_byte s = intq_empty s >>= λ empty. some (not empty)

-- Ends with the next thread running; this one goes on with `retry`.
unfoldable pub wait : Waiter → State → Option State
wait w (q, k) = check (not k.intr_context) (
    check (not k.intr_on) (
      condition w (q, k) >>= λ holds. check (not holds) (
        thread_current k >>= λ cur.
        thread_block (Frame.set_level false) k >>= λ k'. some (with_waiter w cur q, k'))))

unfoldable pub signal : Waiter → State → Option State
signal w (q, k) = check (not k.intr_on) (
    condition w (q, k) >>= λ holds. check holds (
      if waiter_of w q == 0
      then some (q, k)
      else (thread_unblock (waiter_of w q) k >>= λ k'. some (with_waiter w 0 q, k'))))

-- Where a call stands after one test of its loop: it has its result, or it asked for the lock.
pub data Progress : Type 0 where
  finished : (byte : ℕ) → State → Progress
  locking : State → Progress

-- The start of a round in which the loop's condition holds.
unfoldable pub ask : State → Option Progress
ask (q, k) =
    check (not k.intr_context) (lock_acquire q.lock k >>= λ k'. some (Progress.locking (q, k')))

unfoldable pub take_byte : State → Option Progress
unfolding next
take_byte (q, k) = get_elem? q.buf q.tail >>= λ byte.
    signal Waiter.for_space (record q { tail = next q.tail }, k) >>= λ s.
    some (Progress.finished byte s)

unfoldable pub intq_getc : State → Option Progress
intq_getc s =
    check (not (s.1).intr_on) (intq_empty s >>= λ empty. if empty then ask s else take_byte s)

-- `buf` is an array of bytes.
unfoldable pub put_byte : ℕ → State → Option Progress
unfolding next
put_byte byte (q, k) = check (ltb q.head (length q.buf)) (
    signal Waiter.for_byte (record q { buf = set q.buf q.head (byte % 256); head = next q.head }, k)
    >>= λ s. some (Progress.finished byte s))

unfoldable pub intq_putc : ℕ → State → Option Progress
intq_putc byte s =
    check (not (s.1).intr_on) (intq_full s >>= λ full. if full then ask s else put_byte byte s)

-- After the wait: `lock_release (&q->lock)` and the next test of the loop.
unfoldable pub getc_retry : State → Option Progress
getc_retry (q, k) = lock_release q.lock k >>= λ k'. intq_getc (q, k')

unfoldable pub putc_retry : ℕ → State → Option Progress
putc_retry byte (q, k) = lock_release q.lock k >>= λ k'. intq_putc byte (q, k')
