-- ===== src/IntQueue/Calls.antt =====
-- intq_putc and intq_getc of devices/intq.c as the two ends of a first-in first-out queue.
use tony_henry_niklas.Threads.{Kernel}
use tony_henry_niklas.IntQueue.{
  IntQueue, Waiter, Progress, next, intq_empty, intq_full, condition, signal, ask, take_byte,
  put_byte, intq_getc, intq_putc, waiter_of, with_waiter,
}
use tony_henry_niklas.IntQueue.Fifo.{
  IsValid, contents, byte_at, used, CanWake, woken, put, taken, signal_lem, put-contents,
  taken-contents, get_elem?-get_or, length-read_from, intq_empty-intq_full,
}
use tony_henry_niklas.Common.{
  ℕ, ◌+◌, ◌%◌, ◌<◌, ◌≡◌, refl, ap, ◌∙◌, inl, inr, true, false, not, [], ◌∷◌, ◌++◌, some, arith, ltb,
  ◌==◌, passes, and_then, if◌then◌else◌, length, set, ◌>>=◌, Bool-cases, lt→ltb, ==_iff, length-set,
}

-- A waiter that is NULL is as good as reset.
cleared :
    (w : Waiter) (q : IntQueue)
    → (if waiter_of w q == 0 then q else with_waiter w 0 q) ≡ with_waiter w 0 q
unfolding waiter_of with_waiter
cleared Waiter.for_space q = elim (Bool-cases (q.not_full == 0)) [
  | inl e ↦ rw e (ap (λ t. record q { not_full = t }) ((==_iff q.not_full 0).0 e))
  | inr e ↦ rw e refl
]
cleared Waiter.for_byte q = elim (Bool-cases (q.not_empty == 0)) [
  | inl e ↦ rw e (ap (λ t. record q { not_empty = t }) ((==_iff q.not_empty 0).0 e))
  | inr e ↦ rw e refl
]

signals :
    (w : Waiter) (q : IntQueue) (k : Kernel)
    → k.intr_on ≡ false
    → condition w (q, k) ≡ some true
    → CanWake (waiter_of w q) k
    → signal w (q, k) ≡ some (with_waiter w 0 q, woken (waiter_of w q) k)
signals w q k off c h =
    signal_lem w q k off c h ∙ ap (λ r. some (r, woken (waiter_of w q) k)) (cleared w q)

-- After the put there is a byte; after the take there is space.
abbrev advanced : ℕ → IntQueue → IntQueue
advanced byte q = record q { buf = set q.buf q.head byte; head = (q.head + 1) % 64 }

abbrev retreated : IntQueue → IntQueue
retreated q = record q { tail = (q.tail + 1) % 64 }

has_byte :
    (q : IntQueue) (k : Kernel) (byte : ℕ)
    → IsValid q
    → k.intr_on ≡ false
    → length (contents q) < 63
    → condition Waiter.for_byte (advanced byte q, k) ≡ some true
unfolding condition intq_empty
has_byte q k byte v off room =
    let h = v.head_in in
    let t = v.tail_in in
    let l = length-read_from (used q) q.tail q.buf in
    let apart : ((q.head + 1) % 64 == q.tail) ≡ false = ground arith in rw (off, apart) refl

has_space :
    (q : IntQueue) (k : Kernel)
    → IsValid q
    → k.intr_on ≡ false
    → 0 < length (contents q)
    → condition Waiter.for_space (retreated q, k) ≡ some true
unfolding condition intq_full next
has_space q k v off room =
    let h = v.head_in in
    let t = v.tail_in in
    let l = length-read_from (used q) q.tail q.buf in
    let apart : ((q.head + 1) % 64 == (q.tail + 1) % 64) ≡ false = ground arith in
    rw (off, apart) refl

put-IsValid : (q : IntQueue) (byte : ℕ) → IsValid q → IsValid (put byte q)
put-IsValid q byte v = record {
  head_in = omega arith;
  tail_in = v.tail_in;
  size = length-set q.buf q.head byte ∙ v.size;
}

taken-IsValid : (q : IntQueue) → IsValid q → IsValid (taken q)
taken-IsValid q v = record { head_in = v.head_in; tail_in = omega arith; size = v.size }

put_byte_lem :
    (q : IntQueue) (k : Kernel) (byte : ℕ)
    → IsValid q
    → byte < 256
    → k.intr_on ≡ false
    → length (contents q) < 63
    → CanWake q.not_empty k
    → put_byte byte (q, k) ≡ some (Progress.finished byte (put byte q, woken q.not_empty k))
unfolding put_byte next waiter_of with_waiter
put_byte_lem q k byte v small off room h =
    let inside : ltb q.head (length q.buf) ≡ true = lt→ltb _ _ (omega (arith, v.head_in, v.size)) in
    let as_is : byte % 256 ≡ byte = omega arith in
    passes inside
    ∙ ap (λ b. signal Waiter.for_byte (advanced b q, k) >>= λ s. some (Progress.finished byte s))
        as_is
    ∙ and_then (λ s. some (Progress.finished byte s))
        (signals Waiter.for_byte (advanced byte q) k off (has_byte q k byte v off room) h)

take_byte_lem :
    (q : IntQueue) (k : Kernel)
    → IsValid q
    → k.intr_on ≡ false
    → 0 < length (contents q)
    → CanWake q.not_full k
    → take_byte (q, k)
      ≡ some (Progress.finished (byte_at q.buf q.tail) (taken q, woken q.not_full k))
unfolding take_byte next waiter_of with_waiter
take_byte_lem q k v off room h =
    let inside = get_elem?-get_or q.buf q.tail 0 (omega (arith, v.tail_in, v.size)) in
    and_then
      (λ byte. signal Waiter.for_space (retreated q, k) >>= λ s. some (Progress.finished byte s))
      inside
    ∙ and_then (λ s. some (Progress.finished (byte_at q.buf q.tail) s))
        (signals Waiter.for_space (retreated q) k off (has_space q k v off room) h)

-- intq_putc on a queue of fewer than 63 bytes, with interrupts off, puts the byte behind the
-- others and wakes the thread that waits for a byte, if the queue remembers one (which must be
-- blocked).
pub intq_putc_lem :
    (q : IntQueue) (k : Kernel) (byte : ℕ)
    → IsValid q
    → byte < 256
    → k.intr_on ≡ false
    → length (contents q) < 63
    → CanWake q.not_empty k
    → (q' : IntQueue) × (intq_putc byte (q, k)
        ≡ some (Progress.finished byte (q', woken q.not_empty k)))
      × IsValid q'
      × (contents q' ≡ contents q ++ (byte ∷ []))
      × (q'.not_empty ≡ 0)
unfolding intq_putc
intq_putc_lem q k byte v small off room h =
    let (e, f, l) = intq_empty-intq_full q k v off in
    let space : (length (contents q) == 63) ≡ false = ground arith in
    let level : not k.intr_on ≡ true = ap not off in
    let go =
      passes level
      ∙ and_then (λ full. if full then ask (q, k) else put_byte byte (q, k)) (f ∙ ap some space)
      ∙ put_byte_lem q k byte v small off room h in
    (put byte q, go, put-IsValid q byte v, put-contents q byte v room, refl)

-- intq_getc on a queue that holds a byte, with interrupts off, returns the byte that was put
-- first, takes it off the contents, and wakes the thread that waits for space, if the queue
-- remembers one (which must be blocked).
pub intq_getc_lem :
    (q : IntQueue) (k : Kernel)
    → IsValid q
    → k.intr_on ≡ false
    → 0 < length (contents q)
    → CanWake q.not_full k
    → (byte : ℕ) × (q' : IntQueue) × (intq_getc (q, k)
        ≡ some (Progress.finished byte (q', woken q.not_full k)))
      × IsValid q'
      × (contents q ≡ byte ∷ contents q')
      × (q'.not_full ≡ 0)
unfolding intq_getc
intq_getc_lem q k v off room h =
    let (e, f, l) = intq_empty-intq_full q k v off in
    let held : (length (contents q) == 0) ≡ false = ground arith in
    let level : not k.intr_on ≡ true = ap not off in
    let go =
      passes level
      ∙ and_then (λ empty. if empty then ask (q, k) else take_byte (q, k)) (e ∙ ap some held)
      ∙ take_byte_lem q k v off room h in
    (byte_at q.buf q.tail, taken q, go, taken-IsValid q v, taken-contents q v room, refl)
