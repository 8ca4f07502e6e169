-- ===== src/IntQueue/Fifo.antt =====
-- What the queue of devices/intq.c holds, in order.
use tony_henry_niklas.Threads.{Status, Kernel, with_status, is_blocked}
use tony_henry_niklas.Threads.Switch.{is_thread}
use tony_henry_niklas.Threads.Life.{push_ready, thread_unblock}
use tony_henry_niklas.Synch.Up.{thread_unblock_lem}
use tony_henry_niklas.IntQueue.{
  IntQueue, State, Waiter, next, intq_empty, intq_full, condition, signal, waiter_of, with_waiter,
}
use tony_henry_niklas.Common.{
  ℕ, zero, suc, ◌+◌, ◌-◌, ◌%◌, ◌≤◌, ◌<◌, ◌≡◌, refl, sym, ap, ◌∙◌, ◌≢◌, inl, inr, Bool, true, false,
  not, List, [], ◌∷◌, ◌++◌, Option, some, arith, ◌==◌, check, if◌then◌else◌, length, get_elem?, set,
  ◌>>=◌, Bool-cases, ==_iff, get_or,
}

pub record IsValid (q : IntQueue) : Type 0 where
  pub head_in : q.head < 64
  pub tail_in : q.tail < 64
  pub size : length q.buf ≡ 64

abbrev pub byte_at : List ℕ → ℕ → ℕ
byte_at buf i = get_or buf i 0

abbrev pub read_from : ℕ → ℕ → List ℕ → List ℕ
read_from zero i buf = []
read_from (suc n) i buf = byte_at buf i ∷ read_from n ((i + 1) % 64) buf

abbrev pub used : IntQueue → ℕ
used q = (q.head + 64 - q.tail) % 64

-- The bytes from the tail up to the head.
abbrev pub contents : IntQueue → List ℕ
contents q = read_from (used q) q.tail q.buf

read_from-snoc :
    (n i : ℕ) (buf : List ℕ)
    → i < 64
    → read_from (suc n) i buf ≡ read_from n i buf ++ (byte_at buf ((i + n) % 64) ∷ [])
read_from-snoc zero i buf h =
    let e : (i + 0) % 64 ≡ i = omega arith in ap (λ j. byte_at buf j ∷ []) (sym e)
read_from-snoc (suc n) i buf h =
    let e : ((i + 1) % 64 + n) % 64 ≡ (i + suc n) % 64 = omega arith in
    ap (λ l. byte_at buf i ∷ l)
      (read_from-snoc n ((i + 1) % 64) buf (omega arith)
        ∙ ap (λ j. read_from n ((i + 1) % 64) buf ++ (byte_at buf j ∷ [])) e)

get_or-set_ne : (l : List ℕ) (i j v d : ℕ) → i ≢ j → get_or (set l i v) j d ≡ get_or l j d
get_or-set_ne [] i j v d h = refl
get_or-set_ne (x ∷ l) zero zero v d h = absurd (h refl)
get_or-set_ne (x ∷ l) zero (suc j) v d h = refl
get_or-set_ne (x ∷ l) (suc i) zero v d h = refl
get_or-set_ne (x ∷ l) (suc i) (suc j) v d h = get_or-set_ne l i j v d (λ e. h (omega arith))

get_or-set_self : (l : List ℕ) (i v d : ℕ) → i < length l → get_or (set l i v) i d ≡ v
get_or-set_self [] i v d h = absurd (omega arith)
get_or-set_self (x ∷ l) zero v d h = refl
get_or-set_self (x ∷ l) (suc i) v d h = get_or-set_self l i v d (omega arith)

pub get_elem?-get_or : (l : List ℕ) (i d : ℕ) → i < length l → get_elem? l i ≡ some (get_or l i d)
get_elem?-get_or [] i d h = absurd (omega arith)
get_elem?-get_or (x ∷ l) zero d h = refl
get_elem?-get_or (x ∷ l) (suc i) d h = get_elem?-get_or l i d (omega arith)

-- A byte outside the part that is read does not matter.
read_from-set :
    (n i at v : ℕ) (buf : List ℕ)
    → i < 64
    → ((j : ℕ) → j < n → (i + j) % 64 ≢ at)
    → read_from n i (set buf at v) ≡ read_from n i buf
read_from-set zero i at v buf h ne = refl
read_from-set (suc n) i at v buf h ne =
    let rest =
      read_from-set n ((i + 1) % 64) at v buf (omega arith)
        (λ j l e. ne (suc j) (omega arith) (omega arith)) in
    let e : (i + 0) % 64 ≡ i = omega arith in
    let first : byte_at (set buf at v) i ≡ byte_at buf i =
      get_or-set_ne buf at i v 0 (λ x. ne 0 (omega arith) (e ∙ sym x)) in
    rw (first, rest) refl

pub length-read_from : (n i : ℕ) (buf : List ℕ) → length (read_from n i buf) ≡ n
length-read_from zero i buf = refl
length-read_from (suc n) i buf = ap suc (length-read_from n ((i + 1) % 64) buf)

-- With interrupts off, intq_empty tells whether the queue holds no byte, and intq_full whether
-- it holds 63, which is the most it ever holds.
pub intq_empty-intq_full :
    (q : IntQueue) (k : Kernel)
    → IsValid q
    → k.intr_on ≡ false
    → (intq_empty (q, k) ≡ some (length (contents q) == 0))
      × (intq_full (q, k) ≡ some (length (contents q) == 63))
      × (length (contents q) ≤ 63)
unfolding intq_empty intq_full next
intq_empty-intq_full q k v off =
    let l = length-read_from (used q) q.tail q.buf in
    let h = v.head_in in
    let t = v.tail_in in
    let empty : (q.head == q.tail) ≡ (used q == 0) = ground arith in
    let full : ((q.head + 1) % 64 == q.tail) ≡ (used q == 63) = ground arith in
    (rw (off, l, empty) refl, rw (off, l, full) refl, omega arith)

-- A thread that the queue remembers is blocked.
abbrev pub CanWake : ℕ → Kernel → Type 0
CanWake t k = t ≢ 0 → (is_thread k t ≡ true) × (is_blocked (k.thread t).status ≡ true)

-- That thread ready, behind the ready list.
abbrev pub woken : ℕ → Kernel → Kernel
woken t k = if t == 0 then k else with_status (push_ready k t) t Status.ready

-- The shape of `signal`, apart from what its parts compute to.
signal_shape :
    (q q0 : IntQueue) (k w : Kernel) (level : Bool) (c : Option Bool) (t : ℕ) (u : Option Kernel)
    → level ≡ false
    → c ≡ some true
    → ((t == 0) ≡ false → u ≡ some w)
    → check {A = State}
        (not level)
        (c >>= λ holds. check holds (if t == 0 then some (q, k) else (u >>= λ k'. some (q0, k'))))
      ≡ some ((if t == 0 then q else q0), if t == 0 then k else w)
signal_shape q q0 k w level c t u off e f = elim (Bool-cases (t == 0)) [
  | inl z ↦ rw (off, e, z) refl
  | inr z ↦ rw (off, e, z, f z) refl
]

pub signal_lem :
    (w : Waiter) (q : IntQueue) (k : Kernel)
    → k.intr_on ≡ false
    → condition w (q, k) ≡ some true
    → CanWake (waiter_of w q) k
    → signal w (q, k)
      ≡ some ((if waiter_of w q == 0 then q else with_waiter w 0 q), woken (waiter_of w q) k)
unfolding signal
signal_lem w q k off c h =
    let wake : (waiter_of w q == 0) ≡ false
        → thread_unblock (waiter_of w q) k
          ≡ some (with_status (push_ready k (waiter_of w q)) (waiter_of w q) Status.ready) =
      λ z.
        let (i, b) = h (λ e. cc ((==_iff (waiter_of w q) 0).1 e)) in
        thread_unblock_lem k (waiter_of w q) (λ p. cc) i b in
    signal_shape q (with_waiter w 0 q) k _ k.intr_on (condition w (q, k)) (waiter_of w q)
      (thread_unblock (waiter_of w q) k) off c wake

-- What putting a byte makes of the queue.
abbrev pub put : ℕ → IntQueue → IntQueue
put byte q = record q { buf = set q.buf q.head byte; head = (q.head + 1) % 64; not_empty = 0 }

-- What taking a byte makes of it.
abbrev pub taken : IntQueue → IntQueue
taken q = record q { tail = (q.tail + 1) % 64; not_full = 0 }

pub put-contents :
    (q : IntQueue) (byte : ℕ)
    → IsValid q
    → length (contents q) < 63
    → contents (put byte q) ≡ contents q ++ (byte ∷ [])
put-contents q byte v room =
    let h = v.head_in in
    let t = v.tail_in in
    let z = v.size in
    let l = length-read_from (used q) q.tail q.buf in
    let more : used (put byte q) ≡ suc (used q) = omega arith in
    let stop : (q.tail + used q) % 64 ≡ q.head = omega arith in
    let before =
      read_from-set (used q) q.tail q.head byte q.buf t (λ j l' e. absurd (omega arith)) in
    let last : byte_at (set q.buf q.head byte) ((q.tail + used q) % 64) ≡ byte =
      ap (byte_at (set q.buf q.head byte)) stop
      ∙ get_or-set_self q.buf q.head byte 0 (omega arith) in
    ap (λ n. read_from n q.tail (set q.buf q.head byte)) more
    ∙ read_from-snoc (used q) q.tail (set q.buf q.head byte) t
    ∙ ap (λ s. s ++ (byte_at (set q.buf q.head byte) ((q.tail + used q) % 64) ∷ [])) before
    ∙ ap (λ b. contents q ++ (b ∷ [])) last

pub taken-contents :
    (q : IntQueue)
    → IsValid q
    → 0 < length (contents q)
    → contents q ≡ byte_at q.buf q.tail ∷ contents (taken q)
taken-contents q v some_byte =
    let h = v.head_in in
    let t = v.tail_in in
    let l = length-read_from (used q) q.tail q.buf in
    let less : used q ≡ suc (used (taken q)) = omega arith in
    ap (λ n. read_from n q.tail q.buf) less
