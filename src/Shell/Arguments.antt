-- ===== src/Shell/Arguments.antt =====
-- acmd of code/parse.c collects the arguments of one program, up to a special token.
use tony_henry_niklas.Shell.Reading.{
  used_le, length-ended_le, drop-c_string, NoNul-drop, special_alone, Read, nexttoken_total,
}
use tony_henry_niklas.Strings.Order.{NoNul, c_string}
use tony_henry_niklas.Strings.Copy.{length-drop}
use tony_henry_niklas.Shell.{
  Program, Parser, push, acmd_round, acmd_loop, with_program, acmd, is_special,
}
use tony_henry_niklas.Shell.Bytes.{first_token, spaces, ended, used}
use tony_henry_niklas.Common.{
  ℕ, zero, suc, ◌+◌, ◌*◌, ◌≤◌, ◌<◌, ◌≡◌, refl, sym, ap, ◌∙◌, ◌⊎◌, inl, inr, true, false, List, [],
  ◌∷◌, Option, none, some, arith, ◌==◌, passes, and_then, chosen, passed_over, if◌then◌else◌,
  length, get_elem?, set, ◌>>=◌, Bool-cases, subst, lt→ltb, ==_iff, drop, length-set,
  get_elem?-set_self, length-append,
}

push_lem :
    (p : Option ℕ) (st : Parser)
    → st.pp < length st.pbuf
    → push p st ≡ some (record st { pbuf = set st.pbuf st.pp p; pp = st.pp + 1 })
unfolding push
push_lem p st h = passes (lt→ltb _ _ h)

-- The text begins, but for white space, with a special character, or is blank.
abbrev pub AtEnd : List ℕ → Type 0
AtEnd t = (first_token t ≡ []) ⊎ ((c : ℕ) × (first_token t ≡ c ∷ []) × (is_special c ≡ true))

-- What `acmd` leaves, when it has used up `n` characters.
pub record Collected (t : List ℕ) (st st' : Parser) (n : ℕ) : Type 0 where
  pub within : n ≤ length t
  pub stops : AtEnd (drop n t)
  pub size : length st'.cbuf ≡ length st.cbuf
  pub entries : length st'.pbuf ≡ length st.pbuf
  pub pointer : st'.cp ≤ st.cp + 2 * n + 2
  pub entry : st'.pp ≤ st.pp + n + 1
  pub ended_list : (k : ℕ) × (suc k ≡ st'.pp) × (get_elem? st'.pbuf k ≡ some none)

abbrev Collects : List ℕ → ℕ → Parser → Option (ℕ × Parser) → Type 0
Collects t cnt st o = (n : ℕ) × (st' : Parser) × (o ≡ some (cnt + n, st')) × Collected t st st' n

-- The round that finds no further argument.
finishes :
    (t : List ℕ) (cnt : ℕ) (st st1 : Parser) (n : ℕ)
    → Read t st st1 n
    → AtEnd t
    → length (ended (first_token t)) ≤ 2
    → st.pp < length st.pbuf
    → Collects t cnt st (push none st1 >>= λ st2. some (cnt, st2))
finishes t cnt st st1 n r stop short room =
    let (entries, place) = r.others in
    let room' : st1.pp < length st1.pbuf = omega (arith, ap length entries) in
    let size = length-set st1.pbuf st1.pp none in
    let cnt' : cnt ≡ cnt + 0 = omega arith in
    let moved = r.pointer in
    let st2 = record st1 { pbuf = set st1.pbuf st1.pp none; pp = st1.pp + 1 } in
    (
      0,
      st2,
      and_then (λ st2. some (cnt, st2)) (push_lem none st1 room') ∙ ap (λ k. some (k, st2)) cnt',
      record {
        within = omega arith;
        stops = stop;
        size = r.size;
        entries = size ∙ ap length entries;
        pointer = omega arith;
        entry = omega arith;
        ended_list = (st1.pp, omega arith, get_elem?-set_self st1.pbuf st1.pp none room');
      },
    )

drop_nil : (n : ℕ) → drop {A = ℕ} n [] ≡ []
drop_nil zero = refl
drop_nil (suc n) = refl

drop-drop_add : (n m : ℕ) (t : List ℕ) → drop m (drop n t) ≡ drop (n + m) t
drop-drop_add zero m t = let e : m ≡ 0 + m = omega arith in ap (λ k. drop k t) e
drop-drop_add (suc n) m [] = drop_nil m ∙ sym (drop_nil (suc n + m))
drop-drop_add (suc n) m (x ∷ t) =
    let e : suc n + m ≡ suc (n + m) = omega arith in
    drop-drop_add n m t ∙ ap (λ k. drop k (x ∷ t)) (sym e)

-- A round that takes an argument, and the rest.
goes_on :
    (t : List ℕ) (cnt tok : ℕ) (st st1 : Parser) (n : ℕ) (go : Parser → Option (ℕ × Parser))
    → Read t st st1 n
    → 0 < n
    → st.pp < length st.pbuf
    → ((st2 : Parser)
        → length st2.cbuf ≡ length st.cbuf
        → length st2.pbuf ≡ length st.pbuf
        → st2.cp ≤ st.cp + 2 * n
        → st2.pp ≤ st.pp + n
        → Collects (drop n t) (cnt + n) st2 (go st2))
    → Collects t cnt st (push (some tok) st1 >>= go)
goes_on t cnt tok st st1 n go r some_n room rest =
    let (entries, place) = r.others in
    let room' : st1.pp < length st1.pbuf = omega (arith, ap length entries) in
    let st2 = record st1 { pbuf = set st1.pbuf st1.pp (some tok); pp = st1.pp + 1 } in
    let size = length-set st1.pbuf st1.pp (some tok) in
    let moved = r.pointer in
    let taken = r.consumed in
    let few = used_le t in
    let short = length-ended_le t (first_token t) in
    let (m, st3, e, c) = rest st2 r.size (size ∙ ap length entries) (omega arith) (omega arith) in
    let total : cnt + n + m ≡ cnt + (n + m) = omega arith in
    let shorter = length-drop n t in
    (
      n + m,
      st3,
      and_then go (push_lem (some tok) st1 room') ∙ e ∙ ap (λ k. some (k, st3)) total,
      record {
        within = omega (arith, c.within);
        stops = subst AtEnd (drop-drop_add n m t) c.stops;
        size = c.size ∙ r.size;
        entries = c.entries ∙ size ∙ ap length entries;
        pointer = omega (arith, c.pointer);
        entry = omega (arith, c.entry);
        ended_list = c.ended_list;
      },
    )

round_lem :
    (t : List ℕ) (cnt : ℕ) (st st1 : Parser) (n : ℕ) (tok : List ℕ)
    → Read t st st1 n
    → first_token t ≡ tok
    → st.pp < length st.pbuf
    → (go : Parser → Option (ℕ × Parser))
    → ((st2 : Parser)
        → length st2.cbuf ≡ length st.cbuf
        → length st2.pbuf ≡ length st.pbuf
        → st2.cp ≤ st.cp + 2 * n
        → st2.pp ≤ st.pp + n
        → 0 < n
        → Collects (drop n t) (cnt + n) st2 (go st2))
    → Collects t cnt st (acmd_round cnt (n, st.cp, st1) go)
unfolding acmd_round used ended
round_lem t cnt st st1 n [] r same room go rest =
    let none_used : n ≡ 0 = r.consumed ∙ ap (used t) same in
    let z : (n == 0) ≡ true = (==_iff n 0).1 none_used in
    let short : length (ended (first_token t)) ≤ 2 =
      omega (arith, ap (λ k. length (ended k)) same) in
    subst (Collects t cnt st) (sym (chosen _ z)) (finishes t cnt st st1 n r (inl same) short room)
round_lem t cnt st st1 n (c ∷ s) r same room go rest =
    let some_used : n ≡ spaces t + suc (length s) = r.consumed ∙ ap (used t) same in
    let z : (n == 0) ≡ false = ground arith in
    let positive : 0 < n = omega arith in
    let finish : Option (ℕ × Parser) = push none st1 >>= λ st2. some (cnt, st2) in
    let next : Option (ℕ × Parser) = push (some st.cp) st1 >>= go in
    let choice : acmd_round cnt (n, st.cp, st1) go ≡ (if is_special c then finish else next) =
      passed_over finish z
      ∙ and_then (λ d. if is_special d then finish else next) (r.first c s same) in
    elim (Bool-cases (is_special c)) [
      | inl sp ↦
          let alone = special_alone t same sp in
          let token : first_token t ≡ c ∷ [] = same ∙ ap (λ k. c ∷ k) alone in
          let short : length (ended (first_token t)) ≤ 2 =
            omega (arith, ap (λ k. length (ended k)) token) in
          let step : acmd_round cnt (n, st.cp, st1) go ≡ finish = choice ∙ chosen next sp in
          subst (Collects t cnt st) (sym step)
            (finishes t cnt st st1 n r (inr (c, token, sp)) short room)
      | inr sp ↦
          let step : acmd_round cnt (n, st.cp, st1) go ≡ next = choice ∙ passed_over finish sp in
          subst (Collects t cnt st) (sym step) (
            goes_on t cnt st.cp st st1 n go r positive room
              (λ st2 a b p q. rest st2 a b p q positive))
    ]

-- The loop, given more fuel than the text has characters.
acmd_loop_lem :
    (fuel : ℕ) (t rest : List ℕ) (cnt : ℕ) (st : Parser)
    → NoNul t
    → length t < fuel
    → st.cp + 2 * length t + 2 ≤ length st.cbuf
    → st.pp + length t < length st.pbuf
    → Collects t cnt st (acmd_loop fuel (c_string t rest) cnt st)
unfolding acmd_loop
acmd_loop_lem zero t rest cnt st h f room entries = absurd (omega arith)
acmd_loop_lem (suc fuel) t rest cnt st h f room entries =
    let (n, st1, e, r) = nexttoken_total t rest st h (omega arith) in
    let go : Parser → Option (ℕ × Parser) =
      λ st'. acmd_loop fuel (drop n (c_string t rest)) (cnt + n) st' in
    let round = λ (r : ℕ × ℕ × Parser).
      acmd_round cnt r (λ st'. acmd_loop fuel (drop r.0 (c_string t rest)) (cnt + r.0) st') in
    let taken = r.consumed in
    let few = used_le t in
    let shorter = length-drop n t in
    let later : (st2 : Parser)
        → length st2.cbuf ≡ length st.cbuf
        → length st2.pbuf ≡ length st.pbuf
        → st2.cp ≤ st.cp + 2 * n
        → st2.pp ≤ st.pp + n
        → 0 < n
        → Collects (drop n t) (cnt + n) st2 (go st2) =
      λ st2 a b p q some_n.
        subst (λ u. Collects (drop n t) (cnt + n) st2 (acmd_loop fuel u (cnt + n) st2))
          (sym (drop-c_string n t rest (omega arith)))
          (acmd_loop_lem fuel (drop n t) rest (cnt + n) st2 (NoNul-drop n t h) (omega arith)
            (omega arith) (omega arith)) in
    subst (Collects t cnt st) (sym (and_then round e))
      (round_lem t cnt st st1 n (first_token t) r refl (omega arith) go later)

-- With a free program, room for twice the characters of the text and two more in the character
-- buffer, and an entry for each and one more in the list of arguments, acmd returns; its rounds
-- end, no buffer is left, and it stops at the end or before a special character, with the
-- arguments ended by a null pointer.
pub acmd_lem :
    (t rest : List ℕ) (st : Parser) (i : ℕ) (p : Program)
    → NoNul t
    → st.cmds ≡ some i
    → get_elem? st.cmdbuf i ≡ some p
    → st.cp + 2 * length t + 2 ≤ length st.cbuf
    → st.pp + length t < length st.pbuf
    → (n : ℕ) × (st' : Parser) × (acmd (c_string t rest) st ≡ some (n, i, st'))
      × Collected t (with_program i p st) st' n
unfolding acmd
acmd_lem t rest st i p h free at_i room entries =
    let size = length-append t (0 ∷ rest) in
    let s = c_string t rest in
    let (n, st', e, c) =
      acmd_loop_lem (length s + 1) t rest 0 (with_program i p st) h (omega arith) room entries in
    let sum : 0 + n ≡ n = omega arith in
    (
      n,
      st',
      and_then
            (λ cmd0. get_elem? st.cmdbuf cmd0 >>= λ p.
              acmd_loop (length s + 1) s 0 (with_program cmd0 p st) >>= λ r. some (r.0, cmd0, r.1))
            free
          ∙ and_then
              (λ p. acmd_loop (length s + 1) s 0 (with_program i p st) >>= λ r. some (r.0, i, r.1))
              at_i
          ∙ and_then (λ r. some (r.0, i, r.1)) e
          ∙ ap (λ k. some (k, i, st')) sum,
      c,
    )
