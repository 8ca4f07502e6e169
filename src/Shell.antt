-- ===== src/Shell.antt =====
-- The command parser of the shell, code/parse.c of OS-lab1-master. A line is the list of its bytes with
-- the null byte; a pointer into one of the three static buffers is an index. A read or a write outside
-- a buffer, or through a null pointer, is `none`. Characters are classed as in the C locale.
pub mod Bytes
pub mod Token
pub mod Reading
pub mod Arguments
use tony_henry_niklas.Common.{
  ℕ, zero, suc, ◌+◌, ◌-◌, ◌*◌, ◌/◌, ◌%◌, ◌^◌, ◌≤◌, ◌<◌, ◌≡◌, refl, sym, ap, ◌∙◌, ◌≢◌, ◌↔◌, ◌⊎◌, inl,
  inr, Bool, true, false, ◌&&◌, ◌||◌, not, List, [], ◌∷◌, ◌++◌, map, Option, none, some, arith, ltb,
  leb, ◌==◌, check, passes, and_then, if◌then◌else◌, length, get_elem?, set, ◌>>=◌, Bool-cases,
  Option-cases, subst, fun_ext, ltb→lt, leb→le, lt→ltb, ==_iff, take, drop, replicate, length-set,
  get_elem?-set_self, get_elem?-set_ne, length-append, get_or,
}

-- `Pgm`, an element of `cmdbuf`.
pub record Program : Type 0 where
  pub next : Option ℕ
  pub pgmlist : ℕ

-- The static buffers, and the pointers to their free parts.
pub record Parser : Type 0 where
  pub cmdbuf : List Program
  pub cmds : Option ℕ
  pub cbuf : List ℕ
  pub cp : ℕ
  pub pbuf : List (Option ℕ)
  pub pp : ℕ

pub record Command : Type 0 where
  pub rstdin : Option ℕ
  pub rstdout : Option ℕ
  pub rstderr : Option ℕ
  pub background : Bool
  pub pgm : Option ℕ

unfoldable pub is_special : ℕ → Bool
is_special c = c == 124 || (c == 38 || (c == 60 || c == 62))

unfoldable pub is_space : ℕ → Bool
is_space c = c == 32 || (leb 9 c && leb c 13)

abbrev pub is_alnum : ℕ → Bool
is_alnum c = (leb 48 c && leb c 57) || ((leb 65 c && leb c 90) || (leb 97 c && leb c 122))

-- The characters of `IDCHARS`, "_-.,/~+".
abbrev pub is_idchar : ℕ → Bool
is_idchar c = c == 95 || (c == 45 || (c == 46 || (c == 44 || (c == 47 || (c == 126 || c == 43)))))

-- `for (i = 0; i < 19; i++) cmdbuf[i].next = &cmdbuf[i + 1];`, and NULL for the last.
unfoldable pub link : ℕ → List Program → List Program
link i [] = []
link i (p ∷ l) = record p { next = if ltb i 19 then some (i + 1) else none } ∷ link (i + 1) l

unfoldable pub init : Parser → Parser
init st = record st { cmdbuf = link 0 st.cmdbuf; cmds = some 0; cp = 0; pp = 0 }

-- `*cp++ = c`
unfoldable pub put : ℕ → Parser → Option Parser
put c st =
    check (ltb st.cp (length st.cbuf))
      (some (record st { cbuf = set st.cbuf st.cp c; cp = st.cp + 1 }))

-- What follows the white space: how much there was, the character, and the text after it.
unfoldable pub skip_spaces : List ℕ → Option (ℕ × ℕ × List ℕ)
skip_spaces [] = none
skip_spaces (c ∷ s) =
    let rest = skip_spaces s in
    if is_space c && not (c == 0) then (rest >>= λ r. some (suc r.0, r.1, r.2)) else some (0, c, s)

unfoldable pub ends_token : ℕ → Bool
ends_token c = is_space c || (is_special c || c == 0)

-- The `do` loop with `--cp`: how many characters the token has from here on.
unfoldable pub copy_token : List ℕ → Parser → Option (ℕ × Parser)
copy_token [] st = none
copy_token (c ∷ s) st = put c st >>= λ st'.
    let rest = copy_token s st' in
    if ends_token c
    then some (0, record st' { cp = st'.cp - 1 })
    else (rest >>= λ r. some (suc r.0, r.1))

-- What `nexttoken` does behind the white space.
unfoldable pub read_token : Parser → ℕ × ℕ × List ℕ → Option (ℕ × ℕ × Parser)
unfolding put
read_token st r =
    let tok = st.cp in
    let c = r.1 in
    if c == 0
    then some (0, tok, st)
    else if is_special c
    then (put c st >>= λ st1. put 0 st1 >>= λ st2. some (r.0 + 1, tok, st2))
    else (put c st >>= λ st1.
        copy_token r.2 st1 >>= λ t. put 0 t.1 >>= λ st2. some (r.0 + 1 + t.0, tok, st2))

-- The number of characters that are used up, the token, and the buffers.
unfoldable pub nexttoken : List ℕ → Parser → Option (ℕ × ℕ × Parser)
nexttoken s st = skip_spaces s >>= read_token st

-- `*pp++ = p`
unfoldable pub push : Option ℕ → Parser → Option Parser
push p st =
    check (ltb st.pp (length st.pbuf))
      (some (record st { pbuf = set st.pbuf st.pp p; pp = st.pp + 1 }))

-- What `acmd` does with the token, and with `more` to go on from the label `next`.
unfoldable pub acmd_round :
    ℕ → ℕ × ℕ × Parser → (Parser → Option (ℕ × Parser)) → Option (ℕ × Parser)
acmd_round cnt r more =
    let finish = push none r.2 >>= λ st. some (cnt, st) in
    if r.0 == 0
    then finish
    else (get_elem? (r.2).cbuf r.1 >>= λ c.
        let next = push (some r.1) r.2 >>= more in if is_special c then finish else next)

-- From the label `next` on, with fuel for the rounds.
unfoldable pub acmd_loop : ℕ → List ℕ → ℕ → Parser → Option (ℕ × Parser)
acmd_loop zero s cnt st = none
acmd_loop (suc fuel) s cnt st =
    nexttoken s st >>= λ r. acmd_round cnt r (λ st'. acmd_loop fuel (drop r.0 s) (cnt + r.0) st')

-- `cmds = cmds->next; cmd0->next = NULL; cmd0->pgmlist = pp;`
abbrev pub with_program : ℕ → Program → Parser → Parser
with_program cmd0 p st = record st {
  cmds = p.next;
  cmdbuf = set st.cmdbuf cmd0 (record { next = none; pgmlist = st.pp });
}

-- The number of characters, the program and the buffers.
unfoldable pub acmd : List ℕ → Parser → Option (ℕ × ℕ × Parser)
acmd s st = st.cmds >>= λ cmd0. get_elem? st.cmdbuf cmd0 >>= λ p.
    acmd_loop (length s + 1) s 0 (with_program cmd0 p st) >>= λ r. some (r.0, cmd0, r.1)

-- The string that stands in `cbuf` from an index on, up to a null byte.
unfoldable pub isidentifier : List ℕ → Option Bool
isidentifier [] = none
isidentifier (c ∷ s) =
    let rest = isidentifier s in
    if c == 0 then some true else if not (is_alnum c) && not (is_idchar c) then some false else rest

-- `return 1` is true, `return -1` false.
abbrev pub Result : Type 0
Result = Bool × Command × Parser

abbrev pub fail : Command → Parser → Option Result
fail c st = some (false, c, st)

-- The two labels of `parse`.
pub data Label : Type 0 where
  newcmd newtoken : Label

-- A redirection: sets the field, whether or not there is a token, and goes on behind it.
unfoldable pub redirect :
    (Option ℕ → Command → Command)
    → List ℕ
    → Command
    → Parser
    → (List ℕ → Command → Parser → Option Result)
    → Option Result
redirect field t c st go = nexttoken t st >>= λ r.
    let c' = field (some r.1) c in
    isidentifier (drop r.1 (r.2).cbuf) >>= λ ok. if ok then go (drop r.0 t) c' r.2 else fail c' r.2

abbrev pub with_stdin : Option ℕ → Command → Command
with_stdin p c = record c { rstdin = p }

abbrev pub with_stdout : Option ℕ → Command → Command
with_stdout p c = record c { rstdout = p }

abbrev pub is_some : Option ℕ → Bool
is_some none = false
is_some (some _) = true

-- The `switch`, on the first character of the token.
unfoldable pub dispatch :
    ℕ
    → List ℕ
    → Command
    → Parser
    → (Label → List ℕ → Command → Parser → Option Result)
    → Option Result
dispatch ch t c st go =
    if ch == 124
    then go Label.newcmd t c st
    else if ch == 38
    then (nexttoken t st >>= λ r.
        if r.0 == 0 then some (true, record c { background = true }, r.2) else fail c r.2)
    else if ch == 60
    then (if is_some c.rstdin then fail c st else redirect with_stdin t c st (go Label.newtoken))
    else if ch == 62
    then (if is_some c.rstdout then fail c st else redirect with_stdout t c st (go Label.newtoken))
    else fail c st

-- From a label on, with fuel for the jumps.
unfoldable pub parse_from : ℕ → Label → List ℕ → Command → Parser → Option Result
parse_from zero label t c st = none
parse_from (suc fuel) Label.newcmd t c st = acmd t st >>= λ r.
    let st' = r.2 in
    if r.0 == 0
    then fail c st'
    else (get_elem? st'.cmdbuf r.1 >>= λ p.
        parse_from fuel Label.newtoken (drop r.0 t) (record c { pgm = some r.1 })
          (record st' { cmdbuf = set st'.cmdbuf r.1 (record p { next = c.pgm }) }))
parse_from (suc fuel) Label.newtoken t c st = nexttoken t st >>= λ r.
    if r.0 == 0
    then some (true, c, r.2)
    else (get_elem? (r.2).cbuf r.1 >>= λ ch.
        dispatch ch (drop r.0 t) c r.2 (λ label t' c' st'. parse_from fuel label t' c' st'))

unfoldable pub parse : List ℕ → Parser → Option Result
parse buf st =
    parse_from (2 * length buf + 2) Label.newcmd buf
      (record { rstdin = none; rstdout = none; rstderr = none; background = false; pgm = none })
      (init st)
