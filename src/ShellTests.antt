-- ===== src/ShellTests.antt =====
-- Runs of the shell's parser, and the theorem about its tokens at a concrete line.
use tony_henry_niklas.Strings.Order.{NoNul, c_string}
use tony_henry_niklas.Shell.{
  Parser, Result, parse, parse_from, dispatch, redirect, isidentifier, acmd, acmd_loop, acmd_round,
  with_program, push, nexttoken, read_token, copy_token, skip_spaces, put, init, link, is_special,
  is_space, ends_token,
}
use tony_henry_niklas.Shell.Bytes.{first_token}
use tony_henry_niklas.Shell.Token.{Taken, nexttoken_lem}
use tony_henry_niklas.Shell.Arguments.{Collected, acmd_lem}
use tony_henry_niklas.Common.{
  ℕ, zero, suc, ◌≡◌, refl, Bool, true, false, List, [], ◌∷◌, Option, none, some, arith, replicate,
}

abbrev parser : Parser
parser = record {
  cmdbuf = replicate 20 (record { next = none; pgmlist = 0 });
  cmds = none;
  cbuf = replicate 256 0;
  cp = 0;
  pbuf = replicate 50 none;
  pp = 0;
}

-- " ab|"
abbrev line : List ℕ
line = 32 ∷ 97 ∷ 98 ∷ 124 ∷ []

line-NoNul : NoNul line
line-NoNul = ((λ e. cc), ((λ e. cc), ((λ e. cc), ((λ e. cc), tt))))

nexttoken_lem_example : Taken line [] parser [] (replicate 256 0) (first_token line)
nexttoken_lem_example = nexttoken_lem line [] parser [] (replicate 256 0) line-NoNul (omega arith)

-- " ab|" and nothing behind the pipe is refused; "a|b>c" is a command.
abbrev verdict : Option Result → Option Bool
verdict none = none
verdict (some r) = some r.0

pipe_test : verdict (parse (c_string line []) parser) ≡ some false
unfolding parse parse_from dispatch redirect isidentifier acmd acmd_loop acmd_round push nexttoken
    read_token copy_token skip_spaces put init link is_special is_space ends_token
pipe_test = refl

command_test : verdict (parse (97 ∷ 124 ∷ 98 ∷ 62 ∷ 99 ∷ 0 ∷ []) parser) ≡ some true
unfolding parse parse_from dispatch redirect isidentifier acmd acmd_loop acmd_round push nexttoken
    read_token copy_token skip_spaces put init link is_special is_space ends_token
command_test = refl

-- "a<": the file name is missing, and the line is taken for a command.
no_name_test : verdict (parse (97 ∷ 60 ∷ 0 ∷ []) parser) ≡ some true
unfolding parse parse_from dispatch redirect isidentifier acmd acmd_loop acmd_round push nexttoken
    read_token copy_token skip_spaces put init link is_special is_space ends_token
no_name_test = refl

-- "a|" twenty times and "a": there is no program left for the last command.
abbrev commands : ℕ → List ℕ
commands zero = 97 ∷ []
commands (suc n) = 97 ∷ 124 ∷ commands n

too_many_test : verdict (parse (c_string (commands 20) []) parser) ≡ none
unfolding parse parse_from dispatch redirect isidentifier acmd acmd_loop acmd_round push nexttoken
    read_token copy_token skip_spaces put init link is_special is_space ends_token
too_many_test = refl

enough_test : verdict (parse (c_string (commands 19) []) parser) ≡ some true
unfolding parse parse_from dispatch redirect isidentifier acmd acmd_loop acmd_round push nexttoken
    read_token copy_token skip_spaces put init link is_special is_space ends_token
enough_test = refl

abbrev ready : Parser
ready = record parser { cmds = some 0 }

acmd_lem_example :
    (n : ℕ) × (st' : Parser) × (acmd (c_string line []) ready ≡ some (n, 0, st'))
    × Collected line (with_program 0 (record { next = none; pgmlist = 0 }) ready) st' n
acmd_lem_example =
    acmd_lem line [] ready 0 (record { next = none; pgmlist = 0 }) line-NoNul refl refl
      (omega arith) (omega arith)
