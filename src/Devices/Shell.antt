-- ===== src/Devices/Shell.antt =====
-- lethe-kernel/misc/shell.c: the line that is typed. `krealloc` is liballoc's and a parameter; the
-- block that `shell_cmd` leads to is the list of its bytes. What goes to the terminal is recorded.
pub mod Line
mod Tests
use uefi_bare_bones.Prelude.{
  ℕ, zero, suc, ◌+◌, ◌-◌, Bool, true, false, not, Option, none, some, List, [], ◌∷◌, ◌++◌, ltb, leb,
  ◌==◌, if◌then◌else◌, length, set, drop, replicate,
}

-- A call of `putchar` or of `tty_delc`.
pub data Echo : Type 0 where
  shows : ℕ → Echo
  erases : Echo

pub record Shell : Type 0 where
  pub shell_cmd : List ℕ
  pub shell_size : ℕ
  pub shell_cur : ℕ
  pub enabled : Bool
  pub echo : List Echo

-- How a call ends: with a result, in a use of NULL, or in an access outside the block.
pub data Outcome (A : Type 0) : Type 0 where
  returns : A → Outcome A
  null_pointer out_of_block : Outcome A

infixl 5 ◌>>=◌
abbrev pub ◌>>=◌ : {A B : Type 0} → Outcome A → (A → Outcome B) → Outcome B
returns a >>= f = f a
null_pointer >>= f = null_pointer
out_of_block >>= f = out_of_block

-- `shell_cmd[i] = ch`
abbrev pub write_at : Shell → ℕ → ℕ → Outcome Shell
write_at s i ch =
    if ltb i (length s.shell_cmd)
    then returns (record s { shell_cmd = set s.shell_cmd i ch })
    else out_of_block

abbrev pub tell : Shell → Echo → Shell
tell s e = record s { echo = s.echo ++ (e ∷ []) }

-- The growth of the block in `push_char`.
pub grow : (List ℕ → ℕ → Option (List ℕ)) → Shell → Outcome Shell
grow krealloc s =
    let size = s.shell_size + 80 in
    let grown : Outcome Shell = elim (krealloc s.shell_cmd size) [
      | none ↦ null_pointer
      | some block ↦ returns (record s { shell_cmd = block; shell_size = size })
    ] in
    if leb s.shell_size s.shell_cur then grown else returns s

pub push_char : (List ℕ → ℕ → Option (List ℕ)) → Shell → ℕ → Outcome Shell
unfolding grow
push_char krealloc s ch = grow krealloc s >>= λ roomy.
    write_at roomy roomy.shell_cur ch >>= λ written.
    returns (tell (record written { shell_cur = written.shell_cur + 1 }) (shows ch))

-- At an empty line the index is -1.
pub del_char : Shell → Outcome Shell
del_char s =
    let cur = s.shell_cur - 1 in
    let deleted =
      write_at (record s { shell_cur = cur }) cur 0 >>= λ written. returns (tell written erases) in
    if s.shell_cur == 0 then out_of_block else deleted

-- `memset(shell_cmd, 0, shell_size)`
abbrev pub clear : Shell → Shell
clear s = record s {
  shell_cur = 0;
  shell_cmd = replicate s.shell_size 0 ++ drop s.shell_size s.shell_cmd;
}

-- What the line comes to: nothing, a call of a function at an address, or the list of the names.
pub data Command : Type 0 where
  no_command list_names : Command
  calls : ℕ → Command

-- The end of `execute_command`, after the text has been terminated.
pub run_line : (List ℕ → ℕ) → Shell → Command × Shell
run_line resolve s =
    let rip = resolve s.shell_cmd in
    (if rip == 0 then list_names else calls rip, tell (clear s) (shows b'>'))

-- `execute_command`, its log line left out; `resolve` is `resolve_function_address`, which reads the text in the block.
pub execute_command : (List ℕ → ℕ) → Shell → Outcome (Command × Shell)
unfolding run_line
execute_command resolve s =
    let prompt = tell s (shows b'\n') in
    let ended = write_at prompt s.shell_cur 0 >>= λ written.
    returns (run_line resolve (record written { shell_cur = s.shell_cur + 1 })) in
    if not s.enabled
    then returns (no_command, clear s)
    else if s.shell_cur == 0
    then returns (no_command, tell (clear prompt) (shows b'>'))
    else ended

-- `init_shell`, with the block of 80 bytes from `kmalloc`.
pub init_shell : List ℕ → Shell → Shell
init_shell block s =
    tell (record s { enabled = true; shell_cur = 0; shell_size = 80; shell_cmd = block })
      (shows b'>')
