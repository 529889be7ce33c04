-- ===== src/Devices/Shell/Tests.antt =====
-- The shell's line of lethe-kernel/misc/shell.c at a full block.
use uefi_bare_bones.Prelude.{
  ℕ, ◌-◌, ◌≡◌, refl, ap, ◌≢◌, ◌↔◌, true, Option, some, List, [], ◌∷◌, ◌++◌, arith, length,
  length-append, length-replicate, replicate, take,
}
use uefi_bare_bones.Devices.Shell.{Shell, out_of_block, execute_command}
use uefi_bare_bones.Devices.Shell.Line.{IsShell, Grows, execute_command_iff}

take-append : (xs ys : List ℕ) → take (length xs) (xs ++ ys) ≡ xs
take-append [] ys = refl
take-append (x ∷ xs) ys = ap (λ (t : List ℕ). x ∷ t) (take-append xs ys)

-- A `krealloc` that copies the bytes and leaves 0 behind them.
abbrev grown : List ℕ → ℕ → Option (List ℕ)
grown cells n = some (cells ++ replicate (n - length cells) 0)

grown-Grows : Grows grown
grown-Grows cells n le = (
  cells ++ replicate (n - length cells) 0,
  refl,
  omega (
    arith,
    length-append cells (replicate (n - length cells) 0),
    length-replicate (n - length cells) no_byte,
  ),
  take-append cells (replicate (n - length cells) 0),
)
  where
    no_byte : ℕ
    no_byte = 0

-- A block of three bytes, full.
abbrev full : Shell
full = record {
  shell_cmd = b'r' ∷ b'e' ∷ b'm' ∷ [];
  shell_size = 3;
  shell_cur = 3;
  enabled = true;
  echo = [];
}

full-IsShell : IsShell full
full-IsShell = record { block = refl; inside = omega arith }

-- No name is found.
abbrev no_name : List ℕ → ℕ
no_name text = 0

execute_command_iff_example :
    (execute_command no_name full ≡ out_of_block) ↔ ((◌≡◌ {A = ℕ} 3 3) × (◌≢◌ {A = ℕ} 3 0))
execute_command_iff_example = execute_command_iff no_name full full-IsShell refl
