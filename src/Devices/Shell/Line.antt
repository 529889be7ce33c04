-- ===== src/Devices/Shell/Line.antt =====
-- The line in lethe-kernel/misc/shell.c: what is typed is what the block holds, and which calls
-- leave the block.
use native.Mathlib.Decide.{dec_lt}
use uefi_bare_bones.Prelude.{
  ℕ, zero, suc, ◌+◌, ◌-◌, ◌≤◌, ◌<◌, ◌≡◌, refl, sym, ap, ◌≢◌, ◌∙◌, ◌↔◌, true, false, Option, some,
  List, [], ◌∷◌, ◌++◌, arith, ltb, leb, ◌==◌, length, length-set, set, take,
}
use uefi_bare_bones.Devices.Shell.{
  Echo, Shell, returns, out_of_block, tell, grow, push_char, del_char, execute_command,
}

pub record IsShell (s : Shell) : Type 0 where
  pub block : length s.shell_cmd ≡ s.shell_size
  pub inside : s.shell_cur ≤ s.shell_size

-- What has been typed.
abbrev pub line : Shell → List ℕ
line s = take s.shell_cur s.shell_cmd

-- `krealloc` finds memory: it gives a block of the size asked for, which begins with the old bytes.
abbrev pub Grows : (List ℕ → ℕ → Option (List ℕ)) → Type 0
Grows krealloc =
    (cells : List ℕ) (n : ℕ)
    → length cells ≤ n
    → (cells' : List ℕ) × (krealloc cells n ≡ some cells')
      × (length cells' ≡ n)
      × (take (length cells) cells' ≡ cells)

take-set :
    (xs : List ℕ) (i v : ℕ) → i < length xs → take (i + 1) (set xs i v) ≡ take i xs ++ (v ∷ [])
take-set [] i v lt = absurd (omega arith)
take-set (x ∷ xs) zero v lt = refl
take-set (x ∷ xs) (suc i) v lt =
    let e : suc i + 1 ≡ suc (i + 1) = omega arith in
    rw e (ap (λ (t : List ℕ). x ∷ t) (take-set xs i v (omega arith)))

take-set_past : (xs : List ℕ) (i v : ℕ) → take i (set xs i v) ≡ take i xs
take-set_past [] i v = refl
take-set_past (x ∷ xs) zero v = refl
take-set_past (x ∷ xs) (suc i) v = ap (λ (t : List ℕ). x ∷ t) (take-set_past xs i v)

take_all : (xs : List ℕ) → take (length xs) xs ≡ xs
take_all [] = refl
take_all (x ∷ xs) = ap (λ (t : List ℕ). x ∷ t) (take_all xs)

-- Room is made without a change of the line.
record Roomy (s : Shell) (roomy : Shell) : Type 0 where
  shell : IsShell roomy
  room : roomy.shell_cur < roomy.shell_size
  cur : roomy.shell_cur ≡ s.shell_cur
  same : line roomy ≡ line s
  echo : roomy.echo ≡ s.echo

module _ (krealloc : List ℕ → ℕ → Option (List ℕ)) (grows : Grows krealloc) where
  grow_full :
      (s : Shell) (block : List ℕ)
      → IsShell s
      → s.shell_size ≤ s.shell_cur
      → krealloc s.shell_cmd (s.shell_size + 80) ≡ some block
      → length block ≡ s.shell_size + 80
      → take (length s.shell_cmd) block ≡ s.shell_cmd
      → (roomy : Shell) × (grow krealloc s ≡ returns roomy) × Roomy s roomy
  unfolding grow
  grow_full s block v le e size same =
      let t : leb s.shell_size s.shell_cur ≡ true = ground arith in
      let all : s.shell_cur ≡ length s.shell_cmd = omega (arith, v.block, v.inside) in
      (
        record s { shell_cmd = block; shell_size = s.shell_size + 80 },
        rw (t, e) refl,
        record {
          shell = record { block = size; inside = omega (arith, v.inside) };
          room = omega (arith, v.inside);
          cur = refl;
          same =
              ap (λ (k : ℕ). take k block) all
              ∙ same
              ∙ sym (take_all s.shell_cmd)
              ∙ ap (λ (k : ℕ). take k s.shell_cmd) (sym all);
          echo = refl;
        },
      )

  grow-Roomy :
      (s : Shell) → IsShell s → (roomy : Shell) × (grow krealloc s ≡ returns roomy) × Roomy s roomy
  unfolding grow
  grow-Roomy s v = elim (dec_lt s.shell_cur s.shell_size) [
    | yes lt ↦
        let t : leb s.shell_size s.shell_cur ≡ false = ground arith in
        (s, rw t refl, record { shell = v; room = lt; cur = refl; same = refl; echo = refl })
    | no n ↦
        let (block, e, size, same) =
          grows s.shell_cmd (s.shell_size + 80) (omega (arith, v.block)) in
        grow_full s block v (omega arith) e size same
  ]

  push_room :
      (s roomy : Shell) (ch : ℕ)
      → grow krealloc s ≡ returns roomy
      → roomy.shell_cur < length roomy.shell_cmd
      → push_char krealloc s ch
        ≡ returns (
            tell
              (record roomy {
                shell_cmd = set roomy.shell_cmd roomy.shell_cur ch;
                shell_cur = roomy.shell_cur + 1;
              })
              (Echo.shows ch))
  unfolding push_char
  push_room s roomy ch e lt =
      let t : ltb roomy.shell_cur (length roomy.shell_cmd) ≡ true = ground arith in rw (e, t) refl

  -- A character typed is added to the line, whether or not the block must grow, and shown.
  push_char_lem :
      (s : Shell) (ch : ℕ)
      → IsShell s
      → (s' : Shell) × (push_char krealloc s ch ≡ returns s')
        × IsShell s'
        × (line s' ≡ line s ++ (ch ∷ []))
        × (s'.echo ≡ s.echo ++ (Echo.shows ch ∷ []))
  push_char_lem s ch v =
      let (roomy, e, r) = grow-Roomy s v in
      let lt : roomy.shell_cur < length roomy.shell_cmd = omega (arith, r.room, r.shell.block) in
      (
        tell
            (record roomy {
              shell_cmd = set roomy.shell_cmd roomy.shell_cur ch;
              shell_cur = roomy.shell_cur + 1;
            })
            (Echo.shows ch),
        push_room s roomy ch e lt,
        record {
          block = length-set roomy.shell_cmd roomy.shell_cur ch ∙ r.shell.block;
          inside = omega (arith, r.room);
        },
        take-set roomy.shell_cmd roomy.shell_cur ch lt ∙ ap (λ (t : List ℕ). t ++ (ch ∷ [])) r.same,
        ap (λ (t : List Echo). t ++ (Echo.shows ch ∷ [])) r.echo,
      )

-- A deletion in a line of some length.
del_runs :
    (s : Shell)
    → IsShell s
    → s.shell_cur ≢ 0
    → del_char s
      ≡ returns (
          tell
            (record s {
              shell_cmd = set s.shell_cmd (s.shell_cur - 1) 0;
              shell_cur = s.shell_cur - 1;
            })
            Echo.erases)
unfolding del_char
del_runs s v n =
    let a : (s.shell_cur == 0) ≡ false = ground arith in
    let b : ltb (s.shell_cur - 1) (length s.shell_cmd) ≡ true = ground (arith, v.block, v.inside) in
    rw (a, b) refl

-- A deletion takes the last character off the line and keeps the rest, where the line has one.
del_char_lem :
    (s : Shell)
    → IsShell s
    → s.shell_cur ≢ 0
    → (s' : Shell) × (del_char s ≡ returns s')
      × IsShell s'
      × (line s' ≡ take (s.shell_cur - 1) s.shell_cmd)
      × (s'.echo ≡ s.echo ++ (Echo.erases ∷ []))
del_char_lem s v n = (
  tell (record s { shell_cmd = set s.shell_cmd (s.shell_cur - 1) 0; shell_cur = s.shell_cur - 1 })
      Echo.erases,
  del_runs s v n,
  record {
    block = length-set s.shell_cmd (s.shell_cur - 1) 0 ∙ v.block;
    inside = omega (arith, v.inside);
  },
  take-set_past s.shell_cmd (s.shell_cur - 1) 0,
  refl,
)

-- A deletion leaves the block exactly when the line is empty.
del_char_iff : (s : Shell) → IsShell s → (del_char s ≡ out_of_block) ↔ (s.shell_cur ≡ 0)
unfolding del_char
del_char_iff s v = ground (arith, v.block, v.inside)

-- With the shell enabled, `execute_command` leaves the block exactly when a line that is not empty
-- fills it.
pub execute_command_iff :
    (resolve : List ℕ → ℕ) (s : Shell)
    → IsShell s
    → s.enabled ≡ true
    → (execute_command resolve s ≡ out_of_block)
      ↔ ((s.shell_cur ≡ s.shell_size) × (s.shell_cur ≢ 0))
unfolding execute_command
execute_command_iff resolve s v on = ground (arith, v.block, v.inside, on)
