-- ===== src/Devices/Keyboard.antt =====
-- lethe-kernel/misc/keyboard.c with the tables of include/scancodes.h: which keys are down, and what
-- a scan code types. The bytes of the ports 0x64 and 0x60 are arguments.
pub mod Status
mod Tests
use uefi_bare_bones.Prelude.{
  ℕ, zero, suc, ◌-◌, Bool, true, false, not, ◌||◌, Option, List, [], ◌∷◌, ltb, leb, ◌==◌,
  if◌then◌else◌, get_or, set, length, bit_or, bit_and,
}
use uefi_bare_bones.Devices.Shell.{
  Shell, Outcome, returns, null_pointer, out_of_block, ◌>>=◌, push_char, del_char, execute_command,
}

-- `SC1_LOWER_CHARS`, `SC1_UPPER_CHARS`, `ASCII_SCANCODE_1`
abbrev pub sc1_lower_chars : List ℕ
sc1_lower_chars =
    0 ∷ 0 ∷ 49 ∷ 50 ∷ 51 ∷ 52 ∷ 53 ∷ 54 ∷ 55 ∷ 56 ∷ 57 ∷ 48 ∷ 45 ∷ 61 ∷ 8 ∷ 9 ∷ 113 ∷ 119 ∷ 101
    ∷ 114 ∷ 116 ∷ 121 ∷ 117 ∷ 105 ∷ 111 ∷ 112 ∷ 91 ∷ 93 ∷ 10 ∷ 0 ∷ 97 ∷ 115 ∷ 100 ∷ 102 ∷ 103 ∷ 104
    ∷ 106 ∷ 107 ∷ 108 ∷ 59 ∷ 39 ∷ 96 ∷ 0 ∷ 92 ∷ 122 ∷ 120 ∷ 99 ∷ 118 ∷ 98 ∷ 110 ∷ 109 ∷ 44 ∷ 46 ∷ 47
    ∷ 0 ∷ 42 ∷ 0 ∷ 32 ∷ []

abbrev pub sc1_upper_chars : List ℕ
sc1_upper_chars =
    0 ∷ 0 ∷ 33 ∷ 64 ∷ 35 ∷ 36 ∷ 37 ∷ 94 ∷ 38 ∷ 42 ∷ 40 ∷ 41 ∷ 95 ∷ 43 ∷ 8 ∷ 9 ∷ 81 ∷ 87 ∷ 69 ∷ 82
    ∷ 84 ∷ 89 ∷ 85 ∷ 73 ∷ 79 ∷ 80 ∷ 123 ∷ 125 ∷ 10 ∷ 0 ∷ 65 ∷ 83 ∷ 68 ∷ 70 ∷ 71 ∷ 72 ∷ 74 ∷ 75 ∷ 76
    ∷ 58 ∷ 34 ∷ 126 ∷ 0 ∷ 124 ∷ 90 ∷ 88 ∷ 67 ∷ 86 ∷ 66 ∷ 78 ∷ 77 ∷ 60 ∷ 62 ∷ 63 ∷ 0 ∷ 42 ∷ 0 ∷ 32
    ∷ []

abbrev pub ascii_scancode_1 : List ℕ
ascii_scancode_1 =
    0 ∷ 0 ∷ 0 ∷ 0 ∷ 0 ∷ 0 ∷ 0 ∷ 0 ∷ 0 ∷ 0 ∷ 0 ∷ 0 ∷ 0 ∷ 0 ∷ 0 ∷ 0 ∷ 0 ∷ 0 ∷ 0 ∷ 0 ∷ 0 ∷ 0 ∷ 0 ∷ 0
    ∷ 0 ∷ 0 ∷ 0 ∷ 0 ∷ 0 ∷ 0 ∷ 0 ∷ 0 ∷ 57 ∷ 2 ∷ 40 ∷ 4 ∷ 5 ∷ 6 ∷ 8 ∷ 40 ∷ 10 ∷ 11 ∷ 9 ∷ 13 ∷ 51 ∷ 12
    ∷ 52 ∷ 53 ∷ 11 ∷ 2 ∷ 3 ∷ 4 ∷ 5 ∷ 6 ∷ 7 ∷ 8 ∷ 9 ∷ 10 ∷ 39 ∷ 39 ∷ 51 ∷ 13 ∷ 52 ∷ 53 ∷ 3 ∷ 30 ∷ 48
    ∷ 46 ∷ 32 ∷ 18 ∷ 33 ∷ 34 ∷ 35 ∷ 23 ∷ 36 ∷ 37 ∷ 38 ∷ 50 ∷ 49 ∷ 24 ∷ 25 ∷ 16 ∷ 19 ∷ 31 ∷ 20 ∷ 22
    ∷ 47 ∷ 17 ∷ 45 ∷ 21 ∷ 44 ∷ 26 ∷ 43 ∷ 27 ∷ 7 ∷ 12 ∷ 41 ∷ []

-- `KB_STATUS`
abbrev pub KbStatus : Type 0
KbStatus = List ℕ

-- `KB_STATUS[i] = v`
abbrev pub write_status : KbStatus → ℕ → ℕ → Outcome KbStatus
write_status kb_status i v =
    if ltb i (length kb_status) then returns (set kb_status i v) else out_of_block

pub scancode_to_char : KbStatus → ℕ → ℕ
scancode_to_char kb_status byte =
    let shift = bit_or (get_or kb_status 0x36 0) (get_or kb_status 0x2A 0) in
    if ltb byte 58
    then if shift == 1 then get_or sc1_upper_chars byte 0 else get_or sc1_lower_chars byte 0
    else 0

-- What `kb_handle_key` does to the table. An index below 0 is outside of it.
pub record_key : KbStatus → ℕ → Outcome KbStatus
record_key kb_status byte =
    if leb byte 0x58
    then write_status kb_status byte 1
    else if leb byte 0xD8
    then if ltb byte 0x80 then out_of_block else write_status kb_status (byte - 0x80) 0
    else returns kb_status

-- What it does to the shell's line with a character.
pub type_char : (List ℕ → ℕ → Option (List ℕ)) → (List ℕ → ℕ) → Shell → ℕ → Outcome Shell
type_char krealloc resolve shell ch =
    let run = execute_command resolve shell >>= λ ran. returns ran.1 in
    if ch == 0
    then returns shell
    else if ch == b'\n'
    then run
    else if ch == 0x08
    then del_char shell
    else push_char krealloc shell ch

pub kb_handle_key :
    (List ℕ → ℕ → Option (List ℕ))
    → (List ℕ → ℕ)
    → ℕ
    → ℕ
    → KbStatus × Shell
    → Outcome (KbStatus × Shell)
unfolding record_key scancode_to_char type_char
kb_handle_key krealloc resolve port_64 port_60 (kb_status, shell) =
    let handled = record_key kb_status port_60 >>= λ recorded.
    type_char krealloc resolve shell (scancode_to_char recorded port_60) >>= λ typed.
    returns (recorded, typed) in
    if not (bit_and port_64 1 == 1) then returns (kb_status, shell) else handled

pub is_key_pressed : KbStatus → ℕ → ℕ
is_key_pressed kb_status ascii_key =
    if ltb ascii_key 32 || ltb 96 ascii_key
    then 0
    else get_or kb_status (get_or ascii_scancode_1 ascii_key 0) 0
