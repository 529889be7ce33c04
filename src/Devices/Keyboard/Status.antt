-- ===== src/Devices/Keyboard/Status.antt =====
-- The table of pressed keys in lethe-kernel/misc/keyboard.c, and the accesses outside of it.
use uefi_bare_bones.Prelude.{
  ℕ, zero, suc, ◌+◌, ◌-◌, ◌≤◌, ◌<◌, ◌≡◌, refl, ap, ◌∙◌, ◌↔◌, ◌⊎◌, true, false, List, [], ◌∷◌, arith,
  ltb, leb, get_or, set, length, length-set,
}
use uefi_bare_bones.Devices.Shell.{returns, out_of_block}
use uefi_bare_bones.Devices.Keyboard.{KbStatus, record_key}

-- The scan codes whose key has no place in the table of 88 keys.
abbrev pub HasNoPlace : ℕ → Type 0
HasNoPlace byte = ((0x58 ≤ byte) × (byte < 0x80)) ⊎ (byte ≡ 0xD8)

-- A scan code is written outside the table of 88 keys exactly when it is one of 0x58 to 0x7F, or
-- 0xD8.
pub record_key_iff :
    (kb_status : KbStatus) (byte : ℕ)
    → length kb_status ≡ 88
    → (record_key kb_status byte ≡ out_of_block) ↔ HasNoPlace byte
unfolding record_key
record_key_iff kb_status byte size = ground (arith, size)

press :
    (kb_status : KbStatus) (byte : ℕ)
    → length kb_status ≡ 88
    → byte < 0x58
    → record_key kb_status byte ≡ returns (set kb_status byte 1)
unfolding record_key
press kb_status byte size lt = ground (arith, size)

release :
    (kb_status : KbStatus) (byte : ℕ)
    → length kb_status ≡ 88
    → byte < 0x58
    → record_key kb_status (byte + 0x80) ≡ returns (set kb_status byte 0)
unfolding record_key
release kb_status byte size lt =
    let a : leb (byte + 0x80) 0x58 ≡ false = ground arith in
    let b : leb (byte + 0x80) 0xD8 ≡ true = ground arith in
    let c : ltb (byte + 0x80) 0x80 ≡ false = ground arith in
    let d : byte + 0x80 - 0x80 ≡ byte = omega arith in
    let e : ltb byte (length kb_status) ≡ true = ground (arith, size) in rw (a, b, c, d, e) refl

set-set : (xs : List ℕ) (i v w : ℕ) → set (set xs i v) i w ≡ set xs i w
set-set [] i v w = refl
set-set (x ∷ xs) zero v w = refl
set-set (x ∷ xs) (suc i) v w = ap (λ (t : List ℕ). x ∷ t) (set-set xs i v w)

get_or-set : (xs : List ℕ) (i v : ℕ) → i < length xs → get_or (set xs i v) i 0 ≡ v
get_or-set [] i v lt = absurd (omega arith)
get_or-set (x ∷ xs) zero v lt = refl
get_or-set (x ∷ xs) (suc i) v lt = get_or-set xs i v (omega arith)

-- A key with a place in the table of 88 keys is marked when its scan code comes; its release takes
-- that mark alone away.
record_key_twice :
    (kb_status : KbStatus) (byte : ℕ)
    → length kb_status ≡ 88
    → byte < 0x58
    → (pressed : KbStatus) × (record_key kb_status byte ≡ returns pressed)
      × (get_or pressed byte 0 ≡ 1)
      × (record_key pressed (byte + 0x80) ≡ returns (set kb_status byte 0))
record_key_twice kb_status byte size lt = (
  set kb_status byte 1,
  press kb_status byte size lt,
  get_or-set kb_status byte 1 (omega (arith, size)),
  release (set kb_status byte 1) byte (length-set kb_status byte 1 ∙ size) lt
      ∙ ap (λ (t : KbStatus). returns t) (set-set kb_status byte 1 0),
)
