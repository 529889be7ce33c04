-- ===== src/Libc/Str/Tests.antt =====
-- lethe-libc/string.c at concrete bytes.
use uefi_bare_bones.Prelude.{
  ℕ, zero, suc, ◌<◌, ◌≡◌, refl, ◌≢◌, ◌↔◌, some, List, [], ◌∷◌, arith, get_or, ℤ, pos, negsuc,
}
use uefi_bare_bones.Libc.Str.{Bytes, strlen_from, memmove, strlen, strncmp, strcmp}
use uefi_bare_bones.Libc.Str.Copy.{IsCopy, memmove-IsCopy}
use uefi_bare_bones.Libc.Str.Compare.{Agree, IsText}
use uefi_bare_bones.Libc.Str.Order.{AreBytes, strcmp_iff}

abbrev bytes_of : List ℕ → Bytes
bytes_of xs i = get_or xs i 0

-- "ab" and "abc"
abbrev ab : Bytes
ab = bytes_of (97 ∷ 98 ∷ [])

abbrev abc : Bytes
abc = bytes_of (97 ∷ 98 ∷ 99 ∷ [])

ab-AreBytes : AreBytes ab
ab-AreBytes zero = omega arith
ab-AreBytes (suc zero) = omega arith
ab-AreBytes (suc (suc j)) = omega arith

abc-AreBytes : AreBytes abc
abc-AreBytes zero = omega arith
abc-AreBytes (suc zero) = omega arith
abc-AreBytes (suc (suc zero)) = omega arith
abc-AreBytes (suc (suc (suc j))) = omega arith

ab-IsText : IsText ab 2
ab-IsText = record { ends = refl; inside = inside }
  where
    inside : (j : ℕ) → j < 2 → ab j ≢ 0
    inside zero lt = omega arith
    inside (suc zero) lt = omega arith
    inside (suc (suc j)) lt = absurd (omega arith)

abc-IsText : IsText abc 3
abc-IsText = record { ends = refl; inside = inside }
  where
    inside : (j : ℕ) → j < 3 → abc j ≢ 0
    inside zero lt = omega arith
    inside (suc zero) lt = omega arith
    inside (suc (suc zero)) lt = omega arith
    inside (suc (suc (suc j))) lt = absurd (omega arith)

-- A text and a longer one that begins with it: equal for `strncmp`, not for `strcmp`.
prefixes : (strncmp ab abc 3 ≡ pos 0) × (strcmp 9 ab abc ≡ some (negsuc 0))
unfolding strncmp strcmp strlen strlen_from
prefixes = (refl, refl)

-- Three bytes moved up by one, over themselves.
overlap : memmove (bytes_of (1 ∷ 2 ∷ 3 ∷ 4 ∷ [])) 1 0 3 3 ≡ 3
unfolding memmove
overlap = refl

memmove-IsCopy_example : IsCopy abc (memmove abc 1 0 3) 1 0 3
memmove-IsCopy_example = memmove-IsCopy abc 1 0 3

strcmp_iff_example :
    (r : ℤ) × (strcmp 9 ab abc ≡ some r) × ((r ≡ pos 0) ↔ ((◌≡◌ {A = ℕ} 2 3) × Agree ab abc 0 2))
strcmp_iff_example =
    strcmp_iff 9 2 3 ab abc ab-AreBytes abc-AreBytes ab-IsText abc-IsText (omega arith)
      (omega arith)
