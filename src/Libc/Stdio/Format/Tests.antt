-- ===== src/Libc/Stdio/Format/Tests.antt =====
-- vprintf of lethe-libc/stdio.c at concrete formats.
use uefi_bare_bones.Prelude.{ℕ, ◌≡◌, refl, [], ◌∷◌, List, arith}
use uefi_bare_bones.Libc.Stdio.{Output}
use uefi_bare_bones.Libc.Stdio.Digits.{IsNumeral}
use uefi_bare_bones.Libc.Stdio.Format.{Vprintf, ok, word, string, vprintf, start_vprintf, ◌>>=◌}
use uefi_bare_bones.Libc.Stdio.Format.Parse.{Yields}
use uefi_bare_bones.Libc.Stdio.Format.Total.{Prints, vprintf_total}
use uefi_bare_bones.Libc.Stdio.Format.Bare.{backwards}
use uefi_bare_bones.Libc.Stdio.Format.Numbers.{decimal, vprintf-Signed}

abbrev blank : Output
blank = record { text = []; idx = 0 }

-- `vprintf("%-4s|%3d", …)`: the flag of the first conversion is still there in the second.
abbrev two_columns : Vprintf
two_columns =
    start_vprintf (b'%' ∷ b'-' ∷ b'4' ∷ b's' ∷ b'|' ∷ b'%' ∷ b'3' ∷ b'd' ∷ [])
      (string (b'a' ∷ b'b' ∷ []) ∷ word 7 ∷ []) blank

left_stays :
    (vprintf 9 two_columns >>= λ s. ok s.out)
    ≡ ok (record { text = b'a' ∷ b'b' ∷ b' ' ∷ b' ' ∷ b'|' ∷ b'7' ∷ b' ' ∷ b' ' ∷ []; idx = 8 })
unfolding vprintf
left_stays = refl

-- `vprintf("%5.2s", "abc")` and `vprintf("%#X", 255)`
cut_text :
    (vprintf 9 (
        start_vprintf
          (b'%' ∷ b'5' ∷ b'.' ∷ b'2' ∷ b's' ∷ [])
          (string (b'a' ∷ b'b' ∷ b'c' ∷ []) ∷ [])
          blank)
      >>= λ s. ok s.out.text)
    ≡ ok (b' ' ∷ b' ' ∷ b' ' ∷ b'a' ∷ b'b' ∷ [])
unfolding vprintf
cut_text = refl

capitals :
    (vprintf 9 (start_vprintf (b'%' ∷ b'#' ∷ b'X' ∷ []) (word 255 ∷ []) blank) >>= λ s.
    ok s.out.text)
    ≡ ok (b'0' ∷ b'x' ∷ b'F' ∷ b'F' ∷ [])
unfolding vprintf
capitals = refl

vprintf_total_example : Yields (Prints two_columns) (vprintf 9 two_columns)
vprintf_total_example = vprintf_total 9 two_columns (omega arith)

vprintf-Signed_example :
    (s' : Vprintf) × (digits : List ℕ) × (vprintf 2
        (start_vprintf (b'%' ∷ b'd' ∷ []) (word 0xFFFFFFD6 ∷ []) blank)
      ≡ ok s')
    × (s'.out.text ≡ b'-' ∷ backwards digits)
    × IsNumeral 10 b'a' 42 digits
vprintf-Signed_example =
    vprintf-Signed b'd' 0 0xFFFFFFD6 [] blank decimal (λ e. absurd (omega arith))
