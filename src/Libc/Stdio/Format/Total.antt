-- ===== src/Libc/Stdio/Format/Total.antt =====
-- vprintf of lethe-libc/stdio.c ends, counts what it prints, and keeps flags from one conversion to
-- the next.
use native.Mathlib.Decide.{ℕ_discrete}
use uefi_bare_bones.Prelude.{
  choice, ℕ, zero, suc, ◌<◌, ◌≡◌, ◌≢◌, refl, true, false, List, [], ◌∷◌, arith, ◌==◌, length,
}
use uefi_bare_bones.Libc.Stdio.Format.{Result, Vprintf, next_char, vprintf_round, vprintf}
use uefi_bare_bones.Libc.Stdio.Format.Advance.{
  Extends, Extends-refl, Extends-trans, putchar-Extends, Keeps, Keeps-refl, Keeps-trans,
}
use uefi_bare_bones.Libc.Stdio.Format.Parse.{
  Yields, yields, fails, bind-Yields, Advances, Advances-trans, quiet,
}
use uefi_bare_bones.Libc.Stdio.Format.Conversions.{convert-Advances}

-- A round, where the terminator is not reached, takes something off the format.
abbrev pub Shortens : Vprintf → Vprintf → Type 0
Shortens s s' = Advances s s' × (length s'.fmt < length s.fmt)

strictly :
    (s s0 : Vprintf) (m : Result Vprintf)
    → s0.out ≡ s.out
    → s0.flags ≡ s.flags
    → length s0.fmt < length s.fmt
    → Yields (Advances s0) m
    → Yields (Shortens s) m
strictly s s0 _ o f l (yields a p) =
    let q = p.fmt in
    yields a
      (Advances-trans (quiet s s0 o (rw f (Keeps-refl s.flags)) (omega arith)) p, omega arith)
strictly s s0 _ o f l fails = fails

vprintf_round-Shortens : (s : Vprintf) → next_char s.fmt ≢ 0 → Yields (Shortens s) (vprintf_round s)
unfolding vprintf_round
vprintf_round-Shortens s n = shorter s.fmt n
  where
    shorter :
        (fmt : List ℕ)
        → next_char fmt ≢ 0
        → Yields (Shortens (record s { fmt = fmt })) (vprintf_round (record s { fmt = fmt }))
    shorter [] n = absurd (n refl)
    shorter (c ∷ fmt) n =
        let s1 : Vprintf = record s { fmt = c ∷ fmt } in
        choice (Yields (Shortens s1)) (c == b'%')
          (strictly s1 (record s { fmt = fmt }) _ refl refl (omega arith)
            (convert-Advances (record s { fmt = fmt })))
          (yields _ (
            record { out = putchar-Extends c s.out; flags = Keeps-refl s.flags; fmt = omega arith },
            omega arith,
          ))

-- What `vprintf` gives, from the variables `s` on.
pub record Prints (s s' : Vprintf) : Type 0 where
  pub out : Extends s.out s'.out
  pub flags : Keeps s.flags s'.flags
  pub ends : next_char s'.fmt ≡ 0

onward :
    (s s1 : Vprintf) (m : Result Vprintf)
    → Advances s s1
    → Yields (Prints s1) m
    → Yields (Prints s) m
onward s s1 _ a (yields s' p) =
    yields s' (record {
      out = Extends-trans a.out p.out;
      flags = Keeps-trans a.flags p.flags;
      ends = p.ends;
    })
onward s s1 _ a fails = fails

-- With fuel above the length of the format, vprintf ends or comes to what C leaves undefined. Where
-- it ends it is at the terminator, the output has grown at its end by as many characters as `idx`
-- counts, and no conversion has taken back the flags for the left side, capitals, short, long or a
-- precision.
pub vprintf_total :
    (fuel : ℕ) (s : Vprintf) → length s.fmt < fuel → Yields (Prints s) (vprintf fuel s)
unfolding vprintf
vprintf_total zero s h = absurd (omega arith)
vprintf_total (suc fuel) s h = elim (ℕ_discrete (next_char s.fmt) 0) [
  | yes e ↦
      let t : (next_char s.fmt == 0) ≡ true = ground arith in
      rw (t, vprintf)
        (yields s (record { out = Extends-refl s.out; flags = Keeps-refl s.flags; ends = e }))
  | no n ↦
      let t : (next_char s.fmt == 0) ≡ false = ground arith in
      rw (t, vprintf)
        (bind-Yields (vprintf_round s) _ (vprintf_round-Shortens s n)
          (λ s1 (a, l). onward s s1 _ a (vprintf_total fuel s1 (omega arith))))
]
