-- ===== src/Aml/Interface/Sleep.antt =====
-- execute_sleep of lethe-aml/aml/interface.c: what is written to the control registers.
use uefi_bare_bones.Prelude.{
  ℕ, ◌+◌, ◌*◌, ◌%◌, ◌-◌, ◌<◌, ◌^◌, ◌≡◌, ◌≢◌, refl, ap, ◌∙◌, false, List, [], ◌∷◌, ◌==◌, arith,
  bit_or, bit_and, shl, or_apart, or_comm,
}
use uefi_bare_bones.Aml.Interp.{
  Variable, byte, short_int, integer, long_int, pkg, variable, Interp, done,
}
use uefi_bare_bones.Aml.Interface.{Fadt, variable_to_int, sleep_word, execute_sleep}

-- The integers that a variable can have.
pub data Integer : Variable → ℕ → Type 0 where
  of_byte : (n : ℕ) → Integer (byte n) n
  of_short : (n : ℕ) → Integer (short_int n) n
  of_integer : (n : ℕ) → Integer (integer n) n
  of_long : (n : ℕ) → Integer (long_int n) n

variable_to_int-Integer : (v : Variable) (n : ℕ) → Integer v n → variable_to_int v ≡ n
unfolding variable_to_int
variable_to_int-Integer _ _ (of_byte n) = refl
variable_to_int-Integer _ _ (of_short n) = refl
variable_to_int-Integer _ _ (of_integer n) = refl
variable_to_int-Integer _ _ (of_long n) = refl

-- "_S5_"
abbrev pub s5 : List ℕ
s5 = b'_' ∷ b'S' ∷ b'5' ∷ b'_' ∷ []

-- A sleep type of three bits stands above the ten bits below it, with the bit that starts the sleep.
sleep_word-bits : (n : ℕ) → n < 8 → sleep_word n ≡ 2 ^ 13 + n * 2 ^ 10
sleep_word-bits n h =
    let low : shl n 10 % 2 ^ 64 ≡ n * 2 ^ 10 = omega arith in
    let both : bit_or (n * 2 ^ 10) 0x2000 ≡ 2 ^ 13 + n * 2 ^ 10 =
      or_comm (n * 2 ^ 10) 0x2000 ∙ or_apart 13 1 (n * 2 ^ 10) (omega arith) ∙ omega arith in
    ap (λ k. bit_or k 0x2000 % 2 ^ 16) low ∙ ap (λ k. k % 2 ^ 16) both ∙ omega arith

-- Where the root has a package "_S5_" with two integers below 8 first, and the hardware is not
-- reduced, the sleep state 5 writes each of them, shifted to its place and with the bit that starts
-- the sleep, to its control register, and changes nothing in the state.
pub execute_sleep-registers :
    (fadt : Fadt) (s : Interp) (p a b : ℕ) (label la lb elements : List ℕ) (va vb : Variable)
    (m n : ℕ)
    → (s.aml.spaces s.aml.root).children s5 ≡ p
    → p ≢ 0
    → s.objects p ≡ variable label (pkg (a ∷ b ∷ elements))
    → s.objects a ≡ variable la va
    → s.objects b ≡ variable lb vb
    → Integer va m
    → Integer vb n
    → m < 8
    → n < 8
    → bit_and fadt.flags (2 ^ 20) ≡ 0
    → execute_sleep fadt 5 s
      ≡ done (
        (fadt.pm1a_control_block % 2 ^ 16, 2 ^ 13 + m * 2 ^ 10)
            ∷ (fadt.pm1b_control_block % 2 ^ 16, 2 ^ 13 + n * 2 ^ 10)
            ∷ [],
        s,
      )
unfolding execute_sleep
execute_sleep-registers fadt s p a b label la lb elements va vb m n child h op oa ob ia ib hm hn
      fl =
    let t1 : (p == 0) ≡ false = ground arith in
    let t2 : (m == 2 ^ 64 - 1) ≡ false = ground arith in
    let t3 : (n == 2 ^ 64 - 1) ≡ false = ground arith in
    let wa = sleep_word-bits m hm in
    let wb = sleep_word-bits n hn in
    rw
      (
        child,
        t1,
        op,
        oa,
        ob,
        variable_to_int-Integer va m ia,
        variable_to_int-Integer vb n ib,
        t2,
        t3,
        fl,
        wa,
        wb,
      )
      refl
