-- ===== src/Prelude/Bits.antt =====
-- The bit operations at variables: a mask of low bits, and the union of fields that do not overlap.
use Prim.Native.Nat.{
  ℕ, zero, suc, ◌+◌, ◌-◌, ◌*◌, ◌/◌, ◌%◌, ◌^◌, ◌≤◌, ◌<◌, min, max, bit_and, bit_or, digits,
  bit_and-bitwise, bit_or-bitwise,
}
use mathlib.Core.Path.{◌≡◌, refl, sym, ap, ◌∙◌}
use native.Mathlib.Nat.{pow-suc, one-le-pow}
use native.Mathlib.Omega.{arith}

-- `digits` counts its first number down; any bound on the second will do.
module _ (rest : ℕ → ℕ) (op : ℕ → ℕ → ℕ) where
  surplus :
      (bound value other extra : ℕ)
      → value ≤ bound
      → digits rest op (extra + bound) value other ≡ digits rest op bound value other
  surplus bound value other zero h = ap (λ (t : ℕ). digits rest op t value other) (omega arith)
  surplus zero zero other (suc extra) h = ap (λ (t : ℕ). digits rest op t 0 other) e ∙ refl
    where
      e : suc extra + 0 ≡ suc extra
      e = omega arith
  surplus zero (suc value) other (suc extra) h = absurd (omega arith)
  surplus (suc bound) zero other (suc extra) h =
      ap (λ (t : ℕ). digits rest op t 0 other)
        (let e : suc extra + suc bound ≡ suc (suc extra + bound) = omega arith in e)
  surplus (suc bound) (suc value) other (suc extra) h =
      let e : suc extra + suc bound ≡ suc (suc extra + bound) = omega arith in
      rw e (omega (arith, surplus bound (suc value / 2) (other / 2) (suc extra) (omega arith)))

  halve :
      (value other : ℕ)
      → digits rest op (suc value) (suc value) other
        ≡ digits rest op (suc value / 2) (suc value / 2) (other / 2) * 2
          + op (suc value % 2) (other % 2)
  halve value other =
      let half = suc value / 2 in
      let e : (value - half) + half ≡ value = omega arith in
      let s = surplus half half (other / 2) (value - half) (omega arith) in
      ap (λ (t : ℕ). t * 2 + op (suc value % 2) (other % 2))
        (sym (ap (λ (t : ℕ). digits rest op t half (other / 2)) e) ∙ s)

or_halves : (x y : ℕ) → bit_or x y ≡ bit_or (x / 2) (y / 2) * 2 + max (x % 2) (y % 2)
or_halves zero y = rw (bit_or-bitwise 0 y) (rw (bit_or-bitwise (0 / 2) (y / 2)) (omega arith))
or_halves (suc x) y =
    rw (bit_or-bitwise (suc x) y) (rw (bit_or-bitwise (suc x / 2) (y / 2)) (halve (λ t. t) max x y))

and_halves : (x y : ℕ) → bit_and x y ≡ bit_and (x / 2) (y / 2) * 2 + min (x % 2) (y % 2)
and_halves zero y = rw (bit_and-bitwise 0 y) (rw (bit_and-bitwise (0 / 2) (y / 2)) (omega arith))
and_halves (suc x) y =
    rw (bit_and-bitwise (suc x) y)
      (rw (bit_and-bitwise (suc x / 2) (y / 2)) (halve (λ t. 0) min x y))

or_none : (x bound : ℕ) → x ≤ bound → bit_or x 0 ≡ x
or_none zero bound h = refl
or_none (suc x) zero h = absurd (omega arith)
or_none (suc x) (suc bound) h =
    omega (arith, or_halves (suc x) 0, or_none (suc x / 2) bound (omega arith))

and_none : (x bound : ℕ) → x ≤ bound → bit_and x 0 ≡ 0
and_none zero bound h = refl
and_none (suc x) zero h = absurd (omega arith)
and_none (suc x) (suc bound) h =
    omega (arith, and_halves (suc x) 0, and_none (suc x / 2) bound (omega arith))

-- The remainder by twice a number, by its last binary digit.
mod_double : (x p : ℕ) → 0 < p → x % (2 * p) ≡ x / 2 % p * 2 + x % 2
mod_double x p h = grind arith

-- A mask of `k` low bits is the remainder by `2 ^ k`.
pub and_low_mask : (k x : ℕ) → bit_and x (2 ^ k - 1) ≡ x % 2 ^ k
and_low_mask zero x = and_none x x (omega arith) ∙ omega arith
and_low_mask (suc k) x =
    let twice = pow-suc 2 k in
    let some_pow = one-le-pow k 2 in
    ground (
      arith,
      twice,
      some_pow,
      and_halves x (2 ^ suc k - 1),
      and_low_mask k (x / 2),
      mod_double x (2 ^ k) (omega (arith, some_pow)),
    )

-- Fields that do not overlap: a multiple of `2 ^ k` and a number below it.
pub or_apart : (k high low : ℕ) → low < 2 ^ k → bit_or (high * 2 ^ k) low ≡ high * 2 ^ k + low
or_apart zero high low h =
    let e : low ≡ 0 = omega arith in
    rw e (or_none (high * 2 ^ 0) (high * 2 ^ 0) (omega arith) ∙ omega arith)
or_apart (suc k) high low h =
    let e : high * 2 ^ suc k ≡ high * 2 ^ k * 2 =
      omega (arith, ap (λ (t : ℕ). high * t) (pow-suc 2 k)) in
    ground (arith, e, pow-suc 2 k, or_halves (high * 2 ^ suc k) low, or_apart k high (low / 2))

or_swap : (bound x y : ℕ) → x ≤ bound → y ≤ bound → bit_or x y ≡ bit_or y x
or_swap zero x y hx hy = let e : x ≡ y = omega arith in rw e refl
or_swap (suc bound) x y hx hy =
    omega (
      arith,
      or_halves x y,
      or_halves y x,
      or_swap bound (x / 2) (y / 2) (omega arith) (omega arith),
    )

pub or_comm : (x y : ℕ) → bit_or x y ≡ bit_or y x
or_comm x y = or_swap (max x y) x y (omega arith) (omega arith)

-- A mask moved up by `k` digits, of a number moved up by as many.
pub and_shifted : (k x mask : ℕ) → bit_and (x * 2 ^ k) (mask * 2 ^ k) ≡ bit_and x mask * 2 ^ k
and_shifted zero x mask =
    let e : x * 2 ^ 0 ≡ x = omega arith in
    let m : mask * 2 ^ 0 ≡ mask = omega arith in rw (e, m) (omega arith)
and_shifted (suc k) x mask =
    let e : x * 2 ^ suc k ≡ x * 2 ^ k * 2 = omega (arith, ap (λ (t : ℕ). x * t) (pow-suc 2 k)) in
    let m : mask * 2 ^ suc k ≡ mask * 2 ^ k * 2 =
      omega (arith, ap (λ (t : ℕ). mask * t) (pow-suc 2 k)) in
    let r : bit_and x mask * 2 ^ suc k ≡ bit_and x mask * 2 ^ k * 2 =
      omega (arith, ap (λ (t : ℕ). bit_and x mask * t) (pow-suc 2 k)) in
    rw (e, m, r)
      (ground (arith, and_halves (x * 2 ^ k * 2) (mask * 2 ^ k * 2), and_shifted k x mask))
