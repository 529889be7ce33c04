-- ===== src/Aml/Interp/Cursor.antt =====
-- `ns->code` as it is written: what a write is read back as, and what the last of two writes leaves.
use uefi_bare_bones.Prelude.{
  sym, ◌++◌, length, ltb, length-append, take-append, drop-append, ℕ, ◌≡◌, refl, ap, Option, some,
  ◌∙◌, Bool, true, false, List, ◌==◌, if◌then◌else◌, Bool-cases, inl, inr, arith,
}
use native.Mathlib.Decide.{ℕ_discrete}
use mathlib.Core.Path.{subst}
use uefi_bare_bones.Aml.Namespace.{Namespace, locate_object}
use uefi_bare_bones.Aml.Namespace.Recode.{recode, locate_object-recode}
use uefi_bare_bones.Aml.Interp.{
  Interp, Outcome, done, M, bind, code_of, put_code, get_code, set_code, reading, read_with,
  take_bytes,
}

pub ==-same : (n : ℕ) → (n == n) ≡ true
==-same n = ground arith

pub code_of-put_code :
    (ns : ℕ) (code : List ℕ) (s : Interp) → code_of ns (put_code ns code s) ≡ code
code_of-put_code ns code s =
    ap (λ b. (if b then record (s.aml.spaces ns) { code = code } else s.aml.spaces ns).code)
      (==-same ns)

-- The namespace at `q` after two writes, and after the last one.
put_twice :
    (spaces : ℕ → Namespace) (ns q : ℕ) (c d : List ℕ)
    → (if q == ns
        then record (if ns == ns then record (spaces ns) { code = c } else spaces ns) { code = d }
        else if q == ns
        then record (spaces ns) { code = c }
        else spaces q)
      ≡ (if q == ns then record (spaces ns) { code = d } else spaces q)
put_twice spaces ns q c d = elim (Bool-cases (q == ns)) [
  | inl t ↦ rw (t, ==-same ns) refl
  | inr f ↦ rw f refl
]

pub put_code-put_code :
    (ns : ℕ) (c d : List ℕ) (s : Interp) → put_code ns d (put_code ns c s) ≡ put_code ns d s
put_code-put_code ns c d s =
    λ i. record s { aml = record s.aml { spaces = λ q. put_twice s.aml.spaces ns q c d i } }

put_at :
    (spaces : ℕ → Namespace) (ns q : ℕ) (c : List ℕ)
    → (if q == ns then record (spaces ns) { code = c } else spaces q)
      ≡ record (spaces q) { code = if q == ns then c else (spaces q).code }
put_at spaces ns q c = elim (ℕ_discrete q ns) [
  | yes e ↦
      subst
        (λ p.
          (if q == p then record (spaces p) { code = c } else spaces q)
          ≡ record (spaces q) { code = if q == p then c else (spaces q).code })
        e (rw (==-same q) refl)
  | no n ↦ let f : (q == ns) ≡ false = ground arith in rw f refl
]

put_code-recode :
    (ns : ℕ) (c : List ℕ) (s : Interp)
    → (put_code ns c s).aml ≡ recode (λ q. if q == ns then c else (s.aml.spaces q).code) s.aml
put_code-recode ns c s = λ i. record s.aml { spaces = λ q. put_at s.aml.spaces ns q c i }

-- A name is found no matter where the code is.
pub locate_object-put_code :
    (fuel ns : ℕ) (code : List ℕ) (s : Interp) (from : ℕ) (key : List ℕ) (namespace : Bool)
    → locate_object fuel (put_code ns code s).aml from key namespace
      ≡ locate_object fuel s.aml from key namespace
locate_object-put_code fuel ns code s from key namespace =
    ap (λ aml. locate_object fuel aml from key namespace) (put_code-recode ns code s)
    ∙ locate_object-recode (λ q. if q == ns then code else (s.aml.spaces q).code) fuel s.aml from
        key namespace

-- One step of a run: the first operation is done, and the rest goes on from its state.
pub step :
    {A B : Type 0} {o : Outcome (A × Interp)} {a : A} {s : Interp} {r : Outcome (B × Interp)}
    (f : A → M B)
    → o ≡ done (a, s)
    → f a s ≡ r
    → bind o f ≡ r
step f e k = ap (λ o. bind o f) e ∙ k

pub get_code-put_code :
    (ns : ℕ) (c : List ℕ) (s : Interp) → get_code ns (put_code ns c s) ≡ done (c, put_code ns c s)
get_code-put_code ns c s = ap (λ d. done (d, put_code ns c s)) (code_of-put_code ns c s)

pub set_code-put_code :
    (ns : ℕ) (c d : List ℕ) (s : Interp)
    → set_code ns d (put_code ns c s) ≡ done (tt, put_code ns d s)
set_code-put_code ns c d s = ap (λ t. done (tt, t)) (put_code-put_code ns c d s)

pub reading-put_code :
    {A : Type 0} (read : List ℕ → Option (A × List ℕ)) (ns : ℕ) (c : List ℕ) (s : Interp) {a : A}
    {d : List ℕ}
    → read c ≡ some (a, d)
    → reading read ns (put_code ns c s) ≡ done (a, put_code ns d s)
reading-put_code read ns c s {a} {d} e =
    ap (λ k. read_with ns (read k) (put_code ns c s)) (code_of-put_code ns c s)
    ∙ ap (λ o. read_with ns o (put_code ns c s)) e
    ∙ ap (λ t. done (a, t)) (put_code-put_code ns c d s)

-- As many bytes as stand before the rest.
pub take_bytes-append :
    (bytes rest : List ℕ) → take_bytes (length bytes) (bytes ++ rest) ≡ some (bytes, rest)
take_bytes-append bytes rest =
    let enough : ltb (length (bytes ++ rest)) (length bytes) ≡ false =
      let l = length-append bytes rest in ground arith in
    rw (enough, take-append bytes rest, drop-append bytes rest) refl

put_back :
    (spaces : ℕ → Namespace) (ns q : ℕ)
    → (if q == ns then record (spaces ns) { code = (spaces ns).code } else spaces q) ≡ spaces q
put_back spaces ns q = elim (ℕ_discrete q ns) [
  | yes e ↦ subst (λ p. (if q == p then spaces p else spaces q) ≡ spaces q) e (rw (==-same q) refl)
  | no n ↦ let f : (q == ns) ≡ false = ground arith in rw f refl
]

-- The code that is at `ns->code` already.
pub put_code-code_of :
    (ns : ℕ) (code : List ℕ) (s : Interp) → code_of ns s ≡ code → put_code ns code s ≡ s
put_code-code_of ns code s e =
    sym (ap (λ c. put_code ns c s) e)
    ∙ (λ i. record s { aml = record s.aml { spaces = λ q. put_back s.aml.spaces ns q i } })
