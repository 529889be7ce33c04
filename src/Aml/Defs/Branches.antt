-- ===== src/Aml/Defs/Branches.antt =====
-- def_if_else of lethe-aml/aml/defs.c: where its branches are read from and where the code goes on.
use uefi_bare_bones.Prelude.{
  ℕ, ◌+◌, ◌≡◌, ◌≢◌, refl, ap, ◌∙◌, false, List, ◌∷◌, ◌++◌, ltb, ◌==◌, length, drop, arith,
  if◌then◌else◌, sym, length-append, append_assoc, drop-append,
}
use uefi_bare_bones.Aml.Code.{parse_length, next_byte}
use uefi_bare_bones.Aml.Code.Lengths.{LengthBytes, parse_length-LengthBytes}
use uefi_bare_bones.Aml.Interp.{
  Host, done, Interp, M, ◌>>=◌, ◌>>◌, pure, bind, put_code, set_code, reading, advance, spanned,
  fault,
}
use uefi_bare_bones.Aml.Interp.Cursor.{step, reading-put_code, get_code-put_code, set_code-put_code}
use uefi_bare_bones.Aml.Terms.{term_arg_to_int}
use uefi_bare_bones.Aml.Terms.Expressions.{Evaluates, term_arg_to_int-Evaluates}
use uefi_bare_bones.Aml.Defs.{Run, peek, else_branch, def_if_else}

advance-append :
    (front code : List ℕ) (n : ℕ) (s : Interp)
    → n ≡ length front
    → advance n (front ++ code) s ≡ done (code, s)
advance-append front code n s e =
    let l = length-append front code in
    let enough : ltb (length (front ++ code)) (length front) ≡ false = ground arith in
    ap (λ n. advance n (front ++ code) s) e
    ∙ ap (λ b. (if b then fault else pure (drop (length front) (front ++ code))) s) enough
    ∙ ap (λ c. done (c, s)) (drop-append front code)

spanned-put_code :
    (ns len : ℕ) (bytes code : List ℕ) (s : Interp)
    → LengthBytes len bytes
    → spanned ns (put_code ns (bytes ++ code) s) ≡ done ((bytes ++ code, len), put_code ns code s)
spanned-put_code ns len bytes code s l =
    step (λ code_copy. reading parse_length ns >>= λ len. pure (code_copy, len))
      (get_code-put_code ns (bytes ++ code) s)
      (step (λ len. pure (bytes ++ code, len))
        (reading-put_code parse_length ns (bytes ++ code) s
          (parse_length-LengthBytes len bytes code l))
        refl)

peek-put_code :
    (ns op : ℕ) (code : List ℕ) (s : Interp)
    → peek ns (put_code ns (op ∷ code) s) ≡ done (op, put_code ns (op ∷ code) s)
peek-put_code ns op code s =
    step (λ code. reading next_byte ns >>= λ b. set_code ns code >> pure b)
      (get_code-put_code ns (op ∷ code) s)
      (step (λ b. set_code ns (op ∷ code) >> pure b)
        (reading-put_code next_byte ns (op ∷ code) s refl)
        (step (λ u. pure op) (set_code-put_code ns code (op ∷ code) s) refl))

-- What comes behind the first branch.
abbrev pub otherwise : Run → ℕ → ℕ → ℕ → M (Unit {0})
otherwise run ns if_len predicate =
    peek ns >>= λ op. if op == 0xA1 then else_branch run ns if_len predicate else pure tt

-- The bytes of a block's length, its predicate and its body, with the code behind the block.
abbrev pub block : List ℕ → List ℕ → List ℕ → List ℕ → List ℕ
block len_bytes predicate body code = len_bytes ++ (predicate ++ (body ++ code))

-- The first branch: with a predicate that is not 0 a list of terms is run, and it begins at the
-- block's length.
pub def_if_else-block :
    (run : Run) (host : Host) (s : Interp) (ns len n : ℕ) (len_bytes predicate body code : List ℕ)
    → LengthBytes len len_bytes
    → Evaluates host s ns predicate n
    → len ≡ length len_bytes + (length predicate + length body)
    → def_if_else run host ns (put_code ns (block len_bytes predicate body code) s)
      ≡ bind
          ((if n == 0 then set_code ns code else run ns (block len_bytes predicate body code) code)
            (put_code ns (body ++ code) s))
          (λ u. otherwise run ns len n)
unfolding def_if_else
def_if_else-block run host s ns len n len_bytes predicate body code l p size =
    let whole = block len_bytes predicate body code in
    let front = len_bytes ++ (predicate ++ body) in
    let count : len ≡ length front =
      let a = length-append len_bytes (predicate ++ body) in
      let b = length-append predicate body in omega arith in
    let same : front ++ code ≡ whole =
      append_assoc len_bytes (predicate ++ body) code
      ∙ ap (λ (t : List ℕ). len_bytes ++ t) (append_assoc predicate body code) in
    let branch : ℕ → List ℕ → M (Unit {0}) =
      λ n end. (if n == 0 then set_code ns end else run ns whole end) >> otherwise run ns len n in
    step
      (λ r. term_arg_to_int host ns >>= λ predicate. advance r.1 r.0 >>= λ end.
        (if predicate == 0 then set_code ns end else run ns r.0 end)
        >> otherwise run ns r.1 predicate)
      (spanned-put_code ns len len_bytes (predicate ++ (body ++ code)) s l)
      (step (λ n. advance len whole >>= branch n)
        (term_arg_to_int-Evaluates host s ns predicate (body ++ code) n p)
        (step (branch n)
          (ap (λ c. advance len c (put_code ns (body ++ code) s)) (sym same)
            ∙ advance-append front code len (put_code ns (body ++ code) s) count)
          refl))

-- Where an IF's length spans its own bytes, the predicate and the body, the predicate is 0 and no
-- ELSE follows, the code goes on behind the block.
pub def_if_else-skipped :
    (run : Run) (host : Host) (s : Interp) (ns len op : ℕ) (len_bytes predicate body code : List ℕ)
    → LengthBytes len len_bytes
    → Evaluates host s ns predicate 0
    → len ≡ length len_bytes + (length predicate + length body)
    → op ≢ 0xA1
    → def_if_else run host ns (put_code ns (block len_bytes predicate body (op ∷ code)) s)
      ≡ done (tt, put_code ns (op ∷ code) s)
def_if_else-skipped run host s ns len op len_bytes predicate body code l p size h =
    let no_else : (op == 0xA1) ≡ false = ground arith in
    def_if_else-block run host s ns len 0 len_bytes predicate body (op ∷ code) l p size
    ∙ step (λ u. otherwise run ns len 0) (set_code-put_code ns (body ++ (op ∷ code)) (op ∷ code) s)
        (step (λ op. if op == 0xA1 then else_branch run ns len 0 else pure tt)
          (peek-put_code ns op code s)
          (ap (λ b. (if b then else_branch run ns len 0 else pure tt) (put_code ns (op ∷ code) s))
            no_else))

-- With a predicate of 0, the list of terms of an ELSE is run from the ELSE's length on; what follows
-- it counts the IF's length from there.
pub def_if_else-else_branch :
    (run : Run) (host : Host) (s : Interp) (ns len else_len : ℕ)
    (len_bytes predicate body else_bytes else_body code : List ℕ)
    → LengthBytes len len_bytes
    → Evaluates host s ns predicate 0
    → len ≡ length len_bytes + (length predicate + length body)
    → LengthBytes else_len else_bytes
    → else_len ≡ length else_bytes + length else_body
    → def_if_else run host ns (
        put_code ns (block len_bytes predicate body (0xA1 ∷ (else_bytes ++ (else_body ++ code)))) s)
      ≡ bind
          (run ns (else_bytes ++ (else_body ++ code)) code (put_code ns (else_body ++ code) s))
          (λ u. advance len (else_bytes ++ (else_body ++ code)) >>= λ code. set_code ns code)
def_if_else-else_branch run host s ns len else_len len_bytes predicate body else_bytes else_body
      code l p size k else_size =
    let behind = else_bytes ++ (else_body ++ code) in
    let s1 = put_code ns (else_body ++ code) s in
    let count : else_len ≡ length (else_bytes ++ else_body) =
      let a = length-append else_bytes else_body in omega arith in
    let rest : M (Unit {0}) = advance len behind >>= λ code. set_code ns code in
    def_if_else-block run host s ns len 0 len_bytes predicate body (0xA1 ∷ behind) l p size
    ∙ step (λ u. otherwise run ns len 0)
        (set_code-put_code ns (body ++ (0xA1 ∷ behind)) (0xA1 ∷ behind) s)
        (step (λ op. if op == 0xA1 then else_branch run ns len 0 else pure tt)
          (peek-put_code ns 0xA1 behind s)
          (step
            (λ op. spanned ns >>= λ r.
              (advance r.1 r.0 >>= λ end. run ns r.0 end)
              >> (advance len r.0 >>= λ code. set_code ns code))
            (reading-put_code next_byte ns (0xA1 ∷ behind) s refl)
            (step
              (λ r.
                (advance r.1 r.0 >>= λ end. run ns r.0 end)
                >> (advance len r.0 >>= λ code. set_code ns code))
              (spanned-put_code ns else_len else_bytes (else_body ++ code) s k)
              (ap (λ o. bind o (λ u. rest))
                (step (λ end. run ns behind end)
                  (ap (λ c. advance else_len c s1) (sym (append_assoc else_bytes else_body code))
                    ∙ advance-append (else_bytes ++ else_body) code else_len s1 count)
                  refl)))))
