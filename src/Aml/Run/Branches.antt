-- ===== src/Aml/Run/Branches.antt =====
-- def_if_else of lethe-aml/aml/defs.c with the parse_termlist of aml/helpers.c.
use uefi_bare_bones.Prelude.{
  ℕ, suc, ◌+◌, ◌≤◌, ◌<◌, ◌^◌, ◌≡◌, ◌≢◌, refl, ap, ◌∙◌, true, false, List, [], ◌∷◌, ◌++◌, ◌==◌,
  if◌then◌else◌, length, arith, ltb, length-append,
}
use uefi_bare_bones.Aml.Code.{next_byte}
use uefi_bare_bones.Aml.Code.Lengths.{LengthBytes, one}
use uefi_bare_bones.Aml.Interp.{
  Host, Interp, exit, ◌>>=◌, ◌>>◌, pure, code_of, reading, bind, set_code, put_code, advance,
}
use uefi_bare_bones.Aml.Interp.Cursor.{step, reading-put_code, set_code-put_code, get_code-put_code}
use uefi_bare_bones.Aml.Terms.Expressions.{Evaluates}
use uefi_bare_bones.Aml.Defs.{Run, def_if_else}
use uefi_bare_bones.Aml.Defs.Branches.{block, otherwise, def_if_else-block, def_if_else-else_branch}
use uefi_bare_bones.Aml.Run.{next_switch, parse_next, from_start, term_loop, parse_termlist}

-- The lengths that are no opcode of the switch.
no_opcode :
    (run : Run) (host : Host) (ns len : ℕ) (code : List ℕ) (s : Interp)
    → len < 2 ^ 6
    → len ≢ 0x06
    → len ≢ 0x08
    → len ≢ 0x10
    → len ≢ 0x14
    → parse_next run host ns (put_code ns (len ∷ code) s) ≡ exit
unfolding parse_next
no_opcode run host ns len code s l h6 h8 h10 h14 =
    let apart : (n : ℕ) → len ≢ n → (len == n) ≡ false = λ n h. ground arith in
    ap (λ o. bind o (next_switch run host ns))
      (step
        (λ b. if b == 0x5B then (reading next_byte ns >>= λ ext. pure (0x5B00 + ext)) else pure b)
        (reading-put_code next_byte ns (len ∷ code) s refl)
        (ap
          (λ b.
            (if b then (reading next_byte ns >>= λ ext. pure (0x5B00 + ext)) else pure len)
              (put_code ns code s))
          (apart 0x5B (λ e. absurd (omega arith)))))
    ∙ rw
        (
          apart 0xA0 (λ e. absurd (omega arith)),
          apart 0x08 h8,
          apart 0x14 h14,
          apart 0x5B80 (λ e. absurd (omega arith)),
          apart 0x5B81 (λ e. absurd (omega arith)),
          apart 0x5B86 (λ e. absurd (omega arith)),
          apart 0x10 h10,
          apart 0x5B82 (λ e. absurd (omega arith)),
          apart 0x5B01 (λ e. absurd (omega arith)),
          apart 0x06 h6,
          apart 0x8B (λ e. absurd (omega arith)),
          apart 0x5B83 (λ e. absurd (omega arith)),
        )
        refl

from_length :
    (host : Host) (ns len : ℕ) (code end : List ℕ) (s : Interp)
    → length end ≤ length code
    → ((run : Run) → parse_next run host ns (put_code ns (len ∷ code) s) ≡ exit)
    → (c : List ℕ) → parse_termlist host ns (len ∷ code) end (put_code ns c s) ≡ exit
unfolding parse_termlist term_loop
from_length host ns len code end s l e c =
    let fuel = suc (length code) in
    let s1 = put_code ns (len ∷ code) s in
    let more : ltb (length end) (length (len ∷ code)) ≡ true = ground arith in
    let next =
      parse_next (from_start (term_loop fuel host)) host ns >> term_loop fuel host ns end in
    let ends : term_loop (suc fuel) host ns end s1 ≡ exit =
      step (λ code. if ltb (length end) (length code) then next else pure tt)
        (get_code-put_code ns (len ∷ code) s)
        (ap (λ b. (if b then next else pure tt) s1) more
          ∙ ap (λ o. bind o (λ u. term_loop fuel host ns end))
              (e (from_start (term_loop fuel host)))) in
    ap (λ o. bind o (λ u. set_code ns (code_of ns (put_code ns c s))))
      (step (λ u. term_loop (suc fuel) host ns end) (set_code-put_code ns c (len ∷ code) s) ends)

-- An IF whose predicate is not 0, and whose length spans its block and is one byte that is none of
-- the opcodes, ends the run: the list of terms begins at the length, which is read as an opcode.
pub def_if_else-exit :
    (host : Host) (s : Interp) (ns len n : ℕ) (predicate body code : List ℕ)
    → len < 2 ^ 6
    → len ≢ 0x06
    → len ≢ 0x08
    → len ≢ 0x10
    → len ≢ 0x14
    → Evaluates host s ns predicate n
    → n ≢ 0
    → len ≡ 1 + (length predicate + length body)
    → def_if_else
        (parse_termlist host)
        host
        ns
        (put_code ns (block (len ∷ []) predicate body code) s)
      ≡ exit
def_if_else-exit host s ns len n predicate body code l h6 h8 h10 h14 p h size =
    let run = parse_termlist host in
    let whole = predicate ++ (body ++ code) in
    let holds : (n == 0) ≡ false = ground arith in
    let a = length-append predicate (body ++ code) in
    let b = length-append body code in
    def_if_else-block run host s ns len n (len ∷ []) predicate body code (one l) p size
    ∙ ap
        (λ b.
          bind
            ((if b then set_code ns code else run ns (len ∷ whole) code)
              (put_code ns (body ++ code) s))
            (λ u. otherwise run ns len n))
        holds
    ∙ ap (λ o. bind o (λ u. otherwise run ns len n))
        (from_length host ns len whole code s (omega arith)
          (λ r. no_opcode r host ns len whole s l h6 h8 h10 h14) (body ++ code))

-- An IF of any length that spans its block, whose predicate is 0, with an ELSE behind it whose length
-- spans its block and is one byte that is none of the opcodes: it ends the run, since the ELSE's
-- list of terms begins at the ELSE's length, which is read as an opcode.
pub def_if_else-else_exit :
    (host : Host) (s : Interp) (ns len else_len : ℕ)
    (len_bytes predicate body else_body code : List ℕ)
    → LengthBytes len len_bytes
    → Evaluates host s ns predicate 0
    → len ≡ length len_bytes + (length predicate + length body)
    → else_len < 2 ^ 6
    → else_len ≢ 0x06
    → else_len ≢ 0x08
    → else_len ≢ 0x10
    → else_len ≢ 0x14
    → else_len ≡ 1 + length else_body
    → def_if_else
        (parse_termlist host)
        host
        ns
        (put_code ns (block len_bytes predicate body (0xA1 ∷ (else_len ∷ (else_body ++ code)))) s)
      ≡ exit
def_if_else-else_exit host s ns len else_len len_bytes predicate body else_body code k p size l h6
      h8 h10 h14 else_size =
    let run = parse_termlist host in
    let behind = else_body ++ code in
    let a = length-append else_body code in
    def_if_else-else_branch run host s ns len else_len len_bytes predicate body (else_len ∷ [])
      else_body code k p size (one l) else_size
    ∙ ap (λ o. bind o (λ u. advance len (else_len ∷ behind) >>= λ code. set_code ns code))
        (from_length host ns else_len behind code s (omega arith)
          (λ r. no_opcode r host ns else_len behind s l h6 h8 h10 h14) behind)
