-- ===== src/Aml/Fields/Offsets.antt =====
-- parse_next_field_elem of lethe-aml/aml/helpers.c: how far a field moves the offset.
use uefi_bare_bones.Prelude.{
  ℕ, ◌+◌, ◌-◌, ◌≡◌, refl, ap, ◌∙◌, true, false, List, [], ◌∷◌, ◌++◌, Option, none, some, ◌==◌,
  length, arith, if◌then◌else◌, length-append,
}
use uefi_bare_bones.Aml.Code.{valid_chars, key_len, next_byte, parse_length, valid_name}
use uefi_bare_bones.Aml.Code.Names.{valid_first, valid_name-chars}
use uefi_bare_bones.Aml.Code.Lengths.{LengthBytes, parse_length-LengthBytes}
use uefi_bare_bones.Aml.Namespace.Children.{key}
use uefi_bare_bones.Aml.Interp.{
  Field, Object, field_offset, Host, done, Interp, M, ◌>>=◌, ◌>>◌, pure, put_code, set_code,
  get_code, reading, take_bytes, add_object,
}
use uefi_bare_bones.Aml.Interp.Cursor.{step, reading-put_code, get_code-put_code, take_bytes-append}
use uefi_bare_bones.Aml.Interp.Named.{named, code_of-named}
use uefi_bare_bones.Aml.Terms.{unread}
use uefi_bare_bones.Aml.Terms.Expressions.{unread-put_code}
use uefi_bare_bones.Aml.Fields.{parse_next_field_elem, elem_switch, named_field}

-- A field of a region at an offset.
abbrev pub field_at : ℕ → ℕ → List ℕ → Field → Object
field_at offset len name parent =
    field_offset (record { offset = offset; len = len; name = name; parent = parent })

-- The element behind its name, in the switch's `default`.
abbrev field_switch : Host → ℕ → ℕ → Field → List ℕ → ℕ → M (Option ℕ)
field_switch host ns offset parent code_copy op =
    unread ns op >> reading (take_bytes key_len) ns >>= λ name.
    if valid_name name
    then named_field host ns code_copy name offset parent
    else (set_code ns code_copy >> pure none)

default_case :
    (host : Host) (ns offset : ℕ) (parent : Field) (code : List ℕ) (c : ℕ) (cs : List ℕ)
    (s : Interp)
    → valid_chars (c ∷ cs) ≡ true
    → parse_next_field_elem host ns offset parent (put_code ns (c ∷ code) s)
      ≡ field_switch host ns offset parent (c ∷ code) c (put_code ns code s)
unfolding parse_next_field_elem
default_case host ns offset parent code c cs s v =
    let valid = valid_first c cs v in
    let t0 : (c == 0x00) ≡ false = ground arith in
    let t1 : (c == 0x01) ≡ false = ground arith in
    let t2 : (c == 0x02) ≡ false = ground arith in
    let t3 : (c == 0x03) ≡ false = ground arith in
    step (λ code_copy. reading next_byte ns >>= elem_switch host ns offset parent code_copy)
      (get_code-put_code ns (c ∷ code) s)
      (step (elem_switch host ns offset parent (c ∷ code))
        (reading-put_code next_byte ns (c ∷ code) s refl) (rw (t0, t1, t2, t3) refl))

named_field-LengthBytes :
    (host : Host) (s : Interp) (ns offset len : ℕ) (parent : Field)
    (code_copy name len_bytes rest : List ℕ)
    → LengthBytes len len_bytes
    → named_field host ns code_copy name offset parent (put_code ns (len_bytes ++ rest) s)
      ≡ done (
        some (length code_copy - length rest),
        named host ns name (field_at offset len name parent) (put_code ns rest s),
      )
named_field-LengthBytes host s ns offset len parent code_copy name len_bytes rest l =
    let s' = named host ns name (field_at offset len name parent) (put_code ns rest s) in
    let moved : List ℕ → Option ℕ = λ code. some (length code_copy - length code) in
    step
      (λ len. add_object host ns name (field_at offset len name parent) >> get_code ns >>= λ code.
        pure (moved code))
      (reading-put_code parse_length ns (len_bytes ++ rest) s
        (parse_length-LengthBytes len len_bytes rest l))
      (ap (λ code. done (moved code, s'))
        (code_of-named host ns name rest (field_at offset len name parent) s))

-- A field that is named by four valid characters is kept under them, at the offset that is given,
-- and moves the offset by the bytes of its name and of its length, whatever the length is.
pub parse_next_field_elem-LengthBytes :
    (host : Host) (s : Interp) (ns offset len c d e f : ℕ) (parent : Field)
    (len_bytes rest : List ℕ)
    → valid_chars (key c d e f) ≡ true
    → LengthBytes len len_bytes
    → parse_next_field_elem host ns offset parent
        (put_code ns (key c d e f ++ (len_bytes ++ rest)) s)
      ≡ done (
        some (4 + length len_bytes),
        named host ns (key c d e f) (field_at offset len (key c d e f) parent) (put_code ns rest s),
      )
parse_next_field_elem-LengthBytes host s ns offset len c d e f parent len_bytes rest v l =
    let name = key c d e f in
    let code = len_bytes ++ rest in
    let both = length-append len_bytes rest in
    let bytes : length (name ++ code) - length rest ≡ 4 + length len_bytes = omega arith in
    let keep : M (Option ℕ) = set_code ns (name ++ code) >> pure none in
    default_case host ns offset parent (d ∷ e ∷ f ∷ code) c (d ∷ e ∷ f ∷ []) s v
    ∙ step
        (λ name.
          if valid_name name
          then named_field host ns (key c d e f ++ code) name offset parent
          else keep)
        (step (λ u. reading (take_bytes key_len) ns) (unread-put_code ns c (d ∷ e ∷ f ∷ code) s)
          (reading-put_code (take_bytes key_len) ns (name ++ code) s (take_bytes-append name code)))
        (ap
            (λ b.
              (if b then named_field host ns (name ++ code) name offset parent else keep)
                (put_code ns code s))
            (valid_name-chars c (d ∷ e ∷ f ∷ []) v)
          ∙ named_field-LengthBytes host s ns offset len parent (name ++ code) name len_bytes rest l
          ∙ ap
              (λ n.
                done (
                  some n,
                  named host ns name (field_at offset len name parent) (put_code ns rest s),
                ))
              bytes)
