-- ===== src/Aml/Terms/Objects.antt =====
-- The names in the terms of lethe-aml: the objects that stand for a number.
use uefi_bare_bones.Prelude.{
  ℕ, ◌+◌, ◌%◌, ◌^◌, ◌≡◌, ◌≢◌, refl, ap, ◌∙◌, false, List, [], ◌∷◌, ◌==◌, if◌then◌else◌, arith,
}
use uefi_bare_bones.Aml.Code.{key_len}
use uefi_bare_bones.Aml.Namespace.{ok, locate_object}
use uefi_bare_bones.Aml.Interp.{
  NamedField, byte, short_int, integer, Object, variable, field_offset, Host, done, Interp, M,
  lift_result, locate_named, debug_exit, object_at, ◌>>=◌, ◌>>◌, pure, bind, put_code, set_code,
  reading, take_bytes,
}
use uefi_bare_bones.Aml.Interp.Cursor.{
  step, get_code-put_code, set_code-put_code, reading-put_code, locate_object-put_code,
  take_bytes-append,
}
use uefi_bare_bones.Aml.Terms.{
  read_len, named_object, skip_key, object_value, named_value, field_value, read_mem, read_io,
}

-- The bits that an access type reads.
pub data AccessLen : ℕ → ℕ → Type 0 where
  any_acc : AccessLen 0 8
  byte_acc : AccessLen 1 8
  word_acc : AccessLen 2 16
  dword_acc : AccessLen 3 32

-- What an object stands for in a term: a number, or what is at its field's address in memory or at
-- its port.
pub data ObjectValue (host : Host) : Object → ℕ → Type 0 where
  of_byte : (label : List ℕ) (n : ℕ) → ObjectValue host (variable label (byte n)) n
  of_short : (label : List ℕ) (n : ℕ) → ObjectValue host (variable label (short_int n)) n
  of_integer : (label : List ℕ) (n : ℕ) → ObjectValue host (variable label (integer n)) n
  in_memory :
      (f : NamedField) (len : ℕ)
      → AccessLen f.parent.access_type len
      → f.parent.region.region_space ≡ 0
      → ObjectValue host
          (field_offset f)
          (host.memory_at ((f.parent.region.offset + f.offset) % 2 ^ 64) len)
  at_port :
      (f : NamedField) (len : ℕ)
      → AccessLen f.parent.access_type len
      → f.parent.region.region_space ≡ 1
      → ObjectValue host
          (field_offset f)
          (host.port_at ((f.parent.region.offset + f.offset) % 2 ^ 64 % 2 ^ 16) len)

read_len-AccessLen :
    (access_type len : ℕ) (s : Interp)
    → AccessLen access_type len
    → read_len access_type s ≡ done (len, s)
read_len-AccessLen _ _ s any_acc = refl
read_len-AccessLen _ _ s byte_acc = refl
read_len-AccessLen _ _ s word_acc = refl
read_len-AccessLen _ _ s dword_acc = refl

read_mem-AccessLen :
    (host : Host) (a address len : ℕ) (s : Interp)
    → AccessLen a len
    → read_mem host address len s ≡ done (host.memory_at address len, s)
unfolding read_mem
read_mem-AccessLen host _ address _ s any_acc = refl
read_mem-AccessLen host _ address _ s byte_acc = refl
read_mem-AccessLen host _ address _ s word_acc = refl
read_mem-AccessLen host _ address _ s dword_acc = refl

read_io-AccessLen :
    (host : Host) (a port len : ℕ) (s : Interp)
    → AccessLen a len
    → read_io host port len s ≡ done (host.port_at port len, s)
unfolding read_io
read_io-AccessLen host _ port _ s any_acc = refl
read_io-AccessLen host _ port _ s byte_acc = refl
read_io-AccessLen host _ port _ s word_acc = refl
read_io-AccessLen host _ port _ s dword_acc = refl

-- The read at a field's address, by its region's space.
abbrev space_read : Host → ℕ → ℕ → ℕ → M ℕ
space_read host space address len =
    if space == 0
    then read_mem host address len
    else if space == 1
    then read_io host (address % 2 ^ 16) len
    else debug_exit

field_value-space_read :
    (host : Host) (f : NamedField) (space len : ℕ) (s : Interp)
    → AccessLen f.parent.access_type len
    → f.parent.region.region_space ≡ space
    → field_value host f s
      ≡ space_read host space ((f.parent.region.offset + f.offset) % 2 ^ 64) len s
unfolding field_value
field_value-space_read host f space len s a e =
    let address = (f.parent.region.offset + f.offset) % 2 ^ 64 in
    step (λ len. space_read host f.parent.region.region_space address len)
      (read_len-AccessLen f.parent.access_type len s a)
      (ap (λ p. space_read host p address len s) e)

pub object_value-ObjectValue :
    (host : Host) (object : Object) (n : ℕ) (s : Interp)
    → ObjectValue host object n
    → object_value host object s ≡ done (n, s)
unfolding object_value
object_value-ObjectValue host _ _ s (of_byte label n) = refl
object_value-ObjectValue host _ _ s (of_short label n) = refl
object_value-ObjectValue host _ _ s (of_integer label n) = refl
object_value-ObjectValue host _ _ s (in_memory f len a e) =
    field_value-space_read host f 0 len s a e
    ∙ read_mem-AccessLen host f.parent.access_type _ len s a
object_value-ObjectValue host _ _ s (at_port f len a e) =
    field_value-space_read host f 1 len s a e
    ∙ read_io-AccessLen host f.parent.access_type _ len s a

-- A key that stays at `ns->code`.
pub named_object-put_code :
    (host : Host) (s : Interp) (ns p : ℕ) (c d e f : ℕ) (key rest : List ℕ)
    → locate_object host.depth s.aml ns (c ∷ d ∷ e ∷ f ∷ []) false ≡ ok (p, key)
    → named_object host ns (put_code ns (c ∷ d ∷ e ∷ f ∷ rest) s)
      ≡ done (p, put_code ns (c ∷ d ∷ e ∷ f ∷ rest) s)
named_object-put_code host s ns p c d e f key rest l =
    let code = c ∷ d ∷ e ∷ f ∷ rest in
    let name = c ∷ d ∷ e ∷ f ∷ [] in
    let look : List ℕ → M ℕ = λ name. locate_named host ns name false >>= λ r. pure r.0 in
    let at : List ℕ → List ℕ → M ℕ = λ code name. set_code ns code >> look name in
    step (λ code. reading (take_bytes key_len) ns >>= at code) (get_code-put_code ns code s)
      (step (at code)
        (reading-put_code (take_bytes key_len) ns code s
          (take_bytes-append (c ∷ d ∷ e ∷ f ∷ []) rest))
        (step (λ u. look name) (set_code-put_code ns rest code s)
          (ap (λ r. bind (lift_result host.depth ns r (put_code ns code s)) (λ r. pure r.0))
            (locate_object-put_code host.depth ns code s ns name false ∙ l))))

pub named_value-put_code :
    (host : Host) (s : Interp) (ns p n : ℕ) (c d e f : ℕ) (key rest : List ℕ)
    → locate_object host.depth s.aml ns (c ∷ d ∷ e ∷ f ∷ []) false ≡ ok (p, key)
    → p ≢ 0
    → ObjectValue host (s.objects p) n
    → named_value host ns (put_code ns (c ∷ d ∷ e ∷ f ∷ rest) s) ≡ done (n, put_code ns rest s)
unfolding named_value
named_value-put_code host s ns p n c d e f key rest l h v =
    let found : (p == 0) ≡ false = ground arith in
    let value : M ℕ = object_at p >>= λ object. skip_key ns >> object_value host object in
    let code = c ∷ d ∷ e ∷ f ∷ rest in
    step
      (λ obj.
        if obj == 0
        then debug_exit
        else object_at obj >>= λ object. skip_key ns >> object_value host object)
      (named_object-put_code host s ns p c d e f key rest l)
      (ap (λ b. (if b then debug_exit else value) (put_code ns code s)) found
        ∙ step (λ u. object_value host (s.objects p))
            (step (λ name. pure tt)
              (reading-put_code (take_bytes key_len) ns code s
                (take_bytes-append (c ∷ d ∷ e ∷ f ∷ []) rest))
              refl)
            (object_value-ObjectValue host (s.objects p) n (put_code ns rest s) v))
