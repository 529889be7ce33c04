-- ===== src/Aml/DataObjects/Literals.antt =====
-- parse_data_object of lethe-aml/aml/helpers.c against the encoding of integers, strings and
-- buffers.
use uefi_bare_bones.Prelude.{
  ℕ, suc, ◌^◌, ◌<◌, ◌≡◌, refl, ap, ◌∙◌, false, List, [], ◌∷◌, ◌++◌, some, ◌==◌, length,
  append_assoc,
}
use uefi_bare_bones.Aml.Code.{next_byte, parse_length}
use uefi_bare_bones.Aml.Code.Lengths.{LengthBytes, parse_length-LengthBytes}
use uefi_bare_bones.Aml.Interp.{
  Variable, str, buf, byte, short_int, integer, long_int, Host, done, Interp, M, ◌>>=◌, pure, bind,
  put_code, reading, take_bytes, low_first,
}
use uefi_bare_bones.Aml.Interp.Cursor.{step, reading-put_code, take_bytes-append, get_code-put_code}
use uefi_bare_bones.Aml.Interp.Words.{
  word_bytes, dword_bytes, qword_bytes, low_first-word_bytes, low_first-dword_bytes,
  low_first-qword_bytes,
}
use uefi_bare_bones.Aml.Terms.{term_arg_to_int, little_endian}
use uefi_bare_bones.Aml.Terms.Expressions.{
  Evaluates, term_arg_to_int-Evaluates, little_endian-put_code,
}
use uefi_bare_bones.Aml.DataObjects.{
  take_string, object_switch, data_objects, parse_data_object, buffer_object,
}

-- Characters other than 0, and the 0 behind them.
pub data StringBytes : List ℕ → Type 0 where
  end_of_string : StringBytes (0 ∷ [])
  char : {cs : List ℕ} (c : ℕ) → (c == 0) ≡ false → StringBytes cs → StringBytes (c ∷ cs)

-- The bytes of data, in a namespace that the size of a buffer is read in.
pub data Encodes (host : Host) (s : Interp) (ns : ℕ) : Variable → List ℕ → Type 0 where
  zero_op : Encodes host s ns (byte 0) (0x00 ∷ [])
  one_op : Encodes host s ns (byte 1) (0x01 ∷ [])
  ones_op : Encodes host s ns (byte 0xFF) (0xFF ∷ [])
  byte_prefix : (n : ℕ) → Encodes host s ns (byte n) (0x0A ∷ n ∷ [])
  word_prefix : (n : ℕ) → n < 2 ^ 16 → Encodes host s ns (short_int n) (0x0B ∷ word_bytes n)
  dword_prefix : (n : ℕ) → n < 2 ^ 32 → Encodes host s ns (integer n) (0x0C ∷ dword_bytes n)
  qword_prefix : (n : ℕ) → n < 2 ^ 64 → Encodes host s ns (long_int n) (0x0E ∷ qword_bytes n)
  string_prefix : (cs : List ℕ) → StringBytes cs → Encodes host s ns (str cs) (0x0D ∷ cs)
  buffer_op :
      (len : ℕ) (len_bytes size_bytes bytes : List ℕ)
      → LengthBytes len len_bytes
      → Evaluates host s ns size_bytes (length bytes)
      → Encodes host s ns (buf bytes) (0x11 ∷ (len_bytes ++ (size_bytes ++ bytes)))

take_string-StringBytes :
    (cs rest : List ℕ) → StringBytes cs → take_string (cs ++ rest) ≡ some (cs, rest)
unfolding take_string
take_string-StringBytes _ rest end_of_string = refl
take_string-StringBytes _ rest (char {cs} c h t) =
    rw (take_string, h, take_string-StringBytes cs rest t) refl

buffer_object-put_code :
    (host : Host) (s : Interp) (ns len : ℕ) (len_bytes size_bytes bytes rest : List ℕ)
    → LengthBytes len len_bytes
    → Evaluates host s ns size_bytes (length bytes)
    → buffer_object host ns (put_code ns (len_bytes ++ (size_bytes ++ (bytes ++ rest))) s)
      ≡ done (buf bytes, put_code ns rest s)
buffer_object-put_code host s ns len len_bytes size_bytes bytes rest l z =
    let content : ℕ → M Variable = λ n. reading (take_bytes n) ns >>= λ b. pure (buf b) in
    step (λ len. term_arg_to_int host ns >>= content)
      (reading-put_code parse_length ns _ s
        (parse_length-LengthBytes len len_bytes (size_bytes ++ (bytes ++ rest)) l))
      (step content
        (term_arg_to_int-Evaluates host s ns size_bytes (bytes ++ rest) (length bytes) z)
        (step (λ b. pure (buf b))
          (reading-put_code (take_bytes (length bytes)) ns (bytes ++ rest) s
            (take_bytes-append bytes rest))
          refl))

-- The byte that an object starts with.
from_op :
    (host : Host) (s : Interp) (ns op : ℕ) (code rest : List ℕ) (v : Variable)
    → ((fuel : ℕ)
        → object_switch (data_objects fuel host ns) host ns op (put_code ns code s)
          ≡ done (v, put_code ns rest s))
    → parse_data_object host ns (put_code ns (op ∷ code) s) ≡ done (v, put_code ns rest s)
unfolding parse_data_object data_objects
from_op host s ns op code rest v k =
    step (λ c. data_objects (suc (length c)) host ns) (get_code-put_code ns (op ∷ code) s)
      (step (object_switch (data_objects (length (op ∷ code)) host ns) host ns)
        (reading-put_code next_byte ns (op ∷ code) s refl) (k (length (op ∷ code))))

-- A word, and what is made of it.
word :
    (host : Host) (s : Interp) (ns n : ℕ) (bytes rest : List ℕ) (make : ℕ → Variable)
    → low_first bytes ≡ n
    → bind (little_endian ns (length bytes) (put_code ns (bytes ++ rest) s)) (λ n. pure (make n))
      ≡ done (make n, put_code ns rest s)
word host s ns n bytes rest make e =
    step (λ n. pure (make n)) (little_endian-put_code ns s bytes rest n e) refl

-- An integer, a string or a buffer with its bytes at `ns->code` is read back, and the code goes on
-- behind it.
pub parse_data_object-Encodes :
    (host : Host) (s : Interp) (ns : ℕ) (v : Variable) (bytes rest : List ℕ)
    → Encodes host s ns v bytes
    → parse_data_object host ns (put_code ns (bytes ++ rest) s) ≡ done (v, put_code ns rest s)
parse_data_object-Encodes host s ns v _ rest zero_op =
    from_op host s ns 0x00 rest rest v (λ f. refl)
parse_data_object-Encodes host s ns v _ rest one_op = from_op host s ns 0x01 rest rest v (λ f. refl)
parse_data_object-Encodes host s ns v _ rest ones_op =
    from_op host s ns 0xFF rest rest v (λ f. refl)
parse_data_object-Encodes host s ns v _ rest (byte_prefix n) =
    from_op host s ns 0x0A (n ∷ rest) rest v
      (λ f. step (λ b. pure (byte b)) (reading-put_code next_byte ns (n ∷ rest) s refl) refl)
parse_data_object-Encodes host s ns v _ rest (word_prefix n h) =
    from_op host s ns 0x0B (word_bytes n ++ rest) rest v
      (λ f. word host s ns n (word_bytes n) rest (λ n. short_int n) (low_first-word_bytes n h))
parse_data_object-Encodes host s ns v _ rest (dword_prefix n h) =
    from_op host s ns 0x0C (dword_bytes n ++ rest) rest v
      (λ f. word host s ns n (dword_bytes n) rest (λ n. integer n) (low_first-dword_bytes n h))
parse_data_object-Encodes host s ns v _ rest (qword_prefix n h) =
    from_op host s ns 0x0E (qword_bytes n ++ rest) rest v
      (λ f. word host s ns n (qword_bytes n) rest (λ n. long_int n) (low_first-qword_bytes n h))
parse_data_object-Encodes host s ns v _ rest (string_prefix cs h) =
    from_op host s ns 0x0D (cs ++ rest) rest v (λ f.
      step (λ string. pure (str string))
        (reading-put_code take_string ns (cs ++ rest) s (take_string-StringBytes cs rest h)) refl)
parse_data_object-Encodes host s ns v _ rest (buffer_op len len_bytes size_bytes bytes l z) =
    from_op host s ns 0x11 ((len_bytes ++ (size_bytes ++ bytes)) ++ rest) rest v (λ f.
      ap (λ code. buffer_object host ns (put_code ns code s))
        (append_assoc len_bytes (size_bytes ++ bytes) rest
          ∙ ap (λ (t : List ℕ). len_bytes ++ t) (append_assoc size_bytes bytes rest))
      ∙ buffer_object-put_code host s ns len len_bytes size_bytes bytes rest l z)
