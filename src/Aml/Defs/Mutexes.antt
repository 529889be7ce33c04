-- ===== src/Aml/Defs/Mutexes.antt =====
-- def_mutex of lethe-aml/aml/defs.c: the key that a mutex is kept under.
use uefi_bare_bones.Prelude.{
  ℕ, ◌≡◌, refl, ap, true, false, List, [], ◌∷◌, ◌++◌, ◌==◌, length, arith, ◌&&◌,
}
use uefi_bare_bones.Aml.Code.{valid_chars, key_len, next_byte}
use uefi_bare_bones.Aml.Code.Names.{valid_first}
use uefi_bare_bones.Aml.Namespace.{same_name, add_child_to_namespace}
use uefi_bare_bones.Aml.Namespace.Children.{key}
use uefi_bare_bones.Aml.Interp.{
  mutex, Host, done, Interp, M, ◌>>=◌, ◌>>◌, put_code, assert, reading, add_object,
}
use uefi_bare_bones.Aml.Interp.Cursor.{step, reading-put_code, ==-same}
use uefi_bare_bones.Aml.Defs.{def_mutex, count_bytes}
use uefi_bare_bones.Aml.Interp.Named.{named}
use uefi_bare_bones.Aml.Defs.Composed.{read_name}

def_mutex-count_bytes :
    (host : Host) (s : Interp) (ns c d e f flags : ℕ) (rest : List ℕ)
    → valid_chars (key c d e f) ≡ true
    → def_mutex host ns (put_code ns (key c d e f ++ (flags ∷ rest)) s)
      ≡ done (tt, named host ns count_bytes (mutex count_bytes flags) (put_code ns rest s))
unfolding def_mutex
def_mutex-count_bytes host s ns c d e f flags rest valid =
    let add : ℕ → M (Unit {0}) =
      λ flags. add_object host ns count_bytes (mutex count_bytes flags) in
    step (λ name. assert (length name == key_len) >> (reading next_byte ns >>= add))
      (read_name ns c d e f (flags ∷ rest) s valid)
      (step add (reading-put_code next_byte ns (flags ∷ rest) s refl) refl)

-- No valid name is the count's bytes.
not_count_bytes :
    (c d e f : ℕ) → valid_chars (key c d e f) ≡ true → same_name (key c d e f) count_bytes ≡ false
not_count_bytes c d e f v =
    let first = valid_first c (d ∷ e ∷ f ∷ []) v in
    let t : (c == 4) ≡ false = ground arith in
    ap (λ b. b && same_name (d ∷ e ∷ f ∷ []) (0 ∷ 0 ∷ 0 ∷ [])) t

-- A mutex whose name is four valid characters is defined, and what each valid name stands for in the
-- namespace is what it stood for before: the mutex is not found under its name.
pub def_mutex-names_kept :
    (host : Host) (s : Interp) (ns c d e f flags : ℕ) (rest : List ℕ)
    → valid_chars (key c d e f) ≡ true
    → (s' : Interp) × (def_mutex host ns (put_code ns (key c d e f ++ (flags ∷ rest)) s)
        ≡ done (tt, s'))
      × ((g h i j : ℕ)
          → valid_chars (key g h i j) ≡ true
          → (s'.aml.spaces ns).children (key g h i j) ≡ (s.aml.spaces ns).children (key g h i j))
unfolding add_child_to_namespace
def_mutex-names_kept host s ns c d e f flags rest valid = (
  named host ns count_bytes (mutex count_bytes flags) (put_code ns rest s),
  def_mutex-count_bytes host s ns c d e f flags rest valid,
  λ g h i j v. rw (==-same ns, not_count_bytes g h i j v) refl,
)
