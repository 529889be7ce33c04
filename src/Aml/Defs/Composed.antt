-- ===== src/Aml/Defs/Composed.antt =====
-- def_name of lethe-aml/aml/defs.c with the terms that name what it defines, and def_mutex.
use uefi_bare_bones.Prelude.{
  ℕ, suc, ◌≡◌, ◌≢◌, refl, ap, ◌∙◌, true, false, List, [], ◌∷◌, ◌++◌, ◌==◌, length, arith, sym,
}
use mathlib.Core.Path.{subst}
use uefi_bare_bones.Aml.Code.{valid_chars, parse_namestring, key_len}
use uefi_bare_bones.Aml.Code.Names.{segment, parse_namestring-NameBytes, valid_first}
use uefi_bare_bones.Aml.Namespace.{ok, locate_object}
use uefi_bare_bones.Aml.Namespace.Children.{key, locate_object-child}
use uefi_bare_bones.Aml.Interp.{
  Variable, Object, variable, Host, done, Interp, ◌>>=◌, ◌>>◌, put_code, assert, reading,
  add_object,
}
use uefi_bare_bones.Aml.Interp.Cursor.{step, reading-put_code, put_code-code_of}
use uefi_bare_bones.Aml.Interp.Named.{named, code_of-named, child-named, object-named}
use uefi_bare_bones.Aml.Terms.{term_arg_to_int}
use uefi_bare_bones.Aml.Terms.Objects.{ObjectValue}
use uefi_bare_bones.Aml.Terms.Expressions.{name_term, term_arg_to_int-Evaluates}
use uefi_bare_bones.Aml.DataObjects.{parse_data_object}
use uefi_bare_bones.Aml.DataObjects.Literals.{Encodes, parse_data_object-Encodes}
use uefi_bare_bones.Aml.Defs.{def_name}

pub read_name :
    (ns c d e f : ℕ) (rest : List ℕ) (s : Interp)
    → valid_chars (key c d e f) ≡ true
    → reading parse_namestring ns (put_code ns (key c d e f ++ rest) s)
      ≡ done (key c d e f, put_code ns rest s)
read_name ns c d e f rest s v =
    let name = key c d e f in
    reading-put_code parse_namestring ns (name ++ rest) s
      (parse_namestring-NameBytes name name rest
        (segment c (d ∷ e ∷ f ∷ []) (valid_first c (d ∷ e ∷ f ∷ []) v) refl)).0

def_name-Encodes :
    (host : Host) (s : Interp) (ns c d e f : ℕ) (bytes rest : List ℕ) (v : Variable)
    → valid_chars (key c d e f) ≡ true
    → Encodes host s ns v bytes
    → def_name host ns (put_code ns (key c d e f ++ (bytes ++ rest)) s)
      ≡ done (tt, named host ns (key c d e f) (variable (key c d e f) v) (put_code ns rest s))
unfolding def_name
def_name-Encodes host s ns c d e f bytes rest v valid x =
    let name = key c d e f in
    step
      (λ name.
        assert (length name == key_len)
        >> (parse_data_object host ns >>= λ var. add_object host ns name (variable name var)))
      (read_name ns c d e f (bytes ++ rest) s valid)
      (step (λ var. add_object host ns name (variable name var))
        (parse_data_object-Encodes host s ns v bytes rest x) refl)

-- Where four valid characters are defined as an integer of at most 32 bits, a pointer is given for
-- it, and the search for names has fuel, a term behind that names them has its value, and the code
-- goes on behind that term.
pub def_name-term_arg_to_int :
    (host : Host) (s : Interp) (ns fuel c d e f : ℕ) (bytes rest : List ℕ) (v : Variable) (n : ℕ)
    → host.depth ≡ suc fuel
    → host.malloc s.allocated ≢ 0
    → valid_chars (key c d e f) ≡ true
    → Encodes host s ns v bytes
    → ObjectValue host (variable (key c d e f) v) n
    → (s' : Interp) × ((def_name host ns >> term_arg_to_int host ns)
          (put_code ns (key c d e f ++ (bytes ++ (key c d e f ++ rest))) s)
        ≡ done (n, put_code ns rest s'))
def_name-term_arg_to_int host s ns fuel c d e f bytes rest v n depth new valid x value =
    let name = key c d e f in
    let object : Object = variable name v in
    let code = name ++ rest in
    let s' : Interp = named host ns name object (put_code ns code s) in
    let child = child-named host ns name code object s in
    let p = host.malloc s.allocated in
    let found : locate_object host.depth s'.aml ns name false ≡ ok (p, name) =
      ap (λ k. locate_object k s'.aml ns name false) depth
      ∙ locate_object-child fuel s'.aml ns c d e f valid (λ z. new (sym child ∙ z))
      ∙ ap (λ q. ok (q, name)) child in
    let first = valid_first c (d ∷ e ∷ f ∷ []) valid in
    let term =
      name_term c d e f p name (ground arith) (ground arith) found new
        (subst (λ o. ObjectValue host o n) (sym (object-named host ns name code object s)) value) in
    (
      s',
      step (λ u. term_arg_to_int host ns) (def_name-Encodes host s ns c d e f bytes code v valid x)
          (ap (term_arg_to_int host ns)
              (sym (put_code-code_of ns code s' (code_of-named host ns name code object s)))
            ∙ term_arg_to_int-Evaluates host s' ns name rest n term),
    )
