-- ===== src/Aml/Interp/Named.antt =====
-- A new object under a name in a namespace of lethe-aml.
use uefi_bare_bones.Prelude.{ℕ, ◌≡◌, refl, List}
use uefi_bare_bones.Aml.Namespace.{add_child_to_namespace}
use uefi_bare_bones.Aml.Namespace.Paths.{same_name_self}
use uefi_bare_bones.Aml.Interp.{Object, Host, done, Interp, code_of, put_code, add_object}
use uefi_bare_bones.Aml.Interp.Cursor.{==-same}

-- The state with a new object under a name.
abbrev pub named : Host → ℕ → List ℕ → Object → Interp → Interp
named host ns name object s = elim (add_object host ns name object s) [ done r ↦ r.1 | _ ↦ s ]

pub code_of-named :
    (host : Host) (ns : ℕ) (name code : List ℕ) (object : Object) (s : Interp)
    → code_of ns (named host ns name object (put_code ns code s)) ≡ code
unfolding add_child_to_namespace
code_of-named host ns name code object s = let e = ==-same ns in rw (code_of, e) refl

pub child-named :
    (host : Host) (ns : ℕ) (name code : List ℕ) (object : Object) (s : Interp)
    → ((named host ns name object (put_code ns code s)).aml.spaces ns).children name
      ≡ host.malloc s.allocated
unfolding add_child_to_namespace
child-named host ns name code object s = rw (==-same ns, same_name_self name) refl

pub object-named :
    (host : Host) (ns : ℕ) (name code : List ℕ) (object : Object) (s : Interp)
    → (named host ns name object (put_code ns code s)).objects (host.malloc s.allocated) ≡ object
object-named host ns name code object s = rw (==-same (host.malloc s.allocated)) refl
