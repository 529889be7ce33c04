-- ===== src/Aml/DataObjects/Depth.antt =====
-- The data objects of lethe-aml have as much fuel as they need.
use uefi_bare_bones.Prelude.{
  Bool-cases, inl, inr, ℕ, zero, suc, ◌<◌, not, ◌||◌, List, [], ◌∷◌, Option, none, some, ◌==◌,
  length, arith, ◌%◌, ◌^◌,
}
use uefi_bare_bones.Aml.Code.{key_len, valid_name}
use uefi_bare_bones.Aml.Code.Readers.{Leaves, leaves_none, leaves_some}
use uefi_bare_bones.Aml.Namespace.{resolve_name}
use uefi_bare_bones.Aml.Namespace.Depth.{resolve_name-Searches}
use uefi_bare_bones.Aml.Interp.{
  Variable, uninit, str, pkg, buf, byte, short_int, integer, long_int, variable, Host, M, ◌>>=◌,
  pure,
}
use uefi_bare_bones.Aml.Interp.Progress.{
  Within-more, Bound, bind-Bound, pure-Bound, exit-Bound, if-Bound, get_code-Bound, fuel-Bound,
  set_code-Bound, byte-Bound, next_byte-Bound, take_bytes-Bound, parse_length-Bound,
  parse_namestring-Bound, reading-Bound, lift_result-Bound,
}
use uefi_bare_bones.Aml.Interp.Objects.{create_ptr-Bound}
use uefi_bare_bones.Aml.Terms.{little_endian}
use uefi_bare_bones.Aml.Terms.Depth.{little_endian-Bound, term_arg_to_int-Bound}
use uefi_bare_bones.Aml.DataObjects.{
  package_element, populate_package, take_string, package_object, buffer_object, object_switch,
  data_objects, parse_data_object,
}

more_string :
    {n : ℕ} {o : Option (List ℕ × List ℕ)} (b : ℕ)
    → Leaves n o
    → Leaves (suc n) (elim o [ none ↦ none | some r ↦ some (b ∷ r.0, r.1) ])
more_string b leaves_none = leaves_none
more_string b (leaves_some cs rest l) = leaves_some (b ∷ cs) rest (omega arith)

take_string-Leaves : (code : List ℕ) → Leaves (length code) (take_string code)
unfolding take_string
take_string-Leaves [] = leaves_none
take_string-Leaves (b ∷ code) = elim (Bool-cases (b == 0)) [
  | inl t ↦ rw (take_string, t) (leaves_some (b ∷ []) code (omega arith))
  | inr t ↦ rw (take_string, t) (more_string b (take_string-Leaves code))
]

package_element-Bound :
    {ns n : ℕ} {parse_object : M Variable} (host : Host)
    → Bound host.depth ns n parse_object
    → Bound host.depth ns n (package_element parse_object host ns)
package_element-Bound {ns} host p = get_code-Bound (λ code l.
    bind-Bound parse_namestring-Bound (λ name.
      if-Bound (not (valid_name name) || length name == 0)
        (bind-Bound (set_code-Bound code l) (λ u. p))
        (bind-Bound
          (lift_result-Bound ns (λ s. resolve_name host.depth host.fresh s.aml ns name)
            (λ s. resolve_name-Searches host.depth host.fresh s.aml ns name))
          (λ r. pure-Bound (uninit r)))))

populate_package-Bound :
    {ns n : ℕ} {parse_object : M Variable} (host : Host) (num_elements : ℕ)
    → Bound host.depth ns n parse_object
    → Bound host.depth ns n (populate_package parse_object host ns num_elements)
unfolding populate_package
populate_package-Bound host zero p = pure-Bound []
populate_package-Bound host (suc num_elements) p =
    bind-Bound (package_element-Bound host p) (λ element.
      bind-Bound (create_ptr-Bound host (variable (host.fresh key_len) element)) (λ q.
        bind-Bound (populate_package-Bound host num_elements p)
          (λ elements. pure-Bound (q ∷ elements))))

package_object-Bound :
    {ns n : ℕ} {parse_object : M Variable} {count : M ℕ} (host : Host)
    → Bound host.depth ns n parse_object
    → Bound host.depth ns n count
    → Bound host.depth ns n (package_object parse_object host ns count)
package_object-Bound host p c = bind-Bound parse_length-Bound (λ len. bind-Bound c (λ num_elements.
    bind-Bound (populate_package-Bound host (num_elements % 2 ^ 8) p)
      (λ elements. pure-Bound (pkg elements))))

buffer_object-Bound : {ns n : ℕ} (host : Host) → Bound host.depth ns n (buffer_object host ns)
buffer_object-Bound host = bind-Bound parse_length-Bound (λ len.
    bind-Bound (term_arg_to_int-Bound host)
      (λ size. bind-Bound (take_bytes-Bound size) (λ bytes. pure-Bound (buf bytes))))

word-Bound :
    {d ns n : ℕ} (count : ℕ) (make : ℕ → Variable)
    → Bound d ns n (little_endian ns count >>= λ w. pure (make w))
word-Bound count make = bind-Bound (little_endian-Bound count) (λ w. pure-Bound (make w))

object_switch-Bound :
    {ns n : ℕ} {parse_object : M Variable} (host : Host) (op : ℕ)
    → Bound host.depth ns n parse_object
    → Bound host.depth ns n (object_switch parse_object host ns op)
object_switch-Bound host op p = if-Bound (op == 0x00) (pure-Bound (byte 0)) (
    if-Bound (op == 0x01) (pure-Bound (byte 1)) (
      if-Bound (op == 0xFF) (pure-Bound (byte 0xFF)) (
        if-Bound (op == 0x0A) (bind-Bound next_byte-Bound (λ b. pure-Bound (byte b))) (
          if-Bound (op == 0x0B) (word-Bound 2 (λ w. short_int w)) (
            if-Bound (op == 0x0C) (word-Bound 4 (λ w. integer w)) (
              if-Bound (op == 0x0E) (word-Bound 8 (λ w. long_int w)) (
                if-Bound (op == 0x0D)
                  (bind-Bound (reading-Bound take_string take_string-Leaves)
                    (λ t. pure-Bound (str t)))
                  (if-Bound (op == 0x13) (package_object-Bound host p (term_arg_to_int-Bound host))
                    (if-Bound (op == 0x12) (package_object-Bound host p next_byte-Bound)
                      (if-Bound (op == 0x11) (buffer_object-Bound host) exit-Bound))))))))))

data_objects-Bound :
    (host : Host) (ns fuel n : ℕ) → n < fuel → Bound host.depth ns n (data_objects fuel host ns)
unfolding data_objects
data_objects-Bound host ns zero n h = absurd (omega arith)
data_objects-Bound host ns (suc fuel) n h = byte-Bound (λ k e b s l.
    Within-more (omega arith)
      ((object_switch-Bound host b (data_objects-Bound host ns fuel k (omega arith))).bounds s l))

pub parse_data_object-Bound :
    {ns n : ℕ} (host : Host) → Bound host.depth ns n (parse_data_object host ns)
unfolding parse_data_object
parse_data_object-Bound {ns} host =
    fuel-Bound (λ code. data_objects-Bound host ns (suc (length code)) (length code) (omega arith))
