-- ===== src/Aml/Defs/Depth.antt =====
-- The definitions of lethe-aml have as much fuel as they need, and leave no more code than there is,
-- where the lists of terms in them do.
use uefi_bare_bones.Prelude.{
  ℕ, ◌+◌, ◌-◌, ◌≤◌, refl, true, not, List, [], ◌∷◌, ◌==◌, ◌||◌, length, take, arith, ltb,
}
use uefi_bare_bones.Aml.Code.{key_len, trim_name}
use uefi_bare_bones.Aml.Interp.{Host, code_of}
use uefi_bare_bones.Aml.Interp.Progress.{
  bind-Within, Bound, bind-Bound, pure-Bound, exit-Bound, fault-Bound, if-Bound, assert-Bound,
  get_code-Bound, set_code-Bound, put_code-Within, advance-Bound, update-Bound, next_byte-Bound,
  parse_namestring-Bound, spanned-Bound,
}
use uefi_bare_bones.Aml.Interp.Objects.{
  add_object-Bound, add_child-Bound, locate_named-Bound, new_namespace-Bound, set_parent-Bound,
}
use uefi_bare_bones.Aml.Terms.Depth.{term_arg_to_int-Bound, term_arg_to_buffer-Bound}
use uefi_bare_bones.Aml.DataObjects.Depth.{parse_data_object-Bound}
use uefi_bare_bones.Aml.Defs.{
  root, Run, peek, else_branch, def_if_else, last_key, method_scope, method_object, def_method,
  def_name, def_op_region, run_in, def_scope, create_device, def_device, def_alias, def_mutex,
  def_create_word_field,
}

-- A list of terms that begins with at most `n` bytes, in any namespace: it has the fuel that it
-- needs, and leaves its namespace with no more code than there was.
pub record RunBound (d n : ℕ) (run : Run) : Type 0 where
  pub run_bound :
      (ns : ℕ) (start end : List ℕ) (m : ℕ) → length start ≤ n → Bound d ns m (run ns start end)

root-Bound : {d ns n : ℕ} → Bound d ns n root
root-Bound = update-Bound (λ s. s.aml.root) (λ s. s) (λ s. refl)

peek-Bound : {d ns n : ℕ} → Bound d ns n (peek ns)
peek-Bound = get_code-Bound (λ code l.
    bind-Bound next_byte-Bound (λ b. bind-Bound (set_code-Bound code l) (λ u. pure-Bound b)))

else_branch-Bound :
    {d ns n : ℕ} {run : Run} (if_len predicate : ℕ)
    → RunBound d n run
    → Bound d ns n (else_branch run ns if_len predicate)
else_branch-Bound {ns} {n} if_len predicate r = bind-Bound next_byte-Bound (λ op.
    spanned-Bound _ (λ code len l.
      bind-Bound
        (if-Bound (predicate == 0) (advance-Bound len code l (λ end h. r.run_bound ns code end n l))
          (pure-Bound tt))
        (λ u. advance-Bound if_len code l (λ end h. set_code-Bound end h))))

pub def_if_else-Bound :
    {ns n : ℕ} {run : Run} (host : Host)
    → RunBound host.depth n run
    → Bound host.depth ns n (def_if_else run host ns)
unfolding def_if_else
def_if_else-Bound {ns} {n} host r = spanned-Bound _ (λ code len l.
    bind-Bound (term_arg_to_int-Bound host) (λ predicate. advance-Bound len code l (λ end h.
      bind-Bound (if-Bound (predicate == 0) (set_code-Bound end h) (r.run_bound ns code end n l))
        (λ u.
          bind-Bound peek-Bound
            (λ op. if-Bound (op == 0xA1) (else_branch-Bound len predicate r) (pure-Bound tt))))))

last_key-Bound : {d ns n : ℕ} (name : List ℕ) → Bound d ns n (last_key name)
last_key-Bound name = if-Bound (ltb (length name) key_len) fault-Bound (pure-Bound _)

method_scope-Bound :
    {ns n : ℕ} (host : Host) (name : List ℕ) → Bound host.depth ns n (method_scope host ns name)
method_scope-Bound host [] = fault-Bound
method_scope-Bound {ns} host (c ∷ cs) =
    let count = length (c ∷ cs) in
    if-Bound (count == key_len || count == key_len + 1)
      (if-Bound (c == b'\\') root-Bound (
        if-Bound (c == b'^') (update-Bound (λ s. (s.aml.spaces ns).parent) (λ s. s) (λ s. refl))
          (pure-Bound ns)))
      (bind-Bound (locate_named-Bound host ns (take (count - key_len) (c ∷ cs)) true)
        (λ r. pure-Bound r.0))

pub def_method-Bound : {ns n : ℕ} (host : Host) → Bound host.depth ns n (def_method host ns)
unfolding def_method
def_method-Bound {ns} host = spanned-Bound _ (λ code_copy len l.
    bind-Bound parse_namestring-Bound (λ method_name. bind-Bound next_byte-Bound (λ flags.
      get_code-Bound (λ code h. bind-Bound (last_key-Bound method_name) (λ name.
        bind-Bound (new_namespace-Bound host 0 name code h) (λ own.
          bind-Bound (method_scope-Bound host method_name) (λ scope.
            bind-Bound
              (bind-Bound
                (bind-Bound (assert-Bound (not (scope == 0))) (λ u.
                  add_object-Bound host scope name
                    (method_object name flags len code_copy code own)))
                (λ u. set_parent-Bound own scope))
              (λ u. advance-Bound len code_copy l (λ end h. set_code-Bound end h)))))))))

pub def_name-Bound : {ns n : ℕ} (host : Host) → Bound host.depth ns n (def_name host ns)
unfolding def_name
def_name-Bound {ns} host = bind-Bound parse_namestring-Bound (λ name.
    bind-Bound (assert-Bound (length name == key_len))
      (λ u. bind-Bound (parse_data_object-Bound host) (λ var. add_object-Bound host ns name _)))

pub def_op_region-Bound : {ns n : ℕ} (host : Host) → Bound host.depth ns n (def_op_region host ns)
unfolding def_op_region
def_op_region-Bound {ns} host = bind-Bound parse_namestring-Bound (λ name.
    bind-Bound (assert-Bound (length name == key_len)) (λ u. bind-Bound next_byte-Bound (λ space.
      bind-Bound (term_arg_to_int-Bound host) (λ offset.
        bind-Bound (term_arg_to_int-Bound host) (λ len. add_object-Bound host ns name _)))))

run_in-Bound :
    {d ns n : ℕ} {run : Run} (scope : ℕ) (end : List ℕ)
    → RunBound d n run
    → length end ≤ n
    → Bound d ns n (run_in run ns scope end)
run_in-Bound {ns} {n} {run} scope end r l = record {
  bounds = λ s h.
      bind-Within
        ((r.run_bound scope (code_of ns s) end (length (code_of scope s)) h).bounds s (omega arith))
        (λ u s' h'. put_code-Within tt ns n end s' l);
}

pub def_scope-Bound :
    {ns n : ℕ} {run : Run} (host : Host)
    → RunBound host.depth n run
    → Bound host.depth ns n (def_scope run host ns)
unfolding def_scope
def_scope-Bound {ns} host r = spanned-Bound _ (λ code len l. advance-Bound len code l (λ end h.
    bind-Bound parse_namestring-Bound (λ name.
      if-Bound (length name == 0) (bind-Bound root-Bound (λ scope. run_in-Bound scope end r h)) (
        bind-Bound (locate_named-Bound host ns name true) (λ scope.
          if-Bound (not (scope.0 == 0)) (run_in-Bound scope.0 end r h)
            (if-Bound (ltb key_len (length name)) fault-Bound exit-Bound))))))

create_device-Bound :
    {ns n : ℕ} (host : Host) (name : List ℕ) → Bound host.depth ns n (create_device host ns name)
create_device-Bound {ns} host name = get_code-Bound (λ code l.
    if-Bound (ltb key_len (length name))
      (bind-Bound (locate_named-Bound host ns (take (length name - key_len) name) true)
        (λ parent. new_namespace-Bound host parent.0 (trim_name name) code l))
      (new_namespace-Bound host ns name code l))

pub def_device-Bound :
    {ns n : ℕ} {run : Run} (host : Host)
    → RunBound host.depth n run
    → Bound host.depth ns n (def_device run host ns)
unfolding def_device
def_device-Bound {ns} host r = spanned-Bound _ (λ code len l. advance-Bound len code l (λ end h.
    bind-Bound parse_namestring-Bound (λ name.
      bind-Bound (locate_named-Bound host ns name true) (λ found.
        bind-Bound (if-Bound (found.0 == 0) (create_device-Bound host found.1) (pure-Bound found.0))
          (λ device. run_in-Bound device end r h)))))

pub def_alias-Bound : {d ns n : ℕ} → Bound d ns n (def_alias ns)
unfolding def_alias
def_alias-Bound {ns} = bind-Bound parse_namestring-Bound (λ source.
    bind-Bound parse_namestring-Bound (λ alias.
      bind-Bound
        (bind-Bound
          (bind-Bound (assert-Bound (length source == key_len))
            (λ u. assert-Bound (length alias == key_len)))
          (λ u. update-Bound (λ s. (s.aml.spaces ns).children source) (λ s. s) (λ s. refl)))
        (λ ref. bind-Bound (assert-Bound (not (ref == 0))) (λ u. add_child-Bound ns alias ref))))

pub def_mutex-Bound : {ns n : ℕ} (host : Host) → Bound host.depth ns n (def_mutex host ns)
unfolding def_mutex
def_mutex-Bound {ns} host = bind-Bound parse_namestring-Bound (λ name.
    bind-Bound (assert-Bound (length name == key_len))
      (λ u. bind-Bound next_byte-Bound (λ flags. add_object-Bound host ns _ _)))

pub def_create_word_field-Bound :
    {ns n : ℕ} (host : Host) → Bound host.depth ns n (def_create_word_field host ns)
unfolding def_create_word_field
def_create_word_field-Bound {ns} host = bind-Bound (term_arg_to_buffer-Bound host) (λ buffer.
    bind-Bound (term_arg_to_int-Bound host) (λ index. bind-Bound parse_namestring-Bound (λ name.
      bind-Bound (assert-Bound (length name == key_len)) (λ u. add_object-Bound host ns name _))))
