-- ===== src/Aml/Terms/Depth.antt =====
-- The terms of lethe-aml have as much fuel as they need.
use uefi_bare_bones.Prelude.{
  ℕ, zero, suc, ◌-◌, ◌^◌, ◌≤◌, ◌<◌, Bool, false, ◌∷◌, ◌==◌, ltb, length, choice, arith, ◌||◌,
}
use uefi_bare_bones.Aml.Code.{key_len}
use uefi_bare_bones.Aml.Interp.{
  NamedField, Variable, uninit, str, pkg, buf, byte, short_int, integer, long_int, Object, hack,
  method, region, variable, field_offset, mutex, word_field, Host, Interp, M, code_of,
}
use uefi_bare_bones.Aml.Interp.Progress.{
  Within, Within-more, bind-Within, Bound, bind-Bound, pure-Bound, exit-Bound, fault-Bound,
  if-Bound, get_code-Bound, fuel-Bound, set_code-Bound, put_code-Within, byte-Bound,
  next_byte-Bound, take_bytes-Bound,
}
use uefi_bare_bones.Aml.Interp.Objects.{locate_named-Bound, object_at-Bound}
use uefi_bare_bones.Aml.Terms.{
  read_mem, read_io, little_endian, unread, named_object, skip_key, variable_value, read_len,
  field_value, object_value, named_value, truth, two_terms, logical_and, term_switch, terms,
  term_arg_to_int, buffer_value, term_arg_to_buffer,
}

pub little_endian-Bound : {d ns n : ℕ} (count : ℕ) → Bound d ns n (little_endian ns count)
little_endian-Bound count = bind-Bound (take_bytes-Bound count) (λ b. pure-Bound _)

named_object-Bound : {ns n : ℕ} (host : Host) → Bound host.depth ns n (named_object host ns)
named_object-Bound {ns} host = get_code-Bound (λ code l.
    bind-Bound (take_bytes-Bound key_len) (λ name.
      bind-Bound (bind-Bound (set_code-Bound code l) (λ u. locate_named-Bound host ns name false))
        (λ r. pure-Bound r.0)))

skip_key-Bound : {d ns n : ℕ} → Bound d ns n (skip_key ns)
skip_key-Bound = bind-Bound (take_bytes-Bound key_len) (λ name. pure-Bound tt)

variable_value-Bound : {d ns n : ℕ} (v : Variable) → Bound d ns n (variable_value v)
variable_value-Bound (uninit x) = exit-Bound
variable_value-Bound (str x) = exit-Bound
variable_value-Bound (pkg x) = exit-Bound
variable_value-Bound (buf x) = exit-Bound
variable_value-Bound (byte x) = pure-Bound x
variable_value-Bound (short_int x) = pure-Bound x
variable_value-Bound (integer x) = pure-Bound x
variable_value-Bound (long_int x) = exit-Bound

read_len-Bound : {d ns n : ℕ} (access_type : ℕ) → Bound d ns n (read_len access_type)
read_len-Bound a = if-Bound (a == 0 || a == 1) (pure-Bound 8) (
    if-Bound (a == 2) (pure-Bound 16)
      (if-Bound (a == 3) (pure-Bound 32) (if-Bound (a == 4) (pure-Bound 64) exit-Bound)))

field_value-Bound :
    {ns n : ℕ} (host : Host) (f : NamedField) → Bound host.depth ns n (field_value host f)
unfolding field_value read_mem read_io
field_value-Bound host f = bind-Bound (read_len-Bound f.parent.access_type) (λ len.
    if-Bound (f.parent.region.region_space == 0)
      (if-Bound (len == 8 || len == 16 || len == 32 || len == 64) (pure-Bound _) exit-Bound)
      (if-Bound (f.parent.region.region_space == 1)
        (if-Bound (len == 8 || len == 16 || len == 32) (pure-Bound _) exit-Bound) exit-Bound))

object_value-Bound :
    {ns n : ℕ} (host : Host) (o : Object) → Bound host.depth ns n (object_value host o)
unfolding object_value
object_value-Bound host hack = exit-Bound
object_value-Bound host (method m) = pure-Bound 0
object_value-Bound host (region r) = pure-Bound 0
object_value-Bound host (variable l v) = variable_value-Bound v
object_value-Bound host (field_offset f) = field_value-Bound host f
object_value-Bound host (mutex name flags) = pure-Bound 0
object_value-Bound host (word_field name buffer index) = pure-Bound 0

named_value-Bound : {ns n : ℕ} (host : Host) → Bound host.depth ns n (named_value host ns)
unfolding named_value
named_value-Bound host = bind-Bound (named_object-Bound host) (λ obj.
    if-Bound (obj == 0) exit-Bound (
      bind-Bound (object_at-Bound obj)
        (λ object. bind-Bound skip_key-Bound (λ u. object_value-Bound host object))))

two_terms-Bound :
    {d ns n : ℕ} {term : M ℕ} (test : ℕ → ℕ → Bool)
    → Bound d ns n term
    → Bound d ns n (two_terms term test)
two_terms-Bound test t = bind-Bound t (λ a. bind-Bound t (λ b. pure-Bound (truth (test a b))))

-- A byte that is put back.
pub unread-Within :
    {d : ℕ} (ns n b : ℕ) (s : Interp)
    → length (code_of ns s) ≤ n
    → Within d ns (suc n) (unread ns b s)
unread-Within ns n b s l = put_code-Within tt ns (suc n) (b ∷ code_of ns s) s (omega arith)

-- An operator and its terms, or a name that the operator's byte belongs to.
term_switch-Within :
    (term : M ℕ) (host : Host) (ns k op : ℕ) (s : Interp)
    → Bound host.depth ns k term
    → length (code_of ns s) ≤ k
    → Within host.depth ns (suc k) (term_switch term host ns op s)
term_switch-Within term host ns k op s t l =
    let goal : M ℕ → Type 0 = λ m. Within host.depth ns (suc k) (m s) in
    let kept : (m : M ℕ) → Bound host.depth ns k m → goal m =
      λ m b. Within-more (omega arith) (b.bounds s l) in
    choice goal (op == 0x00) (kept _ (pure-Bound 0)) (
      choice goal (op == 0x01) (kept _ (pure-Bound 1)) (
        choice goal (op == 0xFF) (kept _ (pure-Bound (2 ^ 64 - 1))) (
          choice goal (op == 0x0A) (kept _ next_byte-Bound) (
            choice goal (op == 0x0B) (kept _ (little_endian-Bound 2)) (
              choice goal (op == 0x0C) (kept _ (little_endian-Bound 4)) (
                choice goal (op == 0x92) (kept _ (bind-Bound t (λ p. pure-Bound (truth (p == 0)))))
                  (choice goal (op == 0x93) (kept _ (two_terms-Bound (λ a b. a == b) t)) (
                    choice goal (op == 0x90) (kept _ (two_terms-Bound logical_and t)) (
                      choice goal (op == 0x95) (kept _ (two_terms-Bound (λ a b. ltb a b) t)) (
                        choice goal (op == 0x94) (kept _ (two_terms-Bound (λ a b. ltb b a) t)) (
                          bind-Within (unread-Within ns k op s l)
                            (λ u s' h. (named_value-Bound host).bounds s' h))))))))))))

terms-Bound : (host : Host) (ns fuel n : ℕ) → n < fuel → Bound host.depth ns n (terms fuel host ns)
unfolding terms
terms-Bound host ns zero n h = absurd (omega arith)
terms-Bound host ns (suc fuel) n h = byte-Bound (λ k e b s l. Within-more (omega arith) (
    term_switch-Within (terms fuel host ns) host ns k b s (terms-Bound host ns fuel k (omega arith))
      l))

pub term_arg_to_int-Bound :
    {ns n : ℕ} (host : Host) → Bound host.depth ns n (term_arg_to_int host ns)
unfolding term_arg_to_int
term_arg_to_int-Bound {ns} host =
    fuel-Bound (λ code. terms-Bound host ns (suc (length code)) (length code) (omega arith))

buffer_value-Bound : {d ns n : ℕ} (o : Object) → Bound d ns n (buffer_value ns o)
buffer_value-Bound (variable l (buf bytes)) = bind-Bound skip_key-Bound (λ u. pure-Bound bytes)
buffer_value-Bound (variable l (uninit x)) = exit-Bound
buffer_value-Bound (variable l (str x)) = exit-Bound
buffer_value-Bound (variable l (pkg x)) = exit-Bound
buffer_value-Bound (variable l (byte x)) = exit-Bound
buffer_value-Bound (variable l (short_int x)) = exit-Bound
buffer_value-Bound (variable l (integer x)) = exit-Bound
buffer_value-Bound (variable l (long_int x)) = exit-Bound
buffer_value-Bound hack = exit-Bound
buffer_value-Bound (method m) = exit-Bound
buffer_value-Bound (region r) = exit-Bound
buffer_value-Bound (field_offset f) = exit-Bound
buffer_value-Bound (mutex name flags) = exit-Bound
buffer_value-Bound (word_field name buffer index) = exit-Bound

pub term_arg_to_buffer-Bound :
    {ns n : ℕ} (host : Host) → Bound host.depth ns n (term_arg_to_buffer host ns)
unfolding term_arg_to_buffer
term_arg_to_buffer-Bound host = bind-Bound (named_object-Bound host) (λ obj.
    if-Bound (obj == 0) fault-Bound
      (bind-Bound (object_at-Bound obj) (λ object. buffer_value-Bound object)))
