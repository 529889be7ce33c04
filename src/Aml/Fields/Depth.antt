-- ===== src/Aml/Fields/Depth.antt =====
-- The elements of a field of lethe-aml have as much fuel as they need.
use mathlib.Core.Path.{subst}
use uefi_bare_bones.Prelude.{
  sym, ℕ, zero, suc, ◌-◌, ◌≤◌, ◌<◌, false, not, List, Option, none, some, ◌==◌, if◌then◌else◌,
  length, choice, length-drop, take, drop, ltb, arith, bit_and,
}
use uefi_bare_bones.Aml.Code.{key_len, valid_name, next_byte}
use uefi_bare_bones.Aml.Code.Readers.{Leaves, leaves_none, leaves_some}
use uefi_bare_bones.Aml.Namespace.{Aml}
use uefi_bare_bones.Aml.Namespace.Depth.{HasParents}
use uefi_bare_bones.Aml.Interp.{
  Field, Object, hack, method, region, variable, field_offset, mutex, word_field, Host, Interp,
  Outcome, exit, undefined, past_depth, M, ◌>>=◌, ◌>>◌, pure, code_of, reading, bind, done,
  take_bytes, set_code,
}
use uefi_bare_bones.Aml.Interp.Progress.{
  Within, within_done, within_exit, within_undefined, within_past, Within-more, bind-Within, Bound,
  bind-Bound, pure-Bound, exit-Bound, assert-Bound, get_code-Bound, fuel-Bound, set_code-Bound,
  put_code-Within, advance-Bound, next_byte-Bound, take_bytes-Bound, parse_length-Bound,
  parse_namestring-Bound, next_byte-Within, no_byte-Within, spanned-Bound, reading-Within,
  bind_assoc,
}
use uefi_bare_bones.Aml.Interp.Objects.{add_object-Bound, locate_named-Bound, object_at-Bound}
use uefi_bare_bones.Aml.Terms.{unread}
use uefi_bare_bones.Aml.Terms.Depth.{unread-Within}
use uefi_bare_bones.Aml.Fields.{
  named_field, elem_switch, parse_next_field_elem, next_offset, until_none, field_elems, region_of,
  field_of, def_field, def_index_field,
}

-- An element: where it is done with a length, at most `k` bytes are left, and where it is the last
-- one, at most one more.
data ElemStep (d ns k : ℕ) : Outcome (Option ℕ × Interp) → Type 0 where
  elem : (len : ℕ) (s : Interp) → length (code_of ns s) ≤ k → ElemStep d ns k (done (some len, s))
  no_elem : (s : Interp) → length (code_of ns s) ≤ suc k → ElemStep d ns k (done (none, s))
  elem_exit : ElemStep d ns k exit
  elem_undefined : ElemStep d ns k undefined
  elem_past : (aml : Aml) (q : ℕ) → HasParents d aml q → ElemStep d ns k (past_depth d aml q)

elem_of :
    {d : ℕ} {A : Type 0} {ns k : ℕ} {o : Outcome (A × Interp)} (len : A → ℕ)
    → Within d ns k o
    → ElemStep d ns k (bind o (λ a. pure (some (len a))))
elem_of len (within_done a s l) = elem (len a) s l
elem_of len within_exit = elem_exit
elem_of len within_undefined = elem_undefined
elem_of len (within_past aml q h) = elem_past aml q h

bind-elem :
    {d : ℕ} {A : Type 0} {ns k n : ℕ} {o : Outcome (A × Interp)} {f : A → M (Option ℕ)}
    → Within d ns n o
    → ((a : A) (s : Interp) → length (code_of ns s) ≤ n → ElemStep d ns k (f a s))
    → ElemStep d ns k (bind o f)
bind-elem (within_done a s l) h = h a s l
bind-elem within_exit h = elem_exit
bind-elem within_undefined h = elem_undefined
bind-elem (within_past aml q p) h = elem_past aml q p

take_key-Within :
    {d : ℕ} (ns k : ℕ) (s : Interp)
    → length (code_of ns s) ≤ suc k
    → Within d ns k (reading (take_bytes key_len) ns s)
take_key-Within ns k s l =
    let code = code_of ns s in
    let d = length-drop key_len code in
    reading-Within ns k (take_bytes key_len) s (
      choice (λ (o : Option (List ℕ × List ℕ)). Leaves k o) (ltb (length code) key_len) leaves_none
        (leaves_some (take key_len code) (drop key_len code) (omega arith)))

named_field-elem :
    (host : Host) (ns k : ℕ) (code_copy name : List ℕ) (offset : ℕ) (parent : Field) (s : Interp)
    → length (code_of ns s) ≤ k
    → ElemStep host.depth ns k (named_field host ns code_copy name offset parent s)
named_field-elem host ns k code_copy name offset parent s l =
    bind-elem (parse_length-Bound.bounds s l) (λ len s1 l1.
      bind-elem
        ((bind-Bound (add_object-Bound host ns name _)
            (λ u. get_code-Bound (λ c h. pure-Bound c))).bounds
          s1 l1)
        (λ code s2 l2. elem (length code_copy - length code) s2 l2))

default_elem :
    (host : Host) (ns k op : ℕ) (code_copy : List ℕ) (offset : ℕ) (parent : Field) (s : Interp)
    → length (code_of ns s) ≤ k
    → length code_copy ≤ suc k
    → ElemStep host.depth ns k (
        (unread ns op >> reading (take_bytes key_len) ns >>= λ name.
        if valid_name name
        then named_field host ns code_copy name offset parent
        else (set_code ns code_copy >> pure none))
          s)
default_elem host ns k op code_copy offset parent s l c =
    bind-elem
      (bind-Within {f = λ u. reading (take_bytes key_len) ns} (unread-Within ns k op s l)
        (λ u s1 l1. take_key-Within ns k s1 l1))
      (λ name s2 l2.
        choice (λ (m : M (Option ℕ)). ElemStep host.depth ns k (m s2)) (valid_name name)
          (named_field-elem host ns k code_copy name offset parent s2 l2)
          (bind-elem {f = λ u. pure none} (put_code-Within tt ns (suc k) code_copy s2 c)
            (λ u s3 l3. no_elem s3 l3)))

next_elem :
    (host : Host) (ns k offset : ℕ) (parent : Field) (s : Interp)
    → length (code_of ns s) ≤ suc k
    → ElemStep host.depth ns k (parse_next_field_elem host ns offset parent s)
unfolding parse_next_field_elem
next_elem host ns k offset parent s l = bind-elem (next_byte-Within ns k s l) (λ op s1 l1.
    let goal : M (Option ℕ) → Type 0 = λ m. ElemStep host.depth ns k (m s1) in
    choice goal (op == 0x00) (elem_of (λ len. len) (parse_length-Bound.bounds s1 l1)) (
      choice goal (op == 0x01) (elem_of (λ x. 2) ((take_bytes-Bound 2).bounds s1 l1)) (
        choice goal (op == 0x02) elem_exit (
          choice goal (op == 0x03) (elem_of (λ x. 3) ((take_bytes-Bound 3).bounds s1 l1))
            (default_elem host ns k op (code_of ns s) offset parent s1 l1 l)))))

after_elem :
    {d ns k : ℕ} {o : Outcome (Option ℕ × Interp)} (more : ℕ → M (Unit {0}))
    → ElemStep d ns k o
    → ((len : ℕ) → Bound d ns k (more len))
    → Within d ns (suc k) (bind o (until_none more))
after_elem more (elem len s l) h = Within-more (omega arith) ((h len).bounds s l)
after_elem more (no_elem s l) h = within_done tt s l
after_elem more elem_exit h = within_exit
after_elem more elem_undefined h = within_undefined
after_elem more (elem_past aml q p) h = within_past aml q p

field_elems-Bound :
    (host : Host) (ns fuel n offset : ℕ) (parent : Field)
    → n < fuel
    → Bound host.depth ns n (field_elems fuel host ns offset parent)
unfolding field_elems parse_next_field_elem
field_elems-Bound host ns zero n offset parent h = absurd (omega arith)
field_elems-Bound host ns (suc fuel) zero offset parent h = record {
  bounds = λ s l.
      subst (λ (o : Outcome (Unit {0} × Interp)). Within host.depth ns 0 o)
        (sym (
          bind_assoc (reading next_byte ns s) (elem_switch host ns offset parent (code_of ns s))
            (until_none (λ len. field_elems fuel host ns (next_offset offset len) parent))))
        (no_byte-Within ns 0 s _ l);
}
field_elems-Bound host ns (suc fuel) (suc k) offset parent h = record {
  bounds = λ s l.
      after_elem (λ len. field_elems fuel host ns (next_offset offset len) parent)
        (next_elem host ns k offset parent s l)
        (λ len. field_elems-Bound host ns fuel k (next_offset offset len) parent (omega arith));
}

region_of-Bound : {d ns n : ℕ} (o : Object) → Bound d ns n (region_of o)
region_of-Bound hack = exit-Bound
region_of-Bound (method m) = exit-Bound
region_of-Bound (region r) = pure-Bound r
region_of-Bound (variable l v) = exit-Bound
region_of-Bound (field_offset f) = exit-Bound
region_of-Bound (mutex name flags) = exit-Bound
region_of-Bound (word_field name buffer index) = exit-Bound

pub def_field-Bound : {ns n : ℕ} (host : Host) → Bound host.depth ns n (def_field host ns)
unfolding def_field
def_field-Bound {ns} host = spanned-Bound _ (λ code_copy len l.
    bind-Bound parse_namestring-Bound (λ name.
      bind-Bound (locate_named-Bound host ns name false) (λ obj.
        bind-Bound next_byte-Bound (λ flags.
          bind-Bound
            (bind-Bound (bind-Bound (assert-Bound (not (obj.0 == 0))) (λ u. object_at-Bound obj.0))
              (λ o. region_of-Bound o))
            (λ region. bind-Bound (assert-Bound (bit_and flags 0x80 == 0)) (λ u.
              bind-Bound
                (fuel-Bound (λ code.
                  field_elems-Bound host ns (suc (length code)) (length code) 0
                    (field_of flags region) (omega arith)))
                (λ u. advance-Bound len code_copy l (λ end h. set_code-Bound end h))))))))

pub def_index_field-Bound : {d ns n : ℕ} → Bound d ns n (def_index_field ns)
unfolding def_index_field
def_index_field-Bound =
    spanned-Bound _
      (λ code_copy len l. advance-Bound len code_copy l (λ end h. set_code-Bound end h))
