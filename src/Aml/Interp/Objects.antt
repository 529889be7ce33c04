-- ===== src/Aml/Interp/Objects.antt =====
-- The operations of lethe-aml on objects and namespaces leave the code of a namespace where it is.
use native.Mathlib.Decide.{ℕ_discrete}
use mathlib.Core.Path.{subst}
use uefi_bare_bones.Prelude.{
  ℕ, suc, ◌≤◌, ◌≡◌, refl, sym, ap, ◌∙◌, Bool, true, false, List, ◌==◌, if◌then◌else◌, length,
  choice, take, arith,
}
use uefi_bare_bones.Aml.Code.{key_len}
use uefi_bare_bones.Aml.Namespace.{
  Namespace, Aml, write_space, add_child_to_namespace, create_namespace, push_namespace,
  locate_object,
}
use uefi_bare_bones.Aml.Namespace.Depth.{locate_object-Searches}
use uefi_bare_bones.Aml.Interp.{
  set_parent, Object, Host, done, set_aml, create_ptr, next_pointer, add_object, new_namespace,
  locate_named, object_at,
}
use uefi_bare_bones.Aml.Interp.Progress.{
  within_done, Bound, bind-Bound, update-Bound, lift_result-Bound,
}

-- The code of a namespace where another is written with the code that it had.
code-write_space :
    (s : Aml) (p : ℕ) (space : Namespace) (q : ℕ)
    → space.code ≡ (s.spaces p).code
    → ((write_space s p space).spaces q).code ≡ (s.spaces q).code
code-write_space s p space q e = elim (ℕ_discrete q p) [
  | yes k ↦ let t : (q == p) ≡ true = ground arith in rw t (e ∙ ap (λ x. (s.spaces x).code) (sym k))
  | no n ↦ let t : (q == p) ≡ false = ground arith in rw t refl
]

pub add_child-Bound :
    {d ns n : ℕ} (q : ℕ) (name : List ℕ) (p : ℕ)
    → Bound d ns n (λ s. done (tt, set_aml (add_child_to_namespace s.aml q name p) s))
unfolding add_child_to_namespace
add_child-Bound {ns} q name p =
    update-Bound (λ s. tt) (λ s. set_aml (add_child_to_namespace s.aml q name p) s)
      (λ s. code-write_space s.aml q _ ns refl)

-- A pointer that is given away.
next_pointer-Bound : {ns n : ℕ} (host : Host) → Bound host.depth ns n (next_pointer host)
next_pointer-Bound host =
    update-Bound (λ s. host.malloc s.allocated) (λ s. record s { allocated = suc s.allocated })
      (λ s. refl)

pub create_ptr-Bound :
    {ns n : ℕ} (host : Host) (object : Object) → Bound host.depth ns n (create_ptr host object)
create_ptr-Bound host object = bind-Bound (next_pointer-Bound host) (λ p.
    update-Bound (λ s. p) (λ s. record s { objects = λ q. if q == p then object else s.objects q })
      (λ s. refl))

pub add_object-Bound :
    {ns n : ℕ} (host : Host) (q : ℕ) (name : List ℕ) (object : Object)
    → Bound host.depth ns n (add_object host q name object)
add_object-Bound host q name object =
    bind-Bound (create_ptr-Bound host object) (λ p. add_child-Bound q name p)

pub locate_named-Bound :
    {ns n : ℕ} (host : Host) (q : ℕ) (name : List ℕ) (namespace : Bool)
    → Bound host.depth ns n (locate_named host q name namespace)
locate_named-Bound host q name namespace =
    lift_result-Bound q (λ s. locate_object host.depth s.aml q name namespace)
      (λ s. locate_object-Searches host.depth s.aml q name namespace)

pub object_at-Bound : {d ns n : ℕ} (p : ℕ) → Bound d ns n (object_at p)
object_at-Bound p = update-Bound (λ s. s.objects p) (λ s. s) (λ s. refl)

code-push_namespace :
    (s : Aml) (parent this q : ℕ)
    → ((push_namespace s parent this).spaces q).code ≡ (s.spaces q).code
unfolding push_namespace
code-push_namespace s parent this q = code-write_space s parent _ q refl

choice-ap :
    {A B : Type 0} (f : A → B) (b : Bool) (x y : A)
    → f (if b then x else y) ≡ (if b then f x else f y)
choice-ap f true x y = refl
choice-ap f false x y = refl

code-created :
    (s : Aml) (this parent : ℕ) (name code : List ℕ) (q : ℕ)
    → ((create_namespace s this parent name code).spaces q).code
      ≡ (if q == this then code else (s.spaces q).code)
unfolding create_namespace
code-created s this parent name code q =
    let space : Namespace = record {
      parent = parent;
      name = take key_len name;
      code = code;
      children = λ k. 0;
      namespaces = λ k. 0;
    } in
    let created : Aml = write_space s this space in
    let written : (created.spaces q).code ≡ (if q == this then code else (s.spaces q).code) =
      choice-ap (λ (x : Namespace). x.code) (q == this) space (s.spaces q) in
    choice (λ (a : Aml). (a.spaces q).code ≡ (if q == this then code else (s.spaces q).code))
      (parent == 0) written (code-push_namespace created parent this q ∙ written)

pub new_namespace-Bound :
    {ns n : ℕ} (host : Host) (parent : ℕ) (name code : List ℕ)
    → length code ≤ n
    → Bound host.depth ns n (new_namespace host parent name code)
new_namespace-Bound {ns} {n} host parent name code l = bind-Bound (next_pointer-Bound host) (λ p.
    record {
      bounds = λ s h. within_done p (set_aml (create_namespace s.aml p parent name code) s) (
          subst (λ (c : List ℕ). length c ≤ n) (sym (code-created s.aml p parent name code ns))
            (choice (λ (c : List ℕ). length c ≤ n) (ns == p) l h));
    })

code-write_parent :
    (s : Aml) (p parent q : ℕ)
    → ((write_space s p (record (s.spaces p) { parent = parent })).spaces q).code
      ≡ (s.spaces q).code
code-write_parent s p parent q = code-write_space s p _ q refl

pub set_parent-Bound : {d ns n : ℕ} (q parent : ℕ) → Bound d ns n (set_parent q parent)
set_parent-Bound {ns} q parent =
    update-Bound (λ s. tt)
      (λ s. set_aml (write_space s.aml q (record (s.aml.spaces q) { parent = parent })) s)
      (λ s. code-write_parent s.aml q parent ns)
