-- ===== src/Aml/Namespace/Depth.antt =====
-- The walks up the parents in lethe-aml/aml/name.c and aml/helpers.c: when they take more steps than
-- are given.
use uefi_bare_bones.Prelude.{
  ℕ, zero, suc, ◌≡◌, false, ◌-◌, ◌≢◌, Bool, not, ◌&&◌, ◌||◌, List, [], ◌∷◌, ◌==◌, ltb, length, take,
  arith, choice, Bool-cases, inl, inr,
}
use uefi_bare_bones.Aml.Code.{key_len, valid_name}
use uefi_bare_bones.Aml.Namespace.{
  Aml, Result, ok, exit, undefined, too_deep, ◌>>=◌, count_levels, overwrite, write_names,
  mark_absolute, absolute_name, resolve_name, lookup, stage3, resolve_scope, stage2, switch_scope,
  locate_object,
}

-- The first `n` namespaces on the way up from `current` all have a parent.
abbrev pub HasParents : ℕ → Aml → ℕ → Type 0
HasParents zero s current = Unit {0}
HasParents (suc n) s current =
    ((s.spaces current).parent ≢ 0) × HasParents n s (s.spaces current).parent

-- A search that takes more than `n` steps only where there are so many parents.
pub data Searches {A : Type 0} (n : ℕ) (s : Aml) (current : ℕ) : Result A → Type 0 where
  searches_ok : (a : A) → Searches n s current (ok a)
  searches_exit : Searches n s current exit
  searches_undefined : Searches n s current undefined
  searches_too_deep : HasParents n s current → Searches n s current too_deep

bind-Searches :
    {A B : Type 0} {n current : ℕ} {s : Aml} {r : Result A} {f : A → Result B}
    → Searches n s current r
    → ((a : A) → Searches n s current (f a))
    → Searches n s current (r >>= f)
bind-Searches (searches_ok a) k = k a
bind-Searches searches_exit k = searches_exit
bind-Searches searches_undefined k = searches_undefined
bind-Searches (searches_too_deep h) k = searches_too_deep h

up-Searches :
    {A : Type 0} {n : ℕ} (s : Aml) (current : ℕ) {r : Result A}
    → (s.spaces current).parent ≢ 0
    → Searches n s (s.spaces current).parent r
    → Searches (suc n) s current r
up-Searches s current p (searches_ok a) = searches_ok a
up-Searches s current p searches_exit = searches_exit
up-Searches s current p searches_undefined = searches_undefined
up-Searches s current p (searches_too_deep h) = searches_too_deep (p, h)

no_zero : (p : ℕ) → (p == 0) ≡ false → p ≢ 0
no_zero p e = ground arith

count_levels-Searches :
    (n : ℕ) (s : Aml) (current : ℕ) → Searches n s current (count_levels n s current)
unfolding count_levels
count_levels-Searches zero s current = searches_too_deep tt
count_levels-Searches (suc n) s current =
    let up = (s.spaces current).parent in
    let rest : Searches {A = ℕ × ℕ} n s up (count_levels n s up >>= λ r. ok (suc r.0, r.1)) =
      bind-Searches (count_levels-Searches n s up) (λ r. searches_ok (suc r.0, r.1)) in
    elim (Bool-cases ((s.spaces current).parent == 0)) [
      | inl t ↦ rw (t, count_levels) (searches_ok (0, current))
      | inr t ↦
          let p : up ≢ 0 = no_zero up t in
          rw (t, count_levels) (up-Searches {A = ℕ × ℕ} s current p rest)
    ]

write_names-Searches :
    (n : ℕ) (s : Aml) (current offset : ℕ) (block : List ℕ)
    → Searches n s current (write_names n s current offset block)
unfolding write_names
write_names-Searches zero s current offset block = searches_too_deep tt
write_names-Searches (suc n) s current offset block =
    let rest =
      write_names-Searches n s (s.spaces current).parent (offset - key_len)
        (overwrite block offset (s.spaces current).name) in
    elim (Bool-cases ((s.spaces current).parent == 0)) [
      | inl t ↦ rw (t, write_names) (searches_ok block)
      | inr t ↦
          let p : (s.spaces current).parent ≢ 0 = ground arith in
          rw (t, write_names) (up-Searches s current p rest)
    ]

stage3-Searches :
    (n : ℕ) (s : Aml) (current : ℕ) (key : List ℕ) (namespace : Bool)
    → Searches n s current (stage3 n s current key namespace)
unfolding stage3
stage3-Searches zero s current key namespace = searches_too_deep tt
stage3-Searches (suc n) s current key namespace =
    let rest = stage3-Searches n s (s.spaces current).parent key namespace in
    elim (Bool-cases (lookup s current key namespace == 0)) [
      | inr f ↦ rw (f, stage3) (searches_ok (lookup s current key namespace))
      | inl f ↦ elim (Bool-cases ((s.spaces current).parent == 0)) [
        | inl t ↦ rw (f, t, stage3) (searches_ok 0)
        | inr t ↦
            let p : (s.spaces current).parent ≢ 0 = ground arith in
            rw (f, t, stage3) (up-Searches s current p rest)
      ]
    ]

-- `resolve_name` walks up from the namespace that it is given.
pub resolve_name-Searches :
    (n : ℕ) (fresh : ℕ → List ℕ) (s : Aml) (ns : ℕ) (key : List ℕ)
    → Searches n s ns (resolve_name n fresh s ns key)
unfolding resolve_name absolute_name
resolve_name-Searches n fresh s ns [] = searches_undefined
resolve_name-Searches n fresh s ns (c ∷ cs) =
    let goal : Result (List ℕ) → Type 0 = λ r. Searches n s ns r in
    choice goal (c == b'^') searches_exit (
      choice goal (ns == s.root || c == b'\\') (searches_ok (c ∷ cs)) (
        bind-Searches (count_levels-Searches n s ns) (λ r.
          choice goal (r.1 == s.root && ltb 0 r.0)
            (bind-Searches (write_names-Searches n s ns _ _) (λ b. searches_ok (mark_absolute b)))
            searches_exit)))

stage2-Searches :
    (n : ℕ) (s : Aml) (current ns : ℕ) (key : List ℕ) (namespace : Bool)
    → Searches n s current (stage2 s ns key namespace)
unfolding stage2
stage2-Searches n s current ns key namespace =
    let goal : Result ℕ → Type 0 = λ r. Searches n s current r in
    choice goal (length key == key_len) (searches_ok _) (
      choice goal (ltb (length key) key_len) searches_undefined (
        choice goal (resolve_scope s ns (take (length key - key_len) key) == 0) (searches_ok 0)
          (searches_ok _)))

switch_scope-Searches :
    (n : ℕ) (s : Aml) (ns c : ℕ) (cs : List ℕ) (namespace : Bool)
    → Searches n s ns (switch_scope s ns c cs namespace)
unfolding switch_scope
switch_scope-Searches n s ns c cs namespace =
    let goal : Result (ℕ × List ℕ) → Type 0 = λ r. Searches n s ns r in
    choice goal (c == b'^')
      (choice goal ((s.spaces ns).parent == 0) (searches_ok (0, c ∷ cs))
        (bind-Searches (stage2-Searches n s ns _ cs namespace) (λ p. searches_ok _)))
      (choice goal (c == b'\\')
        (bind-Searches (stage2-Searches n s ns _ cs namespace) (λ p. searches_ok _))
        (bind-Searches (stage2-Searches n s ns _ (c ∷ cs) namespace) (λ p. searches_ok _)))

-- `locate_object` walks up from the namespace that it is given.
pub locate_object-Searches :
    (n : ℕ) (s : Aml) (ns : ℕ) (key : List ℕ) (namespace : Bool)
    → Searches n s ns (locate_object n s ns key namespace)
unfolding locate_object
locate_object-Searches n s ns [] namespace = searches_undefined
locate_object-Searches n s ns (c ∷ cs) namespace =
    let key = c ∷ cs in
    let goal : Result (ℕ × List ℕ) → Type 0 = λ r. Searches n s ns r in
    choice goal (length key == 1) (searches_ok (s.root, key)) (
      choice goal (not (valid_name key)) searches_exit (
        choice goal (length key == key_len)
          (bind-Searches (stage3-Searches n s ns key namespace) (λ p. searches_ok _))
          (switch_scope-Searches n s ns c cs namespace)))
