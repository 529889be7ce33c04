-- ===== src/Aml/Namespace/Paths.antt =====
-- The tree of namespaces: the names on the way from the root to a namespace.
use native.Mathlib.Decide.{ℕ_discrete}
use uefi_bare_bones.Prelude.{
  ℕ, zero, suc, ◌*◌, ◌≡◌, ◌≢◌, refl, sym, ap, ap₂, ◌∙◌, Bool, true, false, ◌&&◌, List, [], ◌∷◌,
  ◌++◌, arith, ◌==◌, length, take, length-append, Bool-cases, inl, inr,
}
use uefi_bare_bones.Aml.Namespace.{Aml, same_name, write_space, push_namespace, create_namespace}

-- The names on the way from the root to a namespace: each namespace is in its parent's table under
-- its own name, which has four characters. `names` has them in a row.
pub data Way (s : Aml) : ℕ → ℕ → List ℕ → Type 0 where
  at_root : (ns : ℕ) → s.root ≡ ns → (s.spaces ns).parent ≡ 0 → Way s 0 ns []
  below :
      (ns parent levels : ℕ) (names name : List ℕ)
      → Way s levels parent names
      → (s.spaces ns).parent ≡ parent
      → (s.spaces ns).name ≡ name
      → parent ≢ 0
      → ns ≢ 0
      → ns ≢ s.root
      → length name ≡ 4
      → (s.spaces parent).namespaces name ≡ ns
      → Way s (suc levels) ns (names ++ name)

pub length-Way :
    {s : Aml} {levels ns : ℕ} {names : List ℕ} → Way s levels ns names → length names ≡ levels * 4
length-Way (at_root ns r e) = refl
length-Way (below ns parent levels names name p e n a b c h r) =
    omega (arith, length-append names name, length-Way p, h)

same_name_eq : (cs ds : List ℕ) → same_name cs ds ≡ true → cs ≡ ds
same_name_eq [] [] h = refl
same_name_eq [] (d ∷ ds) h = ground arith
same_name_eq (c ∷ cs) [] h = ground arith
same_name_eq (c ∷ cs) (d ∷ ds) h = elim (ℕ_discrete c d) [
  | yes e ↦
      let t : (c == d) ≡ true = ground arith in
      let later : same_name cs ds ≡ true = sym (ap (λ (b : Bool). b && same_name cs ds) t) ∙ h in
      ap₂ (λ (x : ℕ) (xs : List ℕ). x ∷ xs) e (same_name_eq cs ds later)
  | no n ↦
      let t : (c == d) ≡ false = ground arith in
      let none_left : false ≡ true = sym (ap (λ (b : Bool). b && same_name cs ds) t) ∙ h in
      ground arith
]

pub same_name_self : (cs : List ℕ) → same_name cs cs ≡ true
same_name_self [] = refl
same_name_self (c ∷ cs) = let t : (c == c) ≡ true = ground arith in rw t (same_name_self cs)

pub take_all : (n : ℕ) (xs : List ℕ) → length xs ≡ n → take n xs ≡ xs
take_all zero [] h = refl
take_all zero (x ∷ xs) h = absurd (omega arith)
take_all (suc n) [] h = refl
take_all (suc n) (x ∷ xs) h = ap (λ (t : List ℕ). x ∷ t) (take_all n xs (omega arith))

module _ (s : Aml) (this parent : ℕ) (name code : List ℕ) (not_null : parent ≢ 0)
    (apart : parent ≢ this) (four : length name ≡ 4) where
  abbrev made : Aml
  made = write_space s this (record {
    parent = parent;
    name = take 4 name;
    code = code;
    children = λ k. 0;
    namespaces = λ k. 0;
  })

  -- The memory after `create_namespace`.
  abbrev pushed : Aml
  pushed = push_namespace made parent this

  create_pushed : create_namespace s this parent name code ≡ pushed
  unfolding create_namespace
  create_pushed = let t : (parent == 0) ≡ false = ground arith in rw t refl

  parent_stays : (q : ℕ) → q ≢ this → (pushed.spaces q).parent ≡ (s.spaces q).parent
  unfolding push_namespace
  parent_stays q n =
      let t : (q == this) ≡ false = ground arith in
      let u : (parent == this) ≡ false = ground arith in
      elim (ℕ_discrete q parent) [
        | yes e ↦ let v : (q == parent) ≡ true = ground arith in rw (v, u, e) refl
        | no m ↦ let v : (q == parent) ≡ false = ground arith in rw (v, t) refl
      ]

  name_stays : (q : ℕ) → q ≢ this → (pushed.spaces q).name ≡ (s.spaces q).name
  unfolding push_namespace
  name_stays q n =
      let t : (q == this) ≡ false = ground arith in
      let u : (parent == this) ≡ false = ground arith in
      elim (ℕ_discrete q parent) [
        | yes e ↦ let v : (q == parent) ≡ true = ground arith in rw (v, u, e) refl
        | no m ↦ let v : (q == parent) ≡ false = ground arith in rw (v, t) refl
      ]

  -- An entry that is there stays, since no namespace has the name under the parent.
  entry_stays :
      (p : ℕ) (key : List ℕ)
      → p ≢ this
      → (s.spaces parent).namespaces name ≡ 0
      → (s.spaces p).namespaces key ≢ 0
      → (pushed.spaces p).namespaces key ≡ (s.spaces p).namespaces key
  unfolding push_namespace
  entry_stays p key n free there =
      let t : (p == this) ≡ false = ground arith in
      let u : (parent == this) ≡ false = ground arith in
      let w : (this == this) ≡ true = ground arith in
      elim (ℕ_discrete p parent) [
        | yes e ↦
            let v : (p == parent) ≡ true = ground arith in
            let other : same_name key name ≡ false = elim (Bool-cases (same_name key name)) [
              | inl same ↦ absurd (
                  there (
                    ap₂ (λ (x : ℕ) (k : List ℕ). (s.spaces x).namespaces k) e
                      (same_name_eq key name same)
                    ∙ free))
              | inr other ↦ other
            ] in
            rw (v, u, w, take_all 4 name four, other, e) refl
        | no m ↦ let v : (p == parent) ≡ false = ground arith in rw (v, t) refl
      ]

  own_fields :
      ((pushed.spaces this).parent ≡ parent)
      × ((pushed.spaces this).name ≡ name)
      × ((pushed.spaces parent).namespaces name ≡ this)
  unfolding push_namespace
  own_fields =
      let t : (this == parent) ≡ false = ground arith in
      let u : (parent == this) ≡ false = ground arith in
      let v : (parent == parent) ≡ true = ground arith in
      let w : (this == this) ≡ true = ground arith in
      let k = take_all 4 name four in
      (rw (t, w) refl, rw (t, w) k, rw (v, w, k, same_name_self name) refl)

  -- What is not on any way before.
  abbrev Unused : Type 0
  Unused = (levels q : ℕ) (names : List ℕ) → Way s levels q names → q ≢ this

  kept_paths :
      Unused
      → (s.spaces parent).namespaces name ≡ 0
      → {levels q : ℕ} {names : List ℕ} → Way s levels q names
      → Way pushed levels q names
  unfolding push_namespace
  kept_paths unused free (at_root ns r e) =
      at_root ns r (parent_stays ns (unused 0 ns [] (at_root ns r e)) ∙ e)
  kept_paths unused free (below ns p levels names nm way e n a b c h r) =
      let n1 =
        unused (suc levels) ns (names ++ nm) (below ns p levels names nm way e n a b c h r) in
      let n2 = unused levels p names way in
      below ns p levels names nm (kept_paths unused free way) (parent_stays ns n1 ∙ e)
        (name_stays ns n1 ∙ n) a b c h (entry_stays p nm n2 free (λ z. b (sym r ∙ z)) ∙ r)

  -- With a pointer that is not in the tree and a name that its parent does not have,
  -- `create_namespace` puts the namespace under its parent and leaves every other in its place.
  pub create_namespace-Way :
      {levels : ℕ} {names : List ℕ}
      → Way s levels parent names
      → this ≢ 0
      → this ≢ s.root
      → ((levels' q : ℕ) (names' : List ℕ) → Way s levels' q names' → q ≢ this)
      → (s.spaces parent).namespaces name ≡ 0
      → Way (create_namespace s this parent name code) (suc levels) this (names ++ name)
        × ((levels' q : ℕ) (names' : List ℕ)
            → Way s levels' q names'
            → Way (create_namespace s this parent name code) levels' q names')
  unfolding push_namespace
  create_namespace-Way {levels} {names} way z n unused free =
      let (p, m, e) = own_fields in
      rw create_pushed (
        below this parent levels names name (kept_paths unused free way) p m not_null z n four e,
        λ levels' q names' w. kept_paths unused free w,
      )
