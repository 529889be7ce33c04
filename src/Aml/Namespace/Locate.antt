-- ===== src/Aml/Namespace/Locate.antt =====
-- locate_object of lethe-aml/aml/helpers.c: absolute names, and the search through the parents.
use native.Mathlib.Decide.{ℕ_discrete}
use uefi_bare_bones.Prelude.{
  ℕ, zero, suc, ◌+◌, ◌-◌, ◌/◌, ◌%◌, ◌<◌, ◌≡◌, ◌≢◌, refl, sym, ap₂, ◌∙◌, Bool, true, false, List, [],
  ◌∷◌, ◌++◌, arith, ◌==◌, ltb, length, drop, length-append, append_assoc, append-nil,
}
use uefi_bare_bones.Aml.Code.{valid_chars}
use uefi_bare_bones.Aml.Code.Names.{
  take_front, drop_front, valid_append, valid_absolute, first-valid,
}
use uefi_bare_bones.Aml.Namespace.{
  Aml, ok, ◌>>=◌, resolve_name, lookup, stage3, walk_scope, resolve_scope, stage2, switch_scope,
  locate_object,
}
use uefi_bare_bones.Aml.Namespace.Paths.{Way, at_root, below, length-Way}
use uefi_bare_bones.Aml.Namespace.Resolve.{resolve_name-Way}

-- The way from the root to a namespace, one segment after another.
walk_scope-Way :
    {s : Aml} {levels ns : ℕ} {names : List ℕ} (more : ℕ) (rest : List ℕ)
    → Way s levels ns names
    → walk_scope (levels + more) s s.root (names ++ rest) ≡ walk_scope more s ns rest
unfolding walk_scope
walk_scope-Way {s} more rest (at_root ns r e) =
    ap₂ (λ (n p : ℕ). walk_scope n s p rest) (omega arith) r
walk_scope-Way {s} more rest (below ns parent levels names name p e n a b c h r) =
    let t : (ns == 0) ≡ false = ground arith in
    let step : walk_scope (suc more) s parent (name ++ rest) ≡ walk_scope more s ns rest =
      rw (walk_scope, take_front 4 name rest h, drop_front 4 name rest h, r, t) refl in
    ap₂ (λ (k : ℕ) (x : List ℕ). walk_scope k s s.root x) (omega arith)
      (append_assoc names name rest)
    ∙ walk_scope-Way (suc more) (name ++ rest) p
    ∙ step

not_null :
    {s : Aml} {levels ns : ℕ} {names : List ℕ}
    → Way s levels ns names
    → ns ≢ s.root
    → (ns ≢ 0) × (0 < levels)
not_null (at_root ns r e) n = absurd (n (sym r))
not_null (below ns parent levels names name p e m a b c h r) n = (b, omega arith)

resolve_scope-Way :
    {s : Aml} {levels ns : ℕ} {names : List ℕ}
    → Way s levels ns names
    → ns ≢ s.root
    → resolve_scope s s.root names ≡ ns
unfolding resolve_scope
resolve_scope-Way {s} {levels} {ns} {names} p n =
    let (z, _) = not_null p n in
    let l = length-Way p in
    let even : (length names % 4 == 0) ≡ true = ground arith in
    let found : walk_scope (length names / 4) s s.root names ≡ ns =
      ap₂ (λ (k : ℕ) (x : List ℕ). walk_scope k s s.root x) (omega arith) (sym (append-nil names))
      ∙ walk_scope-Way 0 [] p
      ∙ walked ns in
    let t : (ns == 0) ≡ false = ground arith in
    let u : (ns == s.root) ≡ false = ground arith in rw (even, found, t, u) refl
  where
    walked : (q : ℕ) → walk_scope 0 s q [] ≡ q
    walked q = refl

stage2-Way :
    {s : Aml} {levels ns : ℕ} {names : List ℕ} (key : List ℕ) (namespace : Bool)
    → Way s levels ns names
    → ns ≢ s.root
    → length key ≡ 4
    → stage2 s s.root (names ++ key) namespace ≡ ok (lookup s ns key namespace)
unfolding stage2
stage2-Way {s} {levels} {ns} {names} key namespace p n h =
    let (z, deep) = not_null p n in
    let l = length-append names key in
    let k = length-Way p in
    let scope_len : length (names ++ key) - 4 ≡ length names = omega arith in
    let t1 : (length (names ++ key) == 4) ≡ false = ground arith in
    let t2 : ltb (length (names ++ key)) 4 ≡ false = ground arith in
    let t3 : (ns == 0) ≡ false = ground arith in
    rw
      (
        t1,
        t2,
        scope_len,
        take_front (length names) names key refl,
        drop_front (length names) names key refl,
        resolve_scope-Way p n,
        t3,
      )
      refl

-- An absolute name leads to the entry of the namespace that its way ends at, from wherever the
-- search begins.
locate_absolute :
    {s : Aml} {levels ns : ℕ} {names : List ℕ} (fuel other : ℕ) (key : List ℕ) (namespace : Bool)
    → Way s levels ns names
    → ns ≢ s.root
    → length key ≡ 4
    → valid_chars names ≡ true
    → valid_chars key ≡ true
    → (key' : List ℕ) × (locate_object fuel s other (b'\\' ∷ (names ++ key)) namespace
        ≡ ok (lookup s ns key namespace, key'))
unfolding locate_object switch_scope
locate_absolute {s} {levels} {ns} {names} fuel other key namespace p n h v w =
    let l = length-append names key in
    let k = length-Way p in
    let t1 : (suc (length (names ++ key)) == 1) ≡ false = ground arith in
    let t2 : (suc (length (names ++ key)) == 4) ≡ false = ground arith in
    (
      (names ++ key) ++ drop (length (names ++ key)) (b'\\' ∷ (names ++ key)),
      rw
          (
            t1,
            valid_absolute (names ++ key),
            valid_append names key v w,
            t2,
            stage2-Way key namespace p n h,
          )
          refl,
    )

-- For an object of a namespace below the root, named by four valid characters, `resolve_name` gives
-- a name with which `locate_object` finds the namespace's own entry, wherever the search begins and
-- whatever new blocks have in them.
pub locate_object-resolve_name :
    {s : Aml} {levels ns : ℕ} {names : List ℕ} (fuel fuel' other : ℕ) (fresh : ℕ → List ℕ)
    (key : List ℕ) (namespace : Bool)
    → ((size : ℕ) → length (fresh size) ≡ size)
    → Way s levels ns names
    → levels < fuel
    → ns ≢ s.root
    → length key ≡ 4
    → valid_chars names ≡ true
    → valid_chars key ≡ true
    → (key' : List ℕ) × ((resolve_name fuel fresh s ns key >>= λ name.
          locate_object fuel' s other name namespace)
        ≡ ok (lookup s ns key namespace, key'))
locate_object-resolve_name fuel fuel' other fresh [] namespace f p h n four v w =
    absurd (omega arith)
locate_object-resolve_name fuel fuel' other fresh (c ∷ cs) namespace f p h n four v w =
    let (c1, c2) = first-valid c cs w in
    let (key', e) = locate_absolute fuel' other (c ∷ cs) namespace p n four v w in
    (key', rw (resolve_name-Way fuel fresh c cs f p h n c1 c2) e)

-- The first entry for a key in a namespace or in the namespaces around it, or 0.
pub data Nearest (s : Aml) (key : List ℕ) (namespace : Bool) : ℕ → ℕ → Type 0 where
  here :
      (ns : ℕ)
      → lookup s ns key namespace ≢ 0
      → Nearest s key namespace ns (lookup s ns key namespace)
  outside :
      (ns object : ℕ)
      → lookup s ns key namespace ≡ 0
      → (s.spaces ns).parent ≢ 0
      → Nearest s key namespace (s.spaces ns).parent object
      → Nearest s key namespace ns object
  nowhere :
      (ns : ℕ)
      → lookup s ns key namespace ≡ 0
      → (s.spaces ns).parent ≡ 0
      → Nearest s key namespace ns 0

parent-Way :
    {s : Aml} {levels ns : ℕ} {names : List ℕ}
    → Way s levels ns names
    → (s.spaces ns).parent ≢ 0
    → (levels' : ℕ) × (names' : List ℕ) × Way s levels' (s.spaces ns).parent names'
      × (levels ≡ suc levels')
parent-Way (at_root ns r e) n = absurd (n e)
parent-Way {s} (below ns parent levels names name p e m a b c h r) n = (levels, names, rw e p, refl)

-- With fuel above the namespace's depth the search of `stage3` ends, and gives the entry of the
-- nearest namespace around that has one, or 0 where none has.
stage3-Nearest :
    {s : Aml} (fuel : ℕ) {levels ns : ℕ} {names : List ℕ} (key : List ℕ) (namespace : Bool)
    → Way s levels ns names
    → levels < fuel
    → (object : ℕ) × (stage3 fuel s ns key namespace ≡ ok object)
      × Nearest s key namespace ns object
unfolding stage3
stage3-Nearest zero key namespace p h = absurd (omega arith)
stage3-Nearest {s} (suc fuel) {levels} {ns} key namespace p h =
    elim (ℕ_discrete (lookup s ns key namespace) 0) [
      | no there ↦
          let t : (lookup s ns key namespace == 0) ≡ false = ground arith in
          (_, rw (t, stage3) refl, here ns there)
      | yes none ↦
          let t : (lookup s ns key namespace == 0) ≡ true = ground arith in
          elim (ℕ_discrete (s.spaces ns).parent 0) [
            | yes top ↦
                let u : ((s.spaces ns).parent == 0) ≡ true = ground arith in
                (0, rw (t, u, stage3) refl, nowhere ns none top)
            | no up ↦
                let u : ((s.spaces ns).parent == 0) ≡ false = ground arith in
                let (levels', names', way, e) = parent-Way p up in
                let (object, found, nearest) =
                  stage3-Nearest fuel key namespace way (omega arith) in
                (object, rw (t, u, stage3) found, outside ns object none up nearest)
          ]
    ]
