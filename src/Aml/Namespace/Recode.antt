-- ===== src/Aml/Namespace/Recode.antt =====
-- A search through the namespaces does not depend on where their code is.
use uefi_bare_bones.Prelude.{
  ℕ, zero, suc, ◌≡◌, refl, ap, Bool, true, false, List, [], ◌∷◌, ◌==◌, if◌then◌else◌, take, drop,
  length, ◌%◌, ◌/◌, not, ◌||◌, ltb, ◌-◌,
}
use uefi_bare_bones.Aml.Code.{key_len}
use uefi_bare_bones.Aml.Namespace.{
  Aml, ok, undefined, lookup, stage2, stage3, walk_scope, resolve_scope, switch_scope,
  locate_object,
}

-- The namespaces with other code.
abbrev pub recode : (ℕ → List ℕ) → Aml → Aml
recode code s = record s { spaces = λ q. record (s.spaces q) { code = code q } }

stage3-recode :
    (code : ℕ → List ℕ) (fuel : ℕ) (s : Aml) (current : ℕ) (key : List ℕ) (namespace : Bool)
    → stage3 fuel (recode code s) current key namespace ≡ stage3 fuel s current key namespace
unfolding stage3
stage3-recode code zero s current key namespace = refl
stage3-recode code (suc fuel) s current key namespace =
    ap
      (λ r. elim (lookup s current key namespace == 0) [
        | false ↦ ok (lookup s current key namespace)
        | true ↦ elim ((s.spaces current).parent == 0) [ true ↦ ok 0 | false ↦ r ]
      ])
      (stage3-recode code fuel s (s.spaces current).parent key namespace)

walk_scope-recode :
    (code : ℕ → List ℕ) (rounds : ℕ) (s : Aml) (ns : ℕ) (key : List ℕ)
    → walk_scope rounds (recode code s) ns key ≡ walk_scope rounds s ns key
unfolding walk_scope
walk_scope-recode code zero s ns key = refl
walk_scope-recode code (suc rounds) s ns key =
    let next = (s.spaces ns).namespaces (take key_len key) in
    ap (λ rest. if next == 0 then 0 else rest)
      (walk_scope-recode code rounds s next (drop key_len key))

stage2-recode :
    (code : ℕ → List ℕ) (s : Aml) (ns : ℕ) (key : List ℕ) (namespace : Bool)
    → stage2 (recode code s) ns key namespace ≡ stage2 s ns key namespace
unfolding stage2 resolve_scope
stage2-recode code s ns key namespace =
    let scope_len = length key - key_len in
    let scope = take scope_len key in
    ap
      (λ walked.
        let resolved =
          if not (length scope % key_len == 0)
          then 0
          else if walked == 0 || walked == ns
          then 0
          else walked in
        if length key == key_len
        then ok (lookup s ns key namespace)
        else if ltb (length key) key_len
        then undefined
        else if resolved == 0
        then ok 0
        else ok (lookup s resolved (drop scope_len key) namespace))
      (walk_scope-recode code (length scope / key_len) s ns scope)

pub locate_object-recode :
    (code : ℕ → List ℕ) (fuel : ℕ) (s : Aml) (ns : ℕ) (key : List ℕ) (namespace : Bool)
    → locate_object fuel (recode code s) ns key namespace ≡ locate_object fuel s ns key namespace
unfolding locate_object switch_scope
locate_object-recode code fuel s ns [] namespace = refl
locate_object-recode code fuel s ns (c ∷ cs) namespace =
    rw
      (
        stage3-recode code fuel s ns (c ∷ cs) namespace,
        stage2-recode code s (s.spaces ns).parent cs namespace,
        stage2-recode code s s.root cs namespace,
        stage2-recode code s ns (c ∷ cs) namespace,
      )
      refl
