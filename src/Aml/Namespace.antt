-- ===== src/Aml/Namespace.antt =====
-- lethe-aml/aml/namespace.c, resolve_name of aml/name.c and locate_object of aml/helpers.c. A
-- namespace is named by its pointer, 0 is NULL, and its two hash tables are functions from a key to
-- the pointer that `hm_get` gives.
pub mod Paths
pub mod Resolve
pub mod Locate
pub mod Recode
pub mod Children
pub mod Depth
mod Tests
use uefi_bare_bones.Prelude.{
  ℕ, zero, suc, ◌+◌, ◌-◌, ◌*◌, ◌/◌, ◌%◌, Bool, true, false, not, ◌&&◌, ◌||◌, List, [], ◌∷◌, ◌++◌,
  ◌==◌, ltb, if◌then◌else◌, length, take, drop,
}
use uefi_bare_bones.Aml.Code.{key_len, valid_name}

-- `aml_namespace_t`; the code is that of Aml.Code.
pub record Namespace : Type 0 where
  pub parent : ℕ
  pub name : List ℕ
  pub code : List ℕ
  pub children : List ℕ → ℕ
  pub namespaces : List ℕ → ℕ

-- The namespaces in memory, and `_root`.
pub record Aml : Type 0 where
  pub spaces : ℕ → Namespace
  pub root : ℕ

-- `exit` is `AML_EXIT`, a failed assertion or `unimplemented`; `undefined` is an access outside of a
-- name.
pub data Result (A : Type 0) : Type 0 where
  ok : A → Result A
  exit : Result A
  undefined : Result A
  too_deep : Result A

infixl 5 ◌>>=◌
abbrev pub ◌>>=◌ : {A B : Type 0} → Result A → (A → Result B) → Result B
ok a >>= f = f a
exit >>= f = exit
undefined >>= f = undefined
too_deep >>= f = too_deep

-- `memcmp(…, KEY_LEN) == 0`, of two keys.
abbrev pub same_name : List ℕ → List ℕ → Bool
same_name [] [] = true
same_name [] (d ∷ ds) = false
same_name (c ∷ cs) [] = false
same_name (c ∷ cs) (d ∷ ds) = c == d && same_name cs ds

-- `hm_set`
abbrev pub map_set : (List ℕ → ℕ) → List ℕ → ℕ → List ℕ → ℕ
map_set map key value = λ k. if same_name k key then value else map k

-- A write of a namespace in memory.
abbrev pub write_space : Aml → ℕ → Namespace → Aml
write_space s p space = record s { spaces = λ q. if q == p then space else s.spaces q }

unfoldable pub push_namespace : Aml → ℕ → ℕ → Aml
push_namespace s parent this =
    let space = s.spaces parent in
    write_space s parent
      (record space { namespaces = map_set space.namespaces (s.spaces this).name this })

-- `create_namespace`, where `malloc` gives the pointer `this` and the tables are made.
unfoldable pub create_namespace : Aml → ℕ → ℕ → List ℕ → List ℕ → Aml
unfolding push_namespace
create_namespace s this parent name code =
    let created = write_space s this (record {
      parent = parent;
      name = take key_len name;
      code = code;
      children = λ k. 0;
      namespaces = λ k. 0;
    }) in
    if parent == 0 then created else push_namespace created parent this

unfoldable pub add_child_to_namespace : Aml → ℕ → List ℕ → ℕ → Aml
add_child_to_namespace s ns key object =
    let space = s.spaces ns in
    write_space s ns (record space { children = map_set space.children key object })

-- `init_aml_namespaces`, with the pointers that `malloc` gives; the root is set by `root`.
pub init_aml_namespaces : Aml → ℕ → ℕ → ℕ → ℕ → ℕ → ℕ → Aml
unfolding create_namespace
init_aml_namespaces s root gpe pr sb si tz =
    let s0 = create_namespace s root 0 (b'\\' ∷ b'_' ∷ b'_' ∷ b'_' ∷ []) [] in
    let s1 = create_namespace s0 gpe root (b'_' ∷ b'G' ∷ b'P' ∷ b'E' ∷ []) [] in
    let s2 = create_namespace s1 pr root (b'_' ∷ b'P' ∷ b'R' ∷ b'_' ∷ []) [] in
    let s3 = create_namespace s2 sb root (b'_' ∷ b'S' ∷ b'B' ∷ b'_' ∷ []) [] in
    let s4 = create_namespace s3 si root (b'_' ∷ b'S' ∷ b'I' ∷ b'_' ∷ []) [] in
    let s5 = create_namespace s4 tz root (b'_' ∷ b'T' ∷ b'Z' ∷ b'_' ∷ []) [] in
    record s5 { root = root }

-- The first loop of `resolve_name`: `levels`, and the namespace that it ends at.
pub count_levels : ℕ → Aml → ℕ → Result (ℕ × ℕ)
count_levels zero s current = too_deep
count_levels (suc fuel) s current = elim ((s.spaces current).parent == 0) [
  | true ↦ ok (0, current)
  | false ↦ count_levels fuel s (s.spaces current).parent >>= λ r. ok (suc r.0, r.1)
]

-- `memcpy(block + offset, text, …)`
abbrev pub overwrite : List ℕ → ℕ → List ℕ → List ℕ
overwrite block offset text = take offset block ++ (text ++ drop (offset + length text) block)

-- The second loop; `offset` is not used below 0.
pub write_names : ℕ → Aml → ℕ → ℕ → List ℕ → Result (List ℕ)
write_names zero s current offset block = too_deep
write_names (suc fuel) s current offset block = elim ((s.spaces current).parent == 0) [
  | true ↦ ok block
  | false ↦
      write_names fuel s (s.spaces current).parent (offset - key_len)
        (overwrite block offset (s.spaces current).name)
]

-- `absolute_name[0] = '\\'`
abbrev pub mark_absolute : List ℕ → List ℕ
mark_absolute [] = []
mark_absolute (c ∷ block) = b'\\' ∷ block

-- The end of `resolve_name`, in the block that `malloc` gives.
pub absolute_name : ℕ → Aml → ℕ → List ℕ → ℕ → List ℕ → Result (List ℕ)
unfolding write_names
absolute_name fuel s ns key levels block =
    let size = levels * key_len + (length key + 1) in
    let offset = size - length key in
    write_names fuel s ns (offset - key_len) (overwrite block offset key) >>= λ b.
    ok (mark_absolute b)

-- `fresh` is what a block of a size has in it when `malloc` gives it.
pub resolve_name : ℕ → (ℕ → List ℕ) → Aml → ℕ → List ℕ → Result (List ℕ)
unfolding count_levels absolute_name
resolve_name fuel fresh s ns [] = undefined
resolve_name fuel fresh s ns (c ∷ cs) =
    let key = c ∷ cs in
    if c == b'^'
    then exit
    else if ns == s.root || c == b'\\'
    then ok key
    else count_levels fuel s ns >>= λ r.
        if r.1 == s.root && ltb 0 r.0
        then absolute_name fuel s ns key r.0 (fresh (r.0 * key_len + (length key + 1)))
        else exit

-- `hm_get` in the table that is asked for.
abbrev pub lookup : Aml → ℕ → List ℕ → Bool → ℕ
lookup s ns key namespace =
    if namespace then (s.spaces ns).namespaces key else (s.spaces ns).children key

pub stage3 : ℕ → Aml → ℕ → List ℕ → Bool → Result ℕ
stage3 zero s current key namespace = too_deep
stage3 (suc fuel) s current key namespace = elim (lookup s current key namespace == 0) [
  | false ↦ ok (lookup s current key namespace)
  | true ↦ elim ((s.spaces current).parent == 0) [
    | true ↦ ok 0
    | false ↦ stage3 fuel s (s.spaces current).parent key namespace
  ]
]

-- The loop of `resolve_scope`, as many rounds as there are segments.
pub walk_scope : ℕ → Aml → ℕ → List ℕ → ℕ
walk_scope zero s next_ns key = next_ns
walk_scope (suc rounds) s next_ns key =
    let next = (s.spaces next_ns).namespaces (take key_len key) in
    let rest = walk_scope rounds s next (drop key_len key) in if next == 0 then 0 else rest

pub resolve_scope : Aml → ℕ → List ℕ → ℕ
unfolding walk_scope
resolve_scope s ns key =
    let scope = walk_scope (length key / key_len) s ns key in
    if not (length key % key_len == 0) then 0 else if scope == 0 || scope == ns then 0 else scope

pub stage2 : Aml → ℕ → List ℕ → Bool → Result ℕ
unfolding resolve_scope
stage2 s ns key namespace =
    let scope_len = length key - key_len in
    let scope = resolve_scope s ns (take scope_len key) in
    if length key == key_len
    then ok (lookup s ns key namespace)
    else if ltb (length key) key_len
    then undefined
    else if scope == 0
    then ok 0
    else ok (lookup s scope (drop scope_len key) namespace)

-- The switch of `locate_object`; the caller's key is moved by one where it has a prefix, which the
-- second part of the result is.
pub switch_scope : Aml → ℕ → ℕ → List ℕ → Bool → Result (ℕ × List ℕ)
unfolding stage2
switch_scope s ns c cs namespace =
    let key = c ∷ cs in
    let moved = cs ++ drop (length cs) key in
    if c == b'^'
    then if (s.spaces ns).parent == 0
      then ok (0, key)
      else (stage2 s (s.spaces ns).parent cs namespace >>= λ p. ok (p, moved))
    else if c == b'\\'
    then (stage2 s s.root cs namespace >>= λ p. ok (p, moved))
    else (stage2 s ns key namespace >>= λ p. ok (p, key))

pub locate_object : ℕ → Aml → ℕ → List ℕ → Bool → Result (ℕ × List ℕ)
unfolding stage3 switch_scope
locate_object fuel s ns [] namespace = undefined
locate_object fuel s ns (c ∷ cs) namespace =
    let key = c ∷ cs in
    if length key == 1
    then ok (s.root, key)
    else if not (valid_name key)
    then exit
    else if length key == key_len
    then (stage3 fuel s ns key namespace >>= λ p. ok (p, key))
    else switch_scope s ns c cs namespace
