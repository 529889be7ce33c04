-- ===== src/Utils/Hashmap.antt =====
-- lethe-utils/hashmap.c: a table with open addressing and linear probing over keys of four bytes.
-- The hash is `fnv_64a_buf` of the vendored lethe-utils/hash_64a.c, and is a parameter, about which
-- nothing is assumed. What `calloc` returns enters as a Boolean, true where it gives memory.
-- A pointer is a number and 0 is NULL; a slot whose key is NULL is `none`.
pub mod Probe
pub mod Writes
pub mod Table
pub mod Expand
pub mod Laws
pub mod Set
pub mod Iter
mod Tests
use uefi_bare_bones.Prelude.{
  ℕ, zero, suc, ◌+◌, ◌*◌, ◌%◌, Bool, true, false, not, Option, none, some, List, [], ◌∷◌, ltb, leb,
  ◌==◌, ◌||◌, ◌&&◌, if◌then◌else◌, get_or, set, replicate, length, u64, is_zero,
}
use uefi_bare_bones.Libc.Str.{Bytes, memcmp}

-- `KEY_LEN`
abbrev pub key_len : ℕ
key_len = 4

-- `hash_key`: the four bytes that a key's pointer leads to.
pub record HashKey : Type 0 where
  pub byte0 : ℕ
  pub byte1 : ℕ
  pub byte2 : ℕ
  pub byte3 : ℕ

abbrev pub key_bytes : HashKey → Bytes
key_bytes k i = get_or (k.byte0 ∷ k.byte1 ∷ k.byte2 ∷ k.byte3 ∷ []) i 0

-- `memcmp(key, other, KEY_LEN) == 0`
pub same_key : HashKey → HashKey → Bool
unfolding memcmp
same_key key other = is_zero (memcmp (key_bytes key) (key_bytes other) key_len)

-- `hm_entry` with a key
pub record Entry : Type 0 where
  pub key : HashKey
  pub value : ℕ

abbrev pub Entries : Type 0
Entries = List (Option Entry)

-- `struct hm`
pub record Hm : Type 0 where
  pub entries : Entries
  pub capacity : ℕ
  pub count : ℕ

-- How a call ends: with a result, with NULL or false for want of memory, in a failed `assert`, or,
-- for a probe that found no slot in `capacity` rounds, never.
pub data Outcome (A : Type 0) : Type 0 where
  done : A → Outcome A
  out_of_memory assert_failed endless : Outcome A

infixl 5 ◌>>=◌
abbrev pub ◌>>=◌ : {A B : Type 0} → Outcome A → (A → Outcome B) → Outcome B
done a >>= f = f a
out_of_memory >>= f = out_of_memory
assert_failed >>= f = assert_failed
endless >>= f = endless

-- `INITIAL_CAPACITY`, `RESIZE_VAL`
abbrev pub initial_capacity : ℕ
initial_capacity = 4

abbrev pub resize_val : ℕ
resize_val = 2

abbrev pub slot : Entries → ℕ → Option Entry
slot entries i = get_or entries i none

-- The loop of `set_entry` and of `hm_get`: the index where it stops, at a slot with no key or with
-- this one. The fuel bounds the rounds.
pub probe : ℕ → Entries → ℕ → HashKey → ℕ → Option ℕ
probe zero entries capacity key index = none
probe (suc fuel) entries capacity key index = elim (slot entries index) [
  | none ↦ some index
  | some entry ↦
      if same_key key entry.key
      then some index
      else probe fuel entries capacity key ((index + 1) % capacity)
]

-- The value of a slot, NULL if it has none.
abbrev pub slot_value : Option Entry → ℕ
slot_value none = 0
slot_value (some entry) = entry.value

-- What a pointer leads to, with a value for NULL.
abbrev pub pointed : Option ℕ → ℕ → ℕ
pointed none d = d
pointed (some n) d = n

module _ (hash_value : HashKey → ℕ) where
  abbrev pub locate : Entries → ℕ → HashKey → Option ℕ
  locate entries capacity key = probe capacity entries capacity key (hash_value key % capacity)

  -- The end of `set_entry`, at the index where its loop stopped. `plength` is the number that
  -- its last parameter points to, if that is not NULL.
  pub store_at :
      Bool → Entries → HashKey → ℕ → Option ℕ → ℕ → Option Entry → Outcome (Entries × Option ℕ)
  store_at dup_ok entries key value plength index (some entry) =
      done (set entries index (some (record { key = entry.key; value = value })), plength)
  store_at dup_ok entries key value none index none =
      done (set entries index (some (record { key = key; value = value })), none)
  store_at dup_ok entries key value (some count) index none =
      if dup_ok
      then done
          (set entries index (some (record { key = key; value = value })), some (u64 (count + 1)))
      else out_of_memory

  pub set_entry : Bool → Entries → ℕ → HashKey → ℕ → Option ℕ → Outcome (Entries × Option ℕ)
  unfolding store_at
  set_entry dup_ok entries capacity key value plength = elim (locate entries capacity key) [
    | none ↦ endless
    | some index ↦ store_at dup_ok entries key value plength index (slot entries index)
  ]

  -- The loop of `hm_expand` from index `i` on, with `left` slots of the old array left.
  pub rehash : ℕ → ℕ → Entries → ℕ → Entries → Outcome Entries
  rehash zero i old capacity entries = done entries
  rehash (suc left) i old capacity entries = elim (slot old i) [
    | none ↦ rehash left (i + 1) old capacity entries
    | some entry ↦ do
      (entries', _) ← set_entry true entries capacity entry.key entry.value none
      rehash left (i + 1) old capacity entries'
  ]

  pub hm_expand : Bool → Hm → Outcome Hm
  hm_expand calloc_ok map =
      let capacity = u64 (map.capacity * resize_val) in
      let moved = rehash map.capacity 0 map.entries capacity (replicate capacity none) in
      if ltb capacity map.capacity || not calloc_ok
      then out_of_memory
      else do entries ← moved; done (record map { capacity = capacity; entries = entries })

  pub hm_get : Hm → HashKey → Outcome ℕ
  hm_get map key = elim (locate map.entries map.capacity key) [
    | none ↦ endless
    | some index ↦ done (slot_value (slot map.entries index))
  ]

  -- `map->count >= map->capacity * LOAD_FACTOR`, with `LOAD_FACTOR` 3/4. The product of a power of
  -- two and 0.75F is exact, and so is the conversion of a count below 2 ^ 24 to float.
  pub is_loaded : Hm → Bool
  is_loaded map = leb (3 * map.capacity) (4 * map.count)

  -- The end of `hm_set`, on the map that has room.
  pub hm_put : Bool → Hm → HashKey → ℕ → Outcome Hm
  hm_put dup_ok map key value = do
    (entries, plength) ← set_entry dup_ok map.entries map.capacity key value (some map.count)
    done (record map { entries = entries; count = pointed plength map.count })

  pub hm_set : Bool → Bool → Hm → HashKey → ℕ → Outcome Hm
  unfolding is_loaded hm_put
  hm_set calloc_ok dup_ok map key value =
      let expanded = hm_expand calloc_ok map >>= λ bigger. hm_put dup_ok bigger key value in
      if value == 0
      then assert_failed
      else if is_loaded map
      then expanded
      else hm_put dup_ok map key value

-- The Booleans say whether `malloc` and `calloc` give memory.
pub hm_create : Bool → Bool → Outcome Hm
hm_create malloc_ok calloc_ok =
    if malloc_ok && calloc_ok
    then done (record {
      count = 0;
      capacity = initial_capacity;
      entries = replicate initial_capacity none;
    })
    else out_of_memory
