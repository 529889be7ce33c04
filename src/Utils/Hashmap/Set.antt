-- ===== src/Utils/Hashmap/Set.antt =====
-- `hm_set` of lethe-utils/hashmap.c: what a lookup finds after it.
use uefi_bare_bones.Prelude.{
  ℕ, ◌+◌, ◌*◌, ◌%◌, ◌^◌, ◌≤◌, ◌<◌, ◌≡◌, sym, ◌∙◌, ◌≢◌, inl, inr, Bool, true, none, some, arith,
  length, set, u64, if◌then◌else◌,
}
use native.Mathlib.Decide.{ℕ_discrete, dec_lt}
use uefi_bare_bones.Utils.Hashmap.{
  HashKey, Entry, Hm, done, out_of_memory, slot, locate, set_entry, hm_expand, hm_get, hm_put,
  hm_set,
}
use uefi_bare_bones.Utils.Hashmap.Probe.{slot-set_self, slot-set_ne, StopsAt}
use uefi_bare_bones.Utils.Hashmap.Writes.{probe-set_ne}
use uefi_bare_bones.Utils.Hashmap.Table.{
  occupied, occupied-set_free, occupied-set-some, locate_total, set-IsTable, locate-set_self,
}
use uefi_bare_bones.Utils.Hashmap.Laws.{IsHm, get_at, get_stop, hm_expand_lem}

-- The map after an entry is written at an index.
abbrev pub written : Hm → Entry → ℕ → ℕ → Hm
written map e p count = record map { entries = set map.entries p (some e); count = count }

module _ (hash_value : HashKey → ℕ) where
  module _ {map : Hm} (m : IsHm hash_value map) (e : Entry) (p count : ℕ)
      (stop : locate hash_value map.entries map.capacity e.key ≡ some p) (inside : p < map.capacity)
      (why : StopsAt map.entries e.key p) (after : IsHm hash_value (written map e p count)) where
    get_written : hm_get hash_value (written map e p count) e.key ≡ done e.value
    get_written = ground (
      arith,
      get_at hash_value (written map e p count) e.key p
          (locate-set_self hash_value m.table e p stop inside),
      slot-set_self map.entries p (some e) (omega (arith, m.table.slots)),
    )

    get_other :
        (k : HashKey)
        → e.key ≢ k
        → hm_get hash_value (written map e p count) k ≡ hm_get hash_value map k
    get_other k ne = let (q, at, lt, why') = locate_total hash_value m.table k in go q at why'
      where
        in_slots : p < length map.entries
        in_slots = omega (arith, m.table.slots)

        found :
            (q : ℕ)
            → locate hash_value map.entries map.capacity k ≡ some q
            → q ≢ p
            → hm_get hash_value (written map e p count) k ≡ hm_get hash_value map k
        found q at other = ground (
          arith,
          get_at hash_value (written map e p count) k q (
              probe-set_ne map.entries map.capacity p e in_slots k q map.capacity
                (hash_value k % map.capacity) ne other at),
          get_at hash_value map k q at,
          slot-set_ne map.entries p q (some e) (λ same. other (sym same)),
        )

        still_absent :
            (q : ℕ)
            → locate hash_value map.entries map.capacity k ≡ some p
            → locate hash_value (written map e p count).entries map.capacity k ≡ some q
            → StopsAt (written map e p count).entries k q
            → hm_get hash_value (written map e p count) k ≡ done 0
        still_absent q at at' (inl free) = get_stop hash_value (written map e p count) k q at' free
        still_absent q at at' (inr (o, here, same)) = elim (ℕ_discrete p q) [
          | yes s ↦ absurd (ne (ground (arith, slot-set_self map.entries p (some e) in_slots)))
          | no d ↦ absurd (
              ground
                (arith, m.table.placed q o (sym (slot-set_ne map.entries p q (some e) d) ∙ here)))
        ]

        absent :
            locate hash_value map.entries map.capacity k ≡ some p
            → slot map.entries p ≡ none
            → hm_get hash_value (written map e p count) k ≡ hm_get hash_value map k
        absent at free =
            let (q, at', lt, why') = locate_total hash_value after.table k in
            still_absent q at at' why' ∙ sym (get_stop hash_value map k p at free)

        at_slot :
            locate hash_value map.entries map.capacity k ≡ some p
            → StopsAt map.entries e.key p
            → StopsAt map.entries k p
            → hm_get hash_value (written map e p count) k ≡ hm_get hash_value map k
        at_slot at (inl free) _ = absent at free
        at_slot at (inr w) (inl free) = absent at free
        at_slot at (inr (o, here, same)) (inr (o', here', same')) = absurd (ne (ground arith))

        go :
            (q : ℕ)
            → locate hash_value map.entries map.capacity k ≡ some q
            → StopsAt map.entries k q
            → hm_get hash_value (written map e p count) k ≡ hm_get hash_value map k
        go q at why' = elim (ℕ_discrete q p) [
          | yes same ↦ at_slot (rw same at at) why (rw same at why')
          | no ne' ↦ found q at ne'
        ]

  -- `after` is `before` with the value of `key` set to `value`.
  pub record IsUpdate (before after : Hm) (key : HashKey) (value : ℕ) : Type 0 where
    pub valid : IsHm hash_value after
    pub found : hm_get hash_value after key ≡ done value
    pub others : (k : HashKey) → key ≢ k → hm_get hash_value after k ≡ hm_get hash_value before k

  put_store :
      (map : Hm) (key : HashKey) (value p : ℕ) (dup_ok : Bool)
      → locate hash_value map.entries map.capacity key ≡ some p
      → slot map.entries p ≡ none
      → hm_put hash_value dup_ok map key value ≡ (
          if dup_ok
          then done (written map (record { key = key; value = value }) p (u64 (map.count + 1)))
          else out_of_memory)
  unfolding hm_put set_entry
  put_store map key value p dup_ok stop free = ground arith

  put_replace :
      (map : Hm) (key : HashKey) (value p : ℕ) (dup_ok : Bool) (o : Entry)
      → locate hash_value map.entries map.capacity key ≡ some p
      → slot map.entries p ≡ some o
      → o.key ≡ key
      → hm_put hash_value dup_ok map key value
        ≡ done (written map (record { key = key; value = value }) p map.count)
  unfolding hm_put set_entry
  put_replace map key value p dup_ok o stop here same = ground arith

  update :
      {map : Hm}
      → IsHm hash_value map
      → (e : Entry) (p count : ℕ) → locate hash_value map.entries map.capacity e.key ≡ some p
      → p < map.capacity
      → StopsAt map.entries e.key p
      → count ≡ occupied (set map.entries p (some e))
      → 4 * count < 3 * map.capacity + 4
      → IsUpdate map (written map e p count) e.key e.value
  update {map} m e p count stop lt why counted load = record {
    valid = valid;
    found = get_written m e p count stop lt why valid;
    others = get_other m e p count stop lt why valid;
  }
    where
      valid : IsHm hash_value (written map e p count)
      valid = record {
        table = set-IsTable hash_value m.table e p stop lt (omega (arith, m.at_least));
        counted = counted;
        at_least = m.at_least;
        fits = m.fits;
        load = load;
      }

  -- Where there is room, and memory for the key, the end of `hm_set` sets the key.
  hm_put-IsUpdate :
      {map : Hm}
      → IsHm hash_value map
      → 4 * map.count < 3 * map.capacity
      → (key : HashKey) (value : ℕ)
      → (after : Hm) × (hm_put hash_value true map key value ≡ done after)
        × IsUpdate map after key value
  hm_put-IsUpdate {map} m room key value =
      let (p, stop, lt, why) = locate_total hash_value m.table key in go p stop lt why
    where
      e : Entry
      e = record { key = key; value = value }

      go :
          (p : ℕ)
          → locate hash_value map.entries map.capacity key ≡ some p
          → p < map.capacity
          → StopsAt map.entries key p
          → (after : Hm) × (hm_put hash_value true map key value ≡ done after)
            × IsUpdate map after key value
      go p stop lt (inl free) =
          let grown = occupied-set_free map.entries p e (omega (arith, m.table.slots)) free in
          (
            written map e p (u64 (map.count + 1)),
            put_store map key value p true stop free,
            update m e p (u64 (map.count + 1)) stop lt (inl free)
                (omega (arith, grown, m.counted, m.fits, m.at_least))
                (omega (arith, m.fits, m.at_least)),
          )
      go p stop lt (inr (o, here, same)) = (
        written map e p map.count,
        put_replace map key value p true o stop here same,
        update m e p map.count stop lt (inr (o, here, same))
            (m.counted ∙ sym (occupied-set-some map.entries p e o here)) m.load,
      )

  set_small :
      (map : Hm) (key : HashKey) (value : ℕ) (calloc_ok dup_ok : Bool)
      → value ≢ 0
      → 4 * map.count < 3 * map.capacity
      → hm_set hash_value calloc_ok dup_ok map key value ≡ hm_put hash_value dup_ok map key value
  unfolding hm_set
  set_small map key value calloc_ok dup_ok some_value room = ground arith

  set_loaded :
      (map bigger : Hm) (key : HashKey) (value : ℕ) (dup_ok : Bool)
      → value ≢ 0
      → 3 * map.capacity ≤ 4 * map.count
      → hm_expand hash_value true map ≡ done bigger
      → hm_set hash_value true dup_ok map key value ≡ hm_put hash_value dup_ok bigger key value
  unfolding hm_set
  set_loaded map bigger key value dup_ok some_value full grown = ground arith

  -- With memory, a non-NULL value and a capacity below 2 ^ 63, `hm_set` returns a valid map in
  -- which the key has the value and every other key answers as before, whether or not the map
  -- is expanded on the way.
  pub hm_set-IsUpdate :
      {map : Hm}
      → IsHm hash_value map
      → map.capacity < 2 ^ 63
      → (key : HashKey) (value : ℕ) → value ≢ 0
      → (after : Hm) × (hm_set hash_value true true map key value ≡ done after)
        × IsUpdate map after key value
  hm_set-IsUpdate {map} m small key value some_value =
      elim (dec_lt (4 * map.count) (3 * map.capacity)) [
        | yes room ↦
            let (after, put, update') = hm_put-IsUpdate m room key value in
            (after, set_small map key value true true some_value room ∙ put, update')
        | no full ↦
            let (bigger, grown, valid, twice, count_same, same) =
              hm_expand_lem hash_value m small in
            let (after, put, update') =
              hm_put-IsUpdate valid (omega (arith, m.load, m.at_least)) key value in
            (
              after,
              set_loaded map bigger key value true some_value (omega arith) grown ∙ put,
              record {
                valid = update'.valid;
                found = update'.found;
                others = λ k ne. update'.others k ne ∙ same k;
              },
            )
      ]
