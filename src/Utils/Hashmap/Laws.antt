-- ===== src/Utils/Hashmap/Laws.antt =====
-- What the operations of lethe-utils/hashmap.c promise a caller.
use uefi_bare_bones.Prelude.{
  ℕ, ◌+◌, ◌*◌, ◌^◌, ◌≤◌, ◌<◌, ◌≡◌, refl, sym, ◌∙◌, inl, inr, true, none, some, arith, replicate,
  u64,
}
use uefi_bare_bones.Utils.Hashmap.{
  HashKey, Entry, Entries, Hm, done, slot, slot_value, locate, rehash, hm_expand, hm_get, hm_create,
}
use uefi_bare_bones.Utils.Hashmap.Probe.{slot-some-lt, StopsAt}
use uefi_bare_bones.Utils.Hashmap.Table.{occupied, IsTable, locate_total}
use uefi_bare_bones.Utils.Hashmap.Expand.{
  Moved, rehash-Moved, drop_all, replicate-IsTable, slot-replicate, occupied-replicate,
}

module _ (hash_value : HashKey → ℕ) where
  -- The invariant of `struct hm`.
  pub record IsHm (map : Hm) : Type 0 where
    pub table : IsTable hash_value map.entries map.capacity
    pub counted : map.count ≡ occupied map.entries
    pub at_least : 4 ≤ map.capacity
    pub fits : map.capacity < 2 ^ 64
    pub load : 4 * map.count < 3 * map.capacity + 4

  pub get_at :
      (map : Hm) (k : HashKey) (p : ℕ)
      → locate hash_value map.entries map.capacity k ≡ some p
      → hm_get hash_value map k ≡ done (slot_value (slot map.entries p))
  unfolding hm_get
  get_at map k p h = ground arith

  pub get_stop :
      (map : Hm) (k : HashKey) (p : ℕ)
      → locate hash_value map.entries map.capacity k ≡ some p
      → slot map.entries p ≡ none
      → hm_get hash_value map k ≡ done 0
  get_stop map k p h free = ground (arith, get_at map k p h)

  -- A lookup in a map always ends.
  hm_get_total :
      {map : Hm} → IsHm map → (k : HashKey) → (v : ℕ) × (hm_get hash_value map k ≡ done v)
  hm_get_total {map} m k =
      let (p, stop, lt, why) = locate_total hash_value m.table k in
      (slot_value (slot map.entries p), get_at map k p stop)

  -- Two maps with the same entries answer alike.
  pub get_same :
      {a b : Hm}
      → IsHm a
      → IsHm b
      → ((p : ℕ) (e : Entry) → slot a.entries p ≡ some e → (q : ℕ) × (slot b.entries q ≡ some e))
      → ((p : ℕ) (e : Entry) → slot b.entries p ≡ some e → (q : ℕ) × (slot a.entries q ≡ some e))
      → (k : HashKey) → hm_get hash_value a k ≡ hm_get hash_value b k
  get_same {a} {b} ha hb to from k =
      let (p, stop, lt, why) = locate_total hash_value ha.table k in go p stop why
    where
      absent :
          (p q : ℕ)
          → locate hash_value a.entries a.capacity k ≡ some p
          → slot a.entries p ≡ none
          → locate hash_value b.entries b.capacity k ≡ some q
          → StopsAt b.entries k q
          → hm_get hash_value b k ≡ done 0
      absent p q stop free stop' (inl free') = get_stop b k q stop' free'
      absent p q stop free stop' (inr (e, at, same)) =
          let (r, was) = from q e at in absurd (ground (arith, ha.table.placed r e was))

      go :
          (p : ℕ)
          → locate hash_value a.entries a.capacity k ≡ some p
          → StopsAt a.entries k p
          → hm_get hash_value a k ≡ hm_get hash_value b k
      go p stop (inl free) =
          let (q, stop', lt, why) = locate_total hash_value hb.table k in
          get_stop a k p stop free ∙ sym (absent p q stop free stop' why)
      go p stop (inr (e, at, same)) =
          let (q, at') = to p e at in
          ground (arith, get_at a k p stop, hb.table.placed q e at', get_at b k q)

  -- `hm_create` gives a valid map in which no key is found.
  hm_create-IsHm :
      (map : Hm) × (hm_create true true ≡ done map)
      × IsHm map
      × ((k : HashKey) → hm_get hash_value map k ≡ done 0)
  hm_create-IsHm = (fresh, unfold hm_create in refl, fresh-IsHm, empty)
    where
      fresh : Hm
      fresh = record { entries = replicate 4 none; capacity = 4; count = 0 }

      fresh-IsHm : IsHm fresh
      fresh-IsHm = record {
        table = replicate-IsTable hash_value 4 (omega arith);
        counted = refl;
        at_least = omega arith;
        fits = omega arith;
        load = omega arith;
      }

      empty : (k : HashKey) → hm_get hash_value fresh k ≡ done 0
      empty k =
          let (p, stop, lt, why) = locate_total hash_value fresh-IsHm.table k in
          get_stop fresh k p stop (slot-replicate 4 p)

  expand_runs :
      (map : Hm) (zs : Entries)
      → map.capacity < 2 ^ 63
      → rehash hash_value map.capacity 0 map.entries
          (2 * map.capacity)
          (replicate (2 * map.capacity) none)
        ≡ done zs
      → hm_expand hash_value true map
        ≡ done (record map { capacity = 2 * map.capacity; entries = zs })
  unfolding hm_expand
  expand_runs map zs small h =
      let q : u64 (map.capacity * 2) ≡ 2 * map.capacity = omega arith in rw q (ground arith)

  -- Doubling a map keeps it valid and the answer for each key; the map then has room.
  pub hm_expand_lem :
      {map : Hm}
      → IsHm map
      → map.capacity < 2 ^ 63
      → (bigger : Hm) × (hm_expand hash_value true map ≡ done bigger)
        × IsHm bigger
        × (bigger.capacity ≡ 2 * map.capacity)
        × (bigger.count ≡ map.count)
        × ((k : HashKey) → hm_get hash_value bigger k ≡ hm_get hash_value map k)
  hm_expand_lem {map} m small =
      let empty : Moved hash_value map.entries 0 (replicate (2 * map.capacity) none)
          (2 * map.capacity) =
        record {
          table = replicate-IsTable hash_value (2 * map.capacity) (omega (arith, m.at_least));
          kept = omega (arith, occupied-replicate (2 * map.capacity));
          from_old = λ q o at. absurd (ground (arith, slot-replicate (2 * map.capacity) q));
          to_new = λ p o lt at. absurd (omega arith);
        } in
      let (zs, runs, moved) =
        rehash-Moved hash_value m.table (omega arith) map.capacity 0
          (replicate (2 * map.capacity) none) (omega arith) empty in
      let same : occupied zs ≡ occupied map.entries =
        omega
          (arith, moved.kept, drop_all map.entries map.capacity (omega (arith, m.table.slots))) in
      let valid : IsHm (record { entries = zs; capacity = 2 * map.capacity; count = map.count }) =
        record {
          table = moved.table;
          counted = m.counted ∙ sym same;
          at_least = omega (arith, m.at_least);
          fits = omega arith;
          load = omega (arith, m.load);
        } in
      (
        record { entries = zs; capacity = 2 * map.capacity; count = map.count },
        expand_runs map zs small runs,
        valid,
        refl,
        refl,
        get_same valid m (λ p e at. let (r, lt, was) = moved.from_old p e at in (r, was))
            (λ p e at.
              moved.to_new p e (omega (arith, m.table.slots, slot-some-lt map.entries p e at)) at),
      )
