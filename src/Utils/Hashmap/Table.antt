-- ===== src/Utils/Hashmap/Table.antt =====
-- The invariant of the slots of lethe-utils/hashmap.c, and what storing at the index of a key's
-- probe does to it and to every other key's probe.
use native.Mathlib.Decide.{ℕ_discrete}
use uefi_bare_bones.Prelude.{
  ℕ, zero, suc, ◌%◌, ◌<◌, ◌≡◌, refl, sym, ap, ◌∙◌, none, some, [], ◌∷◌, arith, length, set,
  length-set,
}
use uefi_bare_bones.Utils.Hashmap.{HashKey, Entry, Entries, slot, locate}
use uefi_bare_bones.Utils.Hashmap.Probe.{
  slot-set_self, slot-set_ne, StopsAt, probe-StopsAt, probe-lt,
}
use uefi_bare_bones.Utils.Hashmap.Writes.{probe-set_self, probe-set_ne, probe_total}

-- How many slots hold an entry.
abbrev pub occupied : Entries → ℕ
occupied [] = 0
occupied (none ∷ xs) = occupied xs
occupied (some e ∷ xs) = suc (occupied xs)

pub free_slot :
    (xs : Entries) → occupied xs < length xs → (q : ℕ) × (q < length xs) × (slot xs q ≡ none)
free_slot [] h = absurd (omega arith)
free_slot (none ∷ xs) h = (0, omega arith, refl)
free_slot (some e ∷ xs) h =
    let (q, lt, free) = free_slot xs (omega arith) in (suc q, omega arith, free)

pub occupied-set_free :
    (xs : Entries) (j : ℕ) (e : Entry)
    → j < length xs
    → slot xs j ≡ none
    → occupied (set xs j (some e)) ≡ suc (occupied xs)
occupied-set_free [] j e lt h = absurd (omega arith)
occupied-set_free (none ∷ xs) zero e lt h = refl
occupied-set_free (some o ∷ xs) zero e lt h = absurd (cc)
occupied-set_free (none ∷ xs) (suc j) e lt h = occupied-set_free xs j e (omega arith) h
occupied-set_free (some o ∷ xs) (suc j) e lt h = ap suc (occupied-set_free xs j e (omega arith) h)

pub occupied-set-some :
    (xs : Entries) (j : ℕ) (e o : Entry)
    → slot xs j ≡ some o
    → occupied (set xs j (some e)) ≡ occupied xs
occupied-set-some [] j e o h = refl
occupied-set-some (none ∷ xs) zero e o h = absurd (cc)
occupied-set-some (some u ∷ xs) zero e o h = refl
occupied-set-some (none ∷ xs) (suc j) e o h = occupied-set-some xs j e o h
occupied-set-some (some u ∷ xs) (suc j) e o h = ap suc (occupied-set-some xs j e o h)

module _ (hash_value : HashKey → ℕ) where
  -- There are `n` slots, one at least is free, and each entry stands where its key's probe stops.
  pub record IsTable (xs : Entries) (n : ℕ) : Type 0 where
    pub slots : length xs ≡ n
    pub room : occupied xs < n
    pub placed : (p : ℕ) (e : Entry) → slot xs p ≡ some e → locate hash_value xs n e.key ≡ some p

  -- The probe of any key stops, within the slots, at no entry or one of the key.
  pub locate_total :
      {xs : Entries} {n : ℕ}
      → IsTable xs n
      → (k : HashKey) → (p : ℕ) × (locate hash_value xs n k ≡ some p) × (p < n) × StopsAt xs k p
  locate_total {xs} {n} t k =
      let (q, lt, free) = free_slot xs (omega (arith, t.room, t.slots)) in
      let start : hash_value k % n < n = omega (arith, t.room) in
      let (p, e) = probe_total xs n k (hash_value k % n) q start (omega (arith, t.slots)) free in
      (
        p,
        e,
        probe-lt xs n k n (hash_value k % n) p start e,
        probe-StopsAt xs n k n (hash_value k % n) p e,
      )

  -- Two entries of one key stand in one slot.
  pub placed_unique :
      {xs : Entries} {n : ℕ}
      → IsTable xs n
      → (p q : ℕ) (e o : Entry) → slot xs p ≡ some e
      → slot xs q ≡ some o
      → e.key ≡ o.key
      → p ≡ q
  placed_unique t p q e o hp hq same = ground (arith, t.placed p e hp, t.placed q o hq)

  -- An entry written where its key's probe stops.
  module _ {xs : Entries} {n : ℕ} (t : IsTable xs n) (e : Entry) (p : ℕ)
      (stop : locate hash_value xs n e.key ≡ some p) (inside : p < n) where
    in_slots : p < length xs
    in_slots = omega (arith, t.slots)

    pub locate-set_self : locate hash_value (set xs p (some e)) n e.key ≡ some p
    locate-set_self = probe-set_self xs n p e in_slots n (hash_value e.key % n) stop

    pub placed-set :
        (q : ℕ) (o : Entry)
        → slot (set xs p (some e)) q ≡ some o
        → locate hash_value (set xs p (some e)) n o.key ≡ some q
    placed-set q o h = elim (ℕ_discrete p q) [
      | yes same ↦
          let here : o ≡ e = ground (arith, slot-set_self xs p (some e) in_slots) in
          ground (arith, locate-set_self)
      | no ne ↦
          let before : slot xs q ≡ some o = sym (slot-set_ne xs p q (some e) ne) ∙ h in
          probe-set_ne xs n p e in_slots o.key q n (hash_value o.key % n)
            (λ same. ne (ground (arith, t.placed q o before))) (λ same. ne (sym same))
            (t.placed q o before)
    ]

    pub set-IsTable : occupied (set xs p (some e)) < n → IsTable (set xs p (some e)) n
    set-IsTable r = record {
      slots = length-set xs p (some e) ∙ t.slots;
      room = r;
      placed = placed-set;
    }
