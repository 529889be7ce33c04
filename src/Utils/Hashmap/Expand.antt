-- ===== src/Utils/Hashmap/Expand.antt =====
-- `hm_expand` of lethe-utils/hashmap.c: the entries are moved, none is lost, and the counts agree.
use uefi_bare_bones.Prelude.{
  ℕ, zero, suc, ◌+◌, ◌≤◌, ◌<◌, ◌≡◌, refl, sym, ◌∙◌, ◌≢◌, inl, inr, true, Option, none, some, [],
  ◌∷◌, arith, length, set, drop, replicate, length-replicate,
}
use native.Mathlib.Decide.{ℕ_discrete}
use uefi_bare_bones.Utils.Hashmap.{HashKey, Entry, Entries, done, slot, locate, set_entry, rehash}
use uefi_bare_bones.Utils.Hashmap.Probe.{slot-set_self, slot-set_ne, StopsAt}
use uefi_bare_bones.Utils.Hashmap.Table.{
  occupied, occupied-set_free, IsTable, locate_total, placed_unique, set-IsTable,
}

occupied-drop-none :
    (xs : Entries) (i : ℕ) → slot xs i ≡ none → occupied (drop i xs) ≡ occupied (drop (suc i) xs)
occupied-drop-none [] zero h = refl
occupied-drop-none [] (suc i) h = refl
occupied-drop-none (none ∷ xs) zero h = refl
occupied-drop-none (some e ∷ xs) zero h = absurd (cc)
occupied-drop-none (x ∷ xs) (suc i) h = occupied-drop-none xs i h

occupied-drop-some :
    (xs : Entries) (i : ℕ) (e : Entry)
    → slot xs i ≡ some e
    → occupied (drop i xs) ≡ suc (occupied (drop (suc i) xs))
occupied-drop-some [] zero e h = absurd (cc)
occupied-drop-some [] (suc i) e h = absurd (cc)
occupied-drop-some (none ∷ xs) zero e h = absurd (cc)
occupied-drop-some (some o ∷ xs) zero e h = refl
occupied-drop-some (x ∷ xs) (suc i) e h = occupied-drop-some xs i e h

pub drop_all : (xs : Entries) (i : ℕ) → length xs ≤ i → occupied (drop i xs) ≡ 0
drop_all [] zero h = refl
drop_all [] (suc i) h = refl
drop_all (x ∷ xs) zero h = absurd (omega arith)
drop_all (x ∷ xs) (suc i) h = drop_all xs i (omega arith)

pub slot-replicate : (n i : ℕ) → slot (replicate n none) i ≡ none
slot-replicate zero i = refl
slot-replicate (suc n) zero = refl
slot-replicate (suc n) (suc i) = slot-replicate n i

pub occupied-replicate : (n : ℕ) → occupied (replicate n none) ≡ 0
occupied-replicate zero = refl
occupied-replicate (suc n) = occupied-replicate n

module _ (hash_value : HashKey → ℕ) where
  -- A fresh array is a table.
  pub replicate-IsTable : (n : ℕ) → 0 < n → IsTable hash_value (replicate n none) n
  replicate-IsTable n h = record {
    slots = length-replicate n none;
    room = omega (arith, occupied-replicate n);
    placed = λ p e q. absurd (ground (arith, slot-replicate n p));
  }

  -- A key that the table does not hold is stored in a free slot.
  pub set_entry_new :
      {ys : Entries} {n : ℕ}
      → IsTable hash_value ys n
      → (e : Entry) → ((q : ℕ) (o : Entry) → slot ys q ≡ some o → o.key ≢ e.key)
      → (p : ℕ) × (locate hash_value ys n e.key ≡ some p) × (p < n) × (slot ys p ≡ none)
  set_entry_new {ys} {n} t e fresh =
      let (p, stop, lt, why) = locate_total hash_value t e.key in (p, stop, lt, free p why)
    where
      free : (p : ℕ) → StopsAt ys e.key p → slot ys p ≡ none
      free p (inl h) = h
      free p (inr (o, h, same)) = absurd (fresh p o h same)

  -- The slots of `old` below `i` have been moved to `ys`, a table of `n` slots.
  pub record Moved (old : Entries) (i : ℕ) (ys : Entries) (n : ℕ) : Type 0 where
    pub table : IsTable hash_value ys n
    pub kept : occupied ys + occupied (drop i old) ≡ occupied old
    pub from_old :
        (q : ℕ) (o : Entry) → slot ys q ≡ some o → (p : ℕ) × (p < i) × (slot old p ≡ some o)
    pub to_new : (p : ℕ) (o : Entry) → p < i → slot old p ≡ some o → (q : ℕ) × (slot ys q ≡ some o)

  Moved-skip :
      {old ys : Entries} {i n : ℕ} → slot old i ≡ none → Moved old i ys n → Moved old (suc i) ys n
  Moved-skip {old} {ys} {i} h m = record {
    table = m.table;
    kept = omega (arith, m.kept, occupied-drop-none old i h);
    from_old = λ q o at. let (p, lt, e) = m.from_old q o at in (p, omega arith, e);
    to_new = λ p o lt at. elim (ℕ_discrete p i) [
      | yes same ↦ absurd (ground arith)
      | no ne ↦ m.to_new p o (omega arith) at
    ];
  }

  Moved-store :
      {old ys : Entries} {i n : ℕ} (e : Entry) (p : ℕ)
      → slot old i ≡ some e
      → occupied old < n
      → locate hash_value ys n e.key ≡ some p
      → p < n
      → slot ys p ≡ none
      → Moved old i ys n
      → Moved old (suc i) (set ys p (some e)) n
  Moved-store {old} {ys} {i} {n} e p at small stop lt free m =
      let inside : p < length ys = omega (arith, m.table.slots) in
      let grown : occupied (set ys p (some e)) ≡ suc (occupied ys) =
        occupied-set_free ys p e inside free in
      let left : occupied (drop i old) ≡ suc (occupied (drop (suc i) old)) =
        occupied-drop-some old i e at in
      record {
        table = set-IsTable hash_value m.table e p stop lt (omega (arith, m.kept, grown, left));
        kept = omega (arith, m.kept, grown, left);
        from_old = λ q o h. elim (ℕ_discrete p q) [
          | yes same ↦ (i, omega arith, ground (arith, slot-set_self ys p (some e) inside))
          | no ne ↦
              let (r, below, was) = m.from_old q o (sym (slot-set_ne ys p q (some e) ne) ∙ h) in
              (r, omega arith, was)
        ];
        to_new = λ q o below h. elim (ℕ_discrete q i) [
          | yes same ↦ (p, ground (arith, slot-set_self ys p (some e) inside))
          | no ne ↦
              let (r, was) = m.to_new q o (omega arith) h in
              (r, slot-set_ne ys p r (some e) (λ same. ground arith) ∙ was)
        ];
      }

  set_entry_moves :
      (ys : Entries) (n : ℕ) (e : Entry) (p : ℕ)
      → locate hash_value ys n e.key ≡ some p
      → slot ys p ≡ none
      → set_entry hash_value true ys n e.key e.value none ≡ done (set ys p (some e), none)
  unfolding set_entry
  set_entry_moves ys n e p stop free = ground arith

  rehash_free :
      (left i : ℕ) (old : Entries) (n : ℕ) (ys : Entries)
      → slot old i ≡ none
      → rehash hash_value (suc left) i old n ys ≡ rehash hash_value left (i + 1) old n ys
  unfolding rehash
  rehash_free left i old n ys h = ground arith

  rehash_entry :
      (left i : ℕ) (old : Entries) (n : ℕ) (ys zs : Entries) (e : Entry)
      → slot old i ≡ some e
      → set_entry hash_value true ys n e.key e.value none ≡ done (zs, none)
      → rehash hash_value (suc left) i old n ys ≡ rehash hash_value left (i + 1) old n zs
  unfolding rehash
  rehash_entry left i old n ys zs e h s = ground arith

  -- The loop of `hm_expand` moves every entry of a table to a larger array.
  pub rehash-Moved :
      {old : Entries} {m n : ℕ}
      → IsTable hash_value old m
      → m ≤ n
      → (left i : ℕ) (ys : Entries) → i + left ≡ m
      → Moved old i ys n
      → (zs : Entries) × (rehash hash_value left i old n ys ≡ done zs) × Moved old m zs n
  rehash-Moved {old} {m} {n} t le zero i ys e moved =
      (ys, unfold rehash in refl, (let q : i ≡ m = omega arith in rw q at moved))
  rehash-Moved {old} {m} {n} t le (suc left) i ys e moved = go (slot old i) refl (λ zs moved'.
      rehash-Moved t le left (i + 1) zs (omega arith)
        (let q : suc i ≡ i + 1 = omega arith in rw q at moved'))
    where
      go :
          (o : Option Entry)
          → slot old i ≡ o
          → ((zs : Entries)
              → Moved old (suc i) zs n
              → (us : Entries) × (rehash hash_value left (i + 1) old n zs ≡ done us)
                × Moved old m us n)
          → (zs : Entries) × (rehash hash_value (suc left) i old n ys ≡ done zs) × Moved old m zs n
      go none h rest =
          let (us, r, moved') = rest ys (Moved-skip h moved) in
          (us, rehash_free left i old n ys h ∙ r, moved')
      go (some entry) h rest =
          let (p, stop, lt, free) = set_entry_new moved.table entry (λ q o at same.
            let (r, below, was) = moved.from_old q o at in
            absurd (omega (arith, placed_unique hash_value t r i o entry was h same))) in
          let (us, r, moved') =
            rest (set ys p (some entry))
              (Moved-store entry p h (omega (arith, t.room)) stop lt free moved) in
          (
            us,
            rehash_entry left i old n ys (set ys p (some entry)) entry h
                  (set_entry_moves ys n entry p stop free)
                ∙ r,
            moved',
          )
