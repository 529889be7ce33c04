-- ===== src/Utils/Hashmap/Iter.antt =====
-- The iterator of lethe-utils/hashmap.c: `hm_iter`, `hm_next` and `hm_foreach`. A call of the
-- visitor is the entry that it gets; `hm_debug` is `hm_foreach` with the printer as the visitor.
use uefi_bare_bones.Prelude.{
  ℕ, zero, suc, ◌+◌, ◌-◌, ◌≤◌, ◌<◌, ◌≡◌, refl, sym, ap, ◌∙◌, Bool, true, false, Option, none, some,
  List, [], ◌∷◌, arith, length, drop, max,
}
use uefi_bare_bones.Utils.Hashmap.{HashKey, Entry, Entries, Hm, slot}
use uefi_bare_bones.Utils.Hashmap.Laws.{IsHm}

-- `hmi`
pub record Hmi : Type 0 where
  pub key : HashKey
  pub value : ℕ
  pub map : Hm
  pub index : ℕ

-- The key and the value are not set: they are what the memory holds.
pub hm_iter : HashKey → ℕ → Hm → Hmi
hm_iter key value map = record { key = key; value = value; map = map; index = 0 }

-- The loop of `hm_next`, with `left` slots left: the entry found and the index after it.
scan : ℕ → Entries → ℕ → Option (ℕ × Entry)
scan zero entries index = none
scan (suc left) entries index = elim (slot entries index) [
  | none ↦ scan left entries (index + 1)
  | some entry ↦ some (index + 1, entry)
]

pub hm_next : Hmi → Bool × Hmi
unfolding scan
hm_next it = elim (scan (it.map.capacity - it.index) it.map.entries it.index) [
  | none ↦ (false, record it { index = max it.index it.map.capacity })
  | some (index, entry) ↦ (true, record it { key = entry.key; value = entry.value; index = index })
]

-- The calls that `hm_foreach` makes, in order. The fuel bounds the calls of `hm_next`.
pub hm_foreach : ℕ → Hmi → List Entry
hm_foreach zero it = []
hm_foreach (suc fuel) it =
    let (more, it') = hm_next it in
    elim more [
      | true ↦ record { key = it'.key; value = it'.value } ∷ hm_foreach fuel it'
      | false ↦ []
    ]

-- The entries of the slots, in order.
abbrev pub entries_of : Entries → List Entry
entries_of [] = []
entries_of (none ∷ xs) = entries_of xs
entries_of (some e ∷ xs) = e ∷ entries_of xs

drop-none :
    (xs : Entries) (i : ℕ)
    → slot xs i ≡ none
    → entries_of (drop i xs) ≡ entries_of (drop (suc i) xs)
drop-none [] zero h = refl
drop-none [] (suc i) h = refl
drop-none (none ∷ xs) zero h = refl
drop-none (some e ∷ xs) zero h = absurd (cc)
drop-none (x ∷ xs) (suc i) h = drop-none xs i h

drop-some :
    (xs : Entries) (i : ℕ) (e : Entry)
    → slot xs i ≡ some e
    → entries_of (drop i xs) ≡ e ∷ entries_of (drop (suc i) xs)
drop-some [] zero e h = absurd (cc)
drop-some [] (suc i) e h = absurd (cc)
drop-some (none ∷ xs) zero e h = absurd (cc)
drop-some (some o ∷ xs) zero e h = ground arith
drop-some (x ∷ xs) (suc i) e h = drop-some xs i e h

drop_end : (xs : Entries) (i : ℕ) → length xs ≤ i → entries_of (drop i xs) ≡ []
drop_end [] zero h = refl
drop_end [] (suc i) h = refl
drop_end (x ∷ xs) zero h = absurd (omega arith)
drop_end (x ∷ xs) (suc i) h = drop_end xs i (omega arith)

-- What the scan finds is the head of the entries from the index on.
data Found (xs : Entries) (i : ℕ) (n : ℕ) : Option (ℕ × Entry) → Type 0 where
  nothing : entries_of (drop i xs) ≡ [] → Found xs i n none
  next :
      (j : ℕ) (e : Entry)
      → i < j
      → j ≤ n
      → entries_of (drop i xs) ≡ e ∷ entries_of (drop j xs)
      → Found xs i n (some (j, e))

drop-add_one : (xs : Entries) (i : ℕ) → entries_of (drop (suc i) xs) ≡ entries_of (drop (i + 1) xs)
drop-add_one xs i = let q : suc i ≡ i + 1 = omega arith in rw q

Found-skip :
    {xs : Entries} {i n : ℕ} {o : Option (ℕ × Entry)}
    → slot xs i ≡ none
    → Found xs (i + 1) n o
    → Found xs i n o
Found-skip {xs} {i} h (nothing e) = nothing (drop-none xs i h ∙ drop-add_one xs i ∙ e)
Found-skip {xs} {i} h (next j e lt le q) =
    next j e (omega arith) le (drop-none xs i h ∙ drop-add_one xs i ∙ q)

scan-Found :
    (left : ℕ) (xs : Entries) (i : ℕ)
    → i + left ≡ length xs
    → Found xs i (length xs) (scan left xs i)
unfolding scan
scan-Found zero xs i h = nothing (drop_end xs i (omega arith))
scan-Found (suc left) xs i inside = go (slot xs i) refl (scan-Found left xs (i + 1) (omega arith))
  where
    go :
        (o : Option Entry)
        → slot xs i ≡ o
        → Found xs (i + 1) (length xs) (scan left xs (i + 1))
        → Found xs i (length xs) (scan (suc left) xs i)
    go none h rest = rw (h, scan) (Found-skip h rest)
    go (some e) h rest =
        rw (h, scan)
          (next (i + 1) e (omega arith) (omega arith)
            (drop-some xs i e h ∙ ap (λ t. e ∷ t) (drop-add_one xs i)))

next_none :
    (it : Hmi)
    → scan (it.map.capacity - it.index) it.map.entries it.index ≡ none
    → hm_next it ≡ (false, record it { index = max it.index it.map.capacity })
unfolding hm_next
next_none it h = ground arith

next_some :
    (it : Hmi) (j : ℕ) (e : Entry)
    → scan (it.map.capacity - it.index) it.map.entries it.index ≡ some (j, e)
    → hm_next it ≡ (true, record it { key = e.key; value = e.value; index = j })
unfolding hm_next
next_some it j e h = ground arith

foreach_stop : (f : ℕ) (it it' : Hmi) → hm_next it ≡ (false, it') → hm_foreach (suc f) it ≡ []
unfolding hm_foreach
foreach_stop f it it' h = ground arith

foreach_call :
    (f : ℕ) (it it' : Hmi)
    → hm_next it ≡ (true, it')
    → hm_foreach (suc f) it ≡ record { key = it'.key; value = it'.value } ∷ hm_foreach f it'
unfolding hm_foreach
foreach_call f it it' h = rw (h, hm_foreach) (rw h)

foreach_from :
    (f : ℕ) (it : Hmi)
    → length it.map.entries ≡ it.map.capacity
    → it.index ≤ it.map.capacity
    → it.map.capacity < f + it.index
    → hm_foreach f it ≡ entries_of (drop it.index it.map.entries)
foreach_from zero it l le lt = absurd (omega arith)
foreach_from (suc f) it l le lt =
    go (scan (it.map.capacity - it.index) it.map.entries it.index) refl
      (scan-Found (it.map.capacity - it.index) it.map.entries it.index (omega arith))
      (λ j e above below.
        foreach_from f (record it { key = e.key; value = e.value; index = j }) l (omega arith)
          (omega arith))
  where
    go :
        (o : Option (ℕ × Entry))
        → scan (it.map.capacity - it.index) it.map.entries it.index ≡ o
        → Found it.map.entries it.index (length it.map.entries) o
        → ((j : ℕ) (e : Entry)
            → it.index < j
            → j ≤ length it.map.entries
            → hm_foreach f (record it { key = e.key; value = e.value; index = j })
              ≡ entries_of (drop j it.map.entries))
        → hm_foreach (suc f) it ≡ entries_of (drop it.index it.map.entries)
    go none h (nothing e) rest = foreach_stop f it _ (next_none it h) ∙ sym e
    go (some x) h (next j e above below q) rest =
        foreach_call f it _ (next_some it j e h) ∙ ap (λ t. e ∷ t) (rest j e above below) ∙ sym q

-- On a valid map `hm_foreach` calls the visitor on each entry once, in the order of the slots, and
-- ends within `capacity + 1` calls of `hm_next`.
pub hm_foreach_lem :
    (hash_value : HashKey → ℕ) (key : HashKey) (value : ℕ) {map : Hm}
    → IsHm hash_value map
    → hm_foreach (map.capacity + 1) (hm_iter key value map) ≡ entries_of map.entries
unfolding hm_iter
hm_foreach_lem hash_value key value {map} m =
    foreach_from (map.capacity + 1) (hm_iter key value map) m.table.slots (omega arith)
      (omega arith)
