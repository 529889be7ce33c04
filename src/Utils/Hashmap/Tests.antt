-- ===== src/Utils/Hashmap/Tests.antt =====
-- Runs of lethe-utils/hashmap.c at concrete maps, with the first byte of a key as its hash.
use uefi_bare_bones.Prelude.{ℕ, zero, suc, ◌≡◌, refl, none, some, [], ◌∷◌, arith, replicate, true}
use uefi_bare_bones.Utils.Hashmap.{
  HashKey, Entry, Hm, done, hm_set, hm_get, hm_expand, ◌>>=◌, slot, locate, probe, same_key,
  set_entry,
}
use mathlib.Core.Path.{subst}
use mathlib.Core.Option.{some-injective}
use uefi_bare_bones.Utils.Hashmap.Expand.{replicate-IsTable}
use uefi_bare_bones.Utils.Hashmap.Laws.{IsHm, hm_expand_lem}
use uefi_bare_bones.Utils.Hashmap.Set.{IsUpdate, hm_set-IsUpdate}
use uefi_bare_bones.Utils.Hashmap.Iter.{hm_iter, hm_foreach, hm_foreach_lem}

abbrev key_of : ℕ → ℕ → HashKey
key_of a b = record { byte0 = a; byte1 = b; byte2 = 0; byte3 = 0 }

abbrev first_byte : HashKey → ℕ
first_byte k = k.byte0

abbrev empty : Hm
empty = record { entries = replicate 4 none; capacity = 4; count = 0 }

empty-IsHm : IsHm first_byte empty
empty-IsHm = record {
  table = replicate-IsTable first_byte 4 (omega arith);
  counted = refl;
  at_least = omega arith;
  fits = omega arith;
  load = omega arith;
}

-- Two keys with one hash: the second stands in the slot after its own.
abbrev two : Hm
two = record {
  entries =
      none
      ∷ some (record { key = key_of 1 10; value = 100 })
      ∷ some (record { key = key_of 1 20; value = 200 })
      ∷ none
      ∷ [];
  capacity = 4;
  count = 2;
}

two-placed :
    (p : ℕ) (e : Entry)
    → slot two.entries p ≡ some e
    → locate first_byte two.entries 4 e.key ≡ some p
unfolding probe same_key
two-placed zero e h = absurd (cc)
two-placed (suc zero) e h =
    subst (λ (t : Entry). locate first_byte two.entries 4 t.key ≡ some 1) (some-injective _ _ h)
      refl
two-placed (suc (suc zero)) e h =
    subst (λ (t : Entry). locate first_byte two.entries 4 t.key ≡ some 2) (some-injective _ _ h)
      refl
two-placed (suc (suc (suc zero))) e h = absurd (cc)
two-placed (suc (suc (suc (suc p)))) e h = absurd (cc)

two-IsHm : IsHm first_byte two
two-IsHm = record {
  table = record { slots = refl; room = omega arith; placed = two-placed };
  counted = refl;
  at_least = omega arith;
  fits = omega arith;
  load = omega arith;
}

-- Setting two keys of one hash in an empty map gives that map, and each is found.
set_twice :
    (hm_set first_byte true true empty (key_of 1 10) 100 >>= λ map.
    hm_set first_byte true true map (key_of 1 20) 200)
    ≡ done two
unfolding hm_set set_entry same_key probe
set_twice = refl

hm_set-IsUpdate_example :
    (after : Hm) × (hm_set first_byte true true two (key_of 2 30) 300 ≡ done after)
    × IsUpdate first_byte two after (key_of 2 30) 300
hm_set-IsUpdate_example =
    hm_set-IsUpdate first_byte two-IsHm (omega arith) (key_of 2 30) 300 (omega arith)

hm_expand_lem_example :
    (bigger : Hm) × (hm_expand first_byte true two ≡ done bigger)
    × IsHm first_byte bigger
    × (bigger.capacity ≡ 8)
    × (bigger.count ≡ 2)
    × ((k : HashKey) → hm_get first_byte bigger k ≡ hm_get first_byte two k)
hm_expand_lem_example = hm_expand_lem first_byte two-IsHm (omega arith)

hm_foreach_lem_example :
    hm_foreach 5 (hm_iter (key_of 0 0) 0 two)
    ≡ record { key = key_of 1 10; value = 100 } ∷ record { key = key_of 1 20; value = 200 } ∷ []
hm_foreach_lem_example = hm_foreach_lem first_byte (key_of 0 0) 0 two-IsHm
