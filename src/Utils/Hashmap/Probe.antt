-- ===== src/Utils/Hashmap/Probe.antt =====
-- The probe loop of lethe-utils/hashmap.c: what it stops at, that it stops, and what a write to a
-- slot does to it.
use uefi_bare_bones.Prelude.{
  ℕ, zero, suc, ◌+◌, ◌%◌, ◌<◌, ◌≡◌, refl, ap, ◌≢◌, ◌↔◌, ◌⊎◌, inl, inr, true, false, Option, none,
  some, [], ◌∷◌, arith, length, set, Bool-cases,
}
use uefi_bare_bones.Utils.Hashmap.{HashKey, Entry, Entries, same_key, slot, probe}

-- `memcmp` over the four bytes tells exactly the different keys apart.
pub same_key_iff : (a b : HashKey) → (same_key a b ≡ true) ↔ (a ≡ b)
unfolding same_key
same_key_iff a b = ground arith

pub same_key_self : (a : HashKey) → same_key a a ≡ true
same_key_self a = (same_key_iff a a).1 refl

pub same_key_ne : (a b : HashKey) → a ≢ b → same_key a b ≡ false
same_key_ne a b ne = ground (arith, same_key_iff a b)

pub slot-set_self :
    (xs : Entries) (i : ℕ) (e : Option Entry) → i < length xs → slot (set xs i e) i ≡ e
slot-set_self [] i e h = absurd (omega arith)
slot-set_self (x ∷ xs) zero e h = refl
slot-set_self (x ∷ xs) (suc i) e h = slot-set_self xs i e (omega arith)

pub slot-set_ne :
    (xs : Entries) (i j : ℕ) (e : Option Entry) → i ≢ j → slot (set xs i e) j ≡ slot xs j
slot-set_ne [] i j e h = refl
slot-set_ne (x ∷ xs) zero zero e h = absurd (h refl)
slot-set_ne (x ∷ xs) zero (suc j) e h = refl
slot-set_ne (x ∷ xs) (suc i) zero e h = refl
slot-set_ne (x ∷ xs) (suc i) (suc j) e h = slot-set_ne xs i j e (λ q. h (ap suc q))

-- An index out of range holds no entry.
pub slot-some-lt : (xs : Entries) (i : ℕ) (e : Entry) → slot xs i ≡ some e → i < length xs
slot-some-lt [] i e h = cc
slot-some-lt (x ∷ xs) zero e h = omega arith
slot-some-lt (x ∷ xs) (suc i) e h = omega (arith, slot-some-lt xs i e h)

-- Where the loop stops there is no entry, or one of this key.
abbrev pub StopsAt : Entries → HashKey → ℕ → Type 0
StopsAt xs k p = (slot xs p ≡ none) ⊎ ((e : Entry) × (slot xs p ≡ some e) × (e.key ≡ k))

module _ (xs : Entries) (n : ℕ) (k : HashKey) where
  -- One round of the loop, by what the slot holds.
  pub probe-none : (f i : ℕ) → slot xs i ≡ none → probe (suc f) xs n k i ≡ some i
  unfolding probe
  probe-none f i h = ground arith

  pub probe_same :
      (f i : ℕ) (e : Entry) → slot xs i ≡ some e → e.key ≡ k → probe (suc f) xs n k i ≡ some i
  unfolding probe
  probe_same f i e h q = ground (arith, same_key_iff k e.key)

  pub probe_other :
      (f i : ℕ) (e : Entry)
      → slot xs i ≡ some e
      → e.key ≢ k
      → probe (suc f) xs n k i ≡ probe f xs n k ((i + 1) % n)
  unfolding probe
  probe_other f i e h q = ground (arith, same_key_iff k e.key)

  -- The three cases of a round.
  abbrev pub Round : ℕ → Type 0
  Round i = (slot xs i ≡ none) ⊎ ((e : Entry) × (slot xs i ≡ some e) × ((e.key ≡ k) ⊎ (e.key ≢ k)))

  pub round : (i : ℕ) → Round i
  round i = go (slot xs i) refl
    where
      key_cases : (e : Entry) → (e.key ≡ k) ⊎ (e.key ≢ k)
      key_cases e = elim (Bool-cases (same_key e.key k)) [
        | inl p ↦ inl ((same_key_iff e.key k).0 p)
        | inr p ↦ inr (λ q. ground (arith, same_key_iff e.key k))
      ]

      go : (o : Option Entry) → slot xs i ≡ o → Round i
      go none h = inl h
      go (some e) h = inr (e, h, key_cases e)

  -- The loop stops only where there is no entry or one of this key.
  pub probe-StopsAt : (f i p : ℕ) → probe f xs n k i ≡ some p → StopsAt xs k p
  probe-StopsAt zero i p h = unfold probe in cc
  probe-StopsAt (suc f) i p h = elim (round i) [
    | inl free ↦ inl (ground (arith, probe-none f i free))
    | inr (e, at, inl same) ↦ inr (e, ground (arith, probe_same f i e at same), same)
    | inr (e, at, inr other) ↦
        probe-StopsAt f ((i + 1) % n) p (ground (arith, probe_other f i e at other))
  ]

-- The loop stays within the slots.
pub probe-lt :
    (xs : Entries) (n : ℕ) (k : HashKey) (f i p : ℕ) → i < n → probe f xs n k i ≡ some p → p < n
probe-lt xs n k zero i p lt h = absurd (unfold probe in cc)
probe-lt xs n k (suc f) i p lt h = elim (round xs n k i) [
  | inl free ↦ ground (arith, probe-none xs n k f i free)
  | inr (e, at, inl same) ↦ ground (arith, probe_same xs n k f i e at same)
  | inr (e, at, inr other) ↦
      probe-lt xs n k f ((i + 1) % n) p (omega arith)
        (ground (arith, probe_other xs n k f i e at other))
]
