-- ===== src/Utils/Hashmap/Writes.antt =====
-- The probe loop of lethe-utils/hashmap.c across a write to one slot, and that it stops while a
-- slot is free.
use native.Mathlib.Nat.{mod-eq_of_lt, mod-add-mod}
use native.Mathlib.Decide.{ℕ_discrete}
use uefi_bare_bones.Prelude.{
  ℕ, zero, suc, ◌+◌, ◌-◌, ◌%◌, ◌<◌, ◌≡◌, refl, sym, ap, ◌∙◌, ◌≢◌, inl, inr, Option, none, some,
  arith, length, set,
}
use uefi_bare_bones.Utils.Hashmap.{HashKey, Entry, Entries, slot, probe}
use uefi_bare_bones.Utils.Hashmap.Probe.{
  slot-set_self, slot-set_ne, round, probe-none, probe_same, probe_other,
}

module _ (xs : Entries) (n : ℕ) (j : ℕ) (e : Entry) (inside : j < length xs) where
  -- After a write of a key where its own probe stops, the probe stops there again.
  pub probe-set_self :
      (f i : ℕ) → probe f xs n e.key i ≡ some j → probe f (set xs j (some e)) n e.key i ≡ some j
  probe-set_self zero i h = absurd (unfold probe in cc)
  probe-set_self (suc f) i h = elim (ℕ_discrete i j) [
    | yes same ↦ ground (
      arith,
      probe_same (set xs j (some e)) n e.key f i e (rw same (slot-set_self xs j (some e) inside))
          refl,
    )
    | no ne ↦ elim (round xs n e.key i) [
      | inl free ↦ ground (arith, probe-none xs n e.key f i free)
      | inr (o, at, inl same) ↦ ground (arith, probe_same xs n e.key f i o at same)
      | inr (o, at, inr other) ↦ ground (
        arith,
        probe_other xs n e.key f i o at other,
        slot-set_ne xs j i (some e) (λ q. ne (sym q)),
        probe_other (set xs j (some e)) n e.key f i o
            (slot-set_ne xs j i (some e) (λ q. ne (sym q)) ∙ at) other,
        probe-set_self f ((i + 1) % n),
      )
    ]
  ]

  -- A write of another key leaves alone a probe that does not stop at the slot written.
  pub probe-set_ne :
      (k : HashKey) (p f i : ℕ)
      → e.key ≢ k
      → p ≢ j
      → probe f xs n k i ≡ some p
      → probe f (set xs j (some e)) n k i ≡ some p
  probe-set_ne k p zero i d ne h = absurd (unfold probe in cc)
  probe-set_ne k p (suc f) i d ne h = elim (round xs n k i) [
    | inl free ↦
        let stop : i ≡ p = ground (arith, probe-none xs n k f i free) in
        ground (
          arith,
          probe-none (set xs j (some e)) n k f i
              (slot-set_ne xs j i (some e) (λ q. ne (ground arith)) ∙ free),
        )
    | inr (o, at, inl same) ↦
        let stop : i ≡ p = ground (arith, probe_same xs n k f i o at same) in
        ground (
          arith,
          probe_same (set xs j (some e)) n k f i o
              (slot-set_ne xs j i (some e) (λ q. ne (ground arith)) ∙ at) same,
        )
    | inr (o, at, inr other) ↦
        let rest =
          probe-set_ne k p f ((i + 1) % n) d ne
            (ground (arith, probe_other xs n k f i o at other)) in
        elim (ℕ_discrete i j) [
          | yes q ↦ ground (
            arith,
            rest,
            probe_other (set xs j (some e)) n k f i e (rw q (slot-set_self xs j (some e) inside)) d,
          )
          | no q ↦ ground (
            arith,
            rest,
            probe_other (set xs j (some e)) n k f i o
                (slot-set_ne xs j i (some e) (λ t. q (sym t)) ∙ at) other,
          )
        ]
  ]

-- A loop out of fuel has passed only slots with an entry.
pub probe-none_passed :
    (xs : Entries) (n : ℕ) (k : HashKey) (f i d : ℕ)
    → probe f xs n k i ≡ none
    → i < n
    → d < f
    → slot xs ((i + d) % n) ≢ none
probe-none_passed xs n k zero i d h lt df = absurd (omega arith)
probe-none_passed xs n k (suc f) i d h lt df = elim (round xs n k i) [
  | inl free ↦ ground (arith, probe-none xs n k f i free)
  | inr (o, at, inl same) ↦ ground (arith, probe_same xs n k f i o at same)
  | inr (o, at, inr other) ↦ passed d df o at (λ d' lt'.
      probe-none_passed xs n k f ((i + 1) % n) d'
        (ground (arith, probe_other xs n k f i o at other)) (omega arith) lt')
]
  where
    passed :
        (d : ℕ)
        → d < suc f
        → (o : Entry) → slot xs i ≡ some o
        → ((d' : ℕ) → d' < f → slot xs (((i + 1) % n + d') % n) ≢ none)
        → slot xs ((i + d) % n) ≢ none
    passed zero lt' o at rest =
        rw (let q : (i + 0) % n ≡ i = ap (λ (t : ℕ). t % n) (omega arith) ∙ mod-eq_of_lt lt in q)
          (λ q. cc)
    passed (suc d') lt' o at rest =
        let q : ((i + 1) % n + d') % n ≡ (i + suc d') % n =
          mod-add-mod (i + 1) n d' ∙ ap (λ (t : ℕ). t % n) (omega arith) in
        rw q at (rest d' (omega arith))

-- While a slot is free the loop stops within `n` rounds.
pub probe_total :
    (xs : Entries) (n : ℕ) (k : HashKey) (i q : ℕ)
    → i < n
    → q < n
    → slot xs q ≡ none
    → (p : ℕ) × (probe n xs n k i ≡ some p)
probe_total xs n k i q lt lq free = go (probe n xs n k i) refl
  where
    back : (i + (q + n - i) % n) % n ≡ q
    back = grind (arith, mod-eq_of_lt lq)

    go : (o : Option ℕ) → probe n xs n k i ≡ o → (p : ℕ) × (probe n xs n k i ≡ some p)
    go none h =
        absurd (rw back at (probe-none_passed xs n k n i ((q + n - i) % n) h lt (omega arith)) free)
    go (some p) h = (p, h)
