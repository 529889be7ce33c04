-- ===== src/Libc/Str/Order.antt =====
-- `strncmp` and `strcmp` of lethe-libc/string.c: when they give 0.
use native.Mathlib.Decide.{dec_lt, ℕ_discrete}
use uefi_bare_bones.Prelude.{
  ℕ, zero, suc, ◌+◌, ◌≤◌, ◌<◌, ◌≡◌, refl, sym, ◌∙◌, ◌≢◌, ◌↔◌, ◌⊎◌, inl, inr, true, false, some,
  arith, ◌==◌, if◌then◌else◌, ℤ, pos, sub_ℕ,
}
use uefi_bare_bones.Libc.Str.{Bytes, strlen, strncmp_from, strncmp, strcmp}
use uefi_bare_bones.Libc.Str.Compare.{Agree, IsText, strlen_lem}

abbrev pub AreBytes : Bytes → Type 0
AreBytes s = (j : ℕ) → s j < 256

-- The texts agree from offset `i` on up to an offset where the bound is met or one of them ends.
abbrev pub AgreeToEnd : Bytes → Bytes → ℕ → ℕ → Type 0
AgreeToEnd s1 s2 i n =
    (m : ℕ) × (i ≤ m) × (m ≤ n) × Agree s1 s2 i m × ((m ≡ n) ⊎ ((s1 m ≡ 0) ⊎ (s2 m ≡ 0)))

-- One round, by the two bytes.
data Round (s1 s2 : Bytes) (left i : ℕ) : Type 0 where
  ended : (s1 i ≡ 0) ⊎ (s2 i ≡ 0) → strncmp_from (suc left) i s1 s2 ≡ pos 0 → Round s1 s2 left i
  differ :
      s1 i ≢ 0
      → s2 i ≢ 0
      → s1 i ≢ s2 i
      → strncmp_from (suc left) i s1 s2 ≢ pos 0
      → Round s1 s2 left i
  alike :
      s1 i ≢ 0
      → s2 i ≢ 0
      → s1 i ≡ s2 i
      → strncmp_from (suc left) i s1 s2 ≡ strncmp_from left (i + 1) s1 s2
      → Round s1 s2 left i

round : (s1 s2 : Bytes) (left i : ℕ) → AreBytes s1 → AreBytes s2 → Round s1 s2 left i
unfolding strncmp_from
round s1 s2 left i b1 b2 = elim (ℕ_discrete (s1 i) 0) [
  | yes e ↦ ended (inl e) (ground arith)
  | no n1 ↦ elim (ℕ_discrete (s2 i) 0) [
    | yes e ↦ ended (inr e) (ground arith)
    | no n2 ↦ elim (ℕ_discrete (s1 i) (s2 i)) [
      | yes e ↦ alike n1 n2 e (ground arith)
      | no d ↦ differ n1 n2 d (ground (arith, b1 i, b2 i))
    ]
  ]
]

zero_only :
    (left i n : ℕ) (s1 s2 : Bytes)
    → AreBytes s1
    → AreBytes s2
    → i + left ≡ n
    → strncmp_from left i s1 s2 ≡ pos 0
    → AgreeToEnd s1 s2 i n
zero_only zero i n s1 s2 b1 b2 e h =
    (i, omega arith, omega arith, (λ j le lt. absurd (omega arith)), inl (omega arith))
zero_only (suc left) i n s1 s2 b1 b2 e h = elim (round s1 s2 left i b1 b2) [
  | ended stop _ ↦ (i, omega arith, omega arith, (λ j le lt. absurd (omega arith)), inr stop)
  | differ _ _ _ other ↦ absurd (other h)
  | alike _ _ same step ↦
      let (m, le, le', all, why) =
        zero_only left (i + 1) n s1 s2 b1 b2 (omega arith) (sym step ∙ h) in
      (
        m,
        omega arith,
        le',
        (λ j l l'. elim (ℕ_discrete i j) [
          | yes q ↦ rw (← q) same
          | no ne ↦ all j (omega arith) l'
        ]),
        why,
      )
]

zero_if :
    (left i n : ℕ) (s1 s2 : Bytes)
    → AreBytes s1
    → AreBytes s2
    → i + left ≡ n
    → AgreeToEnd s1 s2 i n
    → strncmp_from left i s1 s2 ≡ pos 0
zero_if zero i n s1 s2 b1 b2 e a = unfold strncmp_from in refl
zero_if (suc left) i n s1 s2 b1 b2 e (m, le, le', all, why) = elim (round s1 s2 left i b1 b2) [
  | ended _ r ↦ r
  | differ n1 n2 d _ ↦ absurd (d (all i (omega arith) (past n1 n2)))
  | alike n1 n2 same step ↦
      step
      ∙ zero_if left (i + 1) n s1 s2 b1 b2 (omega arith)
          (m, omega (arith, past n1 n2), le', (λ j l l'. all j (omega arith) l'), why)
]
  where
    -- The texts do not end at `i`, so the agreement goes on.
    past : s1 i ≢ 0 → s2 i ≢ 0 → i < m
    past n1 n2 = elim (ℕ_discrete i m) [ yes q ↦ absurd (ground arith) | no ne ↦ omega arith ]

-- `strncmp` gives 0 exactly when the texts agree up to the bound or to the end of either: a text
-- and a longer one that begins with it compare as equal.
strncmp-zero_iff :
    (s1 s2 : Bytes) (n : ℕ)
    → AreBytes s1
    → AreBytes s2
    → (strncmp s1 s2 n ≡ pos 0) ↔ AgreeToEnd s1 s2 0 n
unfolding strncmp
strncmp-zero_iff s1 s2 n b1 b2 =
    (zero_only n 0 n s1 s2 b1 b2 (omega arith), zero_if n 0 n s1 s2 b1 b2 (omega arith))

strcmp_runs :
    (fuel n1 n2 : ℕ) (s1 s2 : Bytes)
    → strlen fuel s1 ≡ some n1
    → strlen fuel s2 ≡ some n2
    → strcmp fuel s1 s2 ≡ some (if n1 == n2 then strncmp s1 s2 n1 else sub_ℕ n1 n2)
unfolding strcmp
strcmp_runs fuel n1 n2 s1 s2 h1 h2 = ground arith

-- `strcmp` returns, and gives 0 exactly when the two texts are the same.
pub strcmp_iff :
    (fuel n1 n2 : ℕ) (s1 s2 : Bytes)
    → AreBytes s1
    → AreBytes s2
    → IsText s1 n1
    → IsText s2 n2
    → n1 < fuel
    → n2 < fuel
    → (r : ℤ) × (strcmp fuel s1 s2 ≡ some r) × ((r ≡ pos 0) ↔ ((n1 ≡ n2) × Agree s1 s2 0 n1))
strcmp_iff fuel n1 n2 s1 s2 b1 b2 t1 t2 f1 f2 = (
  if n1 == n2 then strncmp s1 s2 n1 else sub_ℕ n1 n2,
  strcmp_runs fuel n1 n2 s1 s2 (strlen_lem fuel n1 s1 t1 f1) (strlen_lem fuel n2 s2 t2 f2),
  elim (ℕ_discrete n1 n2) [
    | yes e ↦ rw (let q : (n1 == n2) ≡ true = ground arith in q) (
      (λ h. (e, whole e ((strncmp-zero_iff s1 s2 n1 b1 b2).0 h))),
      (λ (_, a). (strncmp-zero_iff s1 s2 n1 b1 b2).1 (n1, omega arith, omega arith, a, inl refl)),
    )
    | no ne ↦
        rw (let q : (n1 == n2) ≡ false = ground arith in q)
          ((λ h. absurd (ground arith)), (λ (e, _). absurd (ne e)))
  ],
)
  where
    whole : n1 ≡ n2 → AgreeToEnd s1 s2 0 n1 → Agree s1 s2 0 n1
    whole same (m, le, le', all, inl e) j l l' = all j l (omega arith)
    whole same (m, le, le', all, inr (inl e)) j l l' = elim (dec_lt m n1) [
      | yes lt ↦ absurd (t1.inside m lt e)
      | no ge ↦ all j l (omega arith)
    ]
    whole same (m, le, le', all, inr (inr e)) j l l' = elim (dec_lt m n2) [
      | yes lt ↦ absurd (t2.inside m lt e)
      | no ge ↦ all j l (omega arith)
    ]
