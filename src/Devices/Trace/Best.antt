-- ===== src/Devices/Trace/Best.antt =====
-- resolve_function_name of lethe-kernel/misc/trace.c: which symbol gives the name.
use native.Mathlib.Decide.{dec_le, dec_lt}
use mathlib.Core.Path.{subst}
use uefi_bare_bones.Prelude.{
  ℕ, ◌≤◌, ◌<◌, ◌≡◌, refl, sym, ◌⊎◌, inl, inr, true, false, List, [], ◌∷◌, some, ltb, leb, arith,
  Bool-cases,
}
use uefi_bare_bones.Libc.Str.{Bytes}
use uefi_bare_bones.Devices.Trace.{
  Symbol, Section, Trace, load_sections, is_function, best_symbol, name_of, resolve_function_name,
}

pub data In : Symbol → List Symbol → Type 0 where
  first : {s : Symbol} {symbols : List Symbol} → In s (s ∷ symbols)
  later : {s t : Symbol} {symbols : List Symbol} → In s symbols → In s (t ∷ symbols)

-- A symbol that is the start, or a function of the list that is not behind the address; and no
-- function of the list that is not behind the address is behind the symbol.
pub record Nearest (rip : ℕ) (start : Symbol) (symbols : List Symbol) (s : Symbol) : Type 0 where
  pub chosen : (s ≡ start) ⊎ (In s symbols × (is_function s ≡ true) × (s.st_value ≤ rip))
  pub above_start : start.st_value ≤ s.st_value
  pub highest :
      (f : Symbol)
      → In f symbols
      → is_function f ≡ true
      → f.st_value ≤ rip
      → f.st_value ≤ s.st_value

-- The next symbol is a better one.
taken :
    (rip : ℕ) (best symbol s : Symbol) (symbols : List Symbol)
    → is_function symbol ≡ true
    → best.st_value < symbol.st_value
    → symbol.st_value ≤ rip
    → Nearest rip symbol symbols s
    → Nearest rip best (symbol ∷ symbols) s
taken rip best symbol s symbols f b l n = record {
  chosen = elim n.chosen [
    | inl e ↦ inr (
        subst (λ t. In t (symbol ∷ symbols) × (is_function t ≡ true) × (t.st_value ≤ rip)) (sym e)
          (first, f, l))
    | inr (i, g, h) ↦ inr (later i, g, h)
  ];
  above_start = let a = n.above_start in omega arith;
  highest = λ t i g h. higher t i g h;
}
  where
    higher :
        (t : Symbol)
        → In t (symbol ∷ symbols)
        → is_function t ≡ true
        → t.st_value ≤ rip
        → t.st_value ≤ s.st_value
    higher _ first g h = n.above_start
    higher t (later i) g h = n.highest t i g h

-- The next symbol is no better one.
kept :
    (rip : ℕ) (best symbol s : Symbol) (symbols : List Symbol)
    → (is_function symbol ≡ true → symbol.st_value ≤ rip → symbol.st_value ≤ best.st_value)
    → Nearest rip best symbols s
    → Nearest rip best (symbol ∷ symbols) s
kept rip best symbol s symbols lower n = record {
  chosen = elim n.chosen [ inl e ↦ inl e | inr (i, g, h) ↦ inr (later i, g, h) ];
  above_start = n.above_start;
  highest = λ t i g h. higher t i g h;
}
  where
    higher :
        (t : Symbol)
        → In t (symbol ∷ symbols)
        → is_function t ≡ true
        → t.st_value ≤ rip
        → t.st_value ≤ s.st_value
    higher _ first g h = let a = n.above_start in let b = lower g h in omega arith
    higher t (later i) g h = n.highest t i g h

best_symbol-Nearest :
    (rip : ℕ) (best : Symbol) (symbols : List Symbol)
    → Nearest rip best symbols (best_symbol rip best symbols)
unfolding best_symbol
best_symbol-Nearest rip best [] = record {
  chosen = inl refl;
  above_start = omega arith;
  highest = λ f i g h. elim i [ ];
}
best_symbol-Nearest rip best (symbol ∷ symbols) =
    let with_symbol = best_symbol-Nearest rip symbol symbols in
    let with_best = best_symbol-Nearest rip best symbols in
    elim (Bool-cases (is_function symbol)) [
      | inr f ↦ rw f (kept rip best symbol _ symbols (λ g. absurd (ground arith)) with_best)
      | inl f ↦ elim (dec_lt best.st_value symbol.st_value) [
        | no n ↦
            let t : ltb best.st_value symbol.st_value ≡ false = ground arith in
            rw (f, t) (kept rip best symbol _ symbols (λ g h. omega arith) with_best)
        | yes b ↦ elim (dec_le symbol.st_value rip) [
          | no n ↦
              let t : ltb best.st_value symbol.st_value ≡ true = ground arith in
              let u : leb symbol.st_value rip ≡ false = ground arith in
              rw (f, t, u) (kept rip best symbol _ symbols (λ g h. absurd (n h)) with_best)
          | yes l ↦
              let t : ltb best.st_value symbol.st_value ≡ true = ground arith in
              let u : leb symbol.st_value rip ≡ true = ground arith in
              rw (f, t, u) (taken rip best symbol _ symbols f b l with_symbol)
        ]
      ]
    ]

-- In a file with texts and a table of at least one symbol, the name that is given for an address is
-- that of the last function in the order of addresses that is not behind it, or of the table's first
-- symbol where no such function is behind the first symbol.
pub resolve_function_name-Nearest :
    (sections : List Section) (trace : Trace) (rip : ℕ) (strtab : ℕ → Bytes) (start : Symbol)
    (symbols : List Symbol)
    → (load_sections sections trace).strtab ≡ some strtab
    → (load_sections sections trace).symtab ≡ some (start ∷ symbols)
    → (s : Symbol) × ((resolve_function_name sections trace rip).0 ≡ name_of strtab s)
      × Nearest rip start (start ∷ symbols) s
unfolding resolve_function_name
resolve_function_name-Nearest sections trace rip strtab start symbols t u = (
  best_symbol rip start (start ∷ symbols),
  rw (resolve_function_name, t, u) refl,
  best_symbol-Nearest rip start (start ∷ symbols),
)
