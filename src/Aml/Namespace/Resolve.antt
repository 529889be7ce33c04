-- ===== src/Aml/Namespace/Resolve.antt =====
-- resolve_name of lethe-aml/aml/name.c gives the absolute name.
use uefi_bare_bones.Prelude.{
  ℕ, zero, suc, ◌+◌, ◌-◌, ◌*◌, ◌≤◌, ◌<◌, ◌≡◌, ◌≢◌, refl, sym, ap, ap₂, ◌∙◌, true, false, List, [],
  ◌∷◌, ◌++◌, arith, ◌==◌, ltb, length, take, append_assoc, append-nil, length-take,
}
use uefi_bare_bones.Aml.Code.Names.{drop_front}
use uefi_bare_bones.Aml.Namespace.{
  Aml, ok, count_levels, overwrite, write_names, absolute_name, resolve_name,
}
use uefi_bare_bones.Aml.Namespace.Paths.{Way, at_root, below}

pub count_levels-Way :
    {s : Aml} {levels ns : ℕ} {names : List ℕ} (fuel : ℕ)
    → Way s levels ns names
    → levels < fuel
    → count_levels fuel s ns ≡ ok (levels, s.root)
unfolding count_levels
count_levels-Way zero p h = absurd (omega arith)
count_levels-Way {s} (suc fuel) (at_root ns r e) h =
    let t : ((s.spaces ns).parent == 0) ≡ true = ground arith in rw (t, count_levels, r) refl
count_levels-Way {s} (suc fuel) (below ns parent levels names name p e n a b c l r) h =
    let t : ((s.spaces ns).parent == 0) ≡ false = ground arith in
    let ih = count_levels-Way fuel p (omega arith) in rw (t, count_levels) (rw (e, ih) refl)

take_within : (n : ℕ) (xs ys : List ℕ) → n ≤ length xs → take n (xs ++ ys) ≡ take n xs
take_within zero xs ys h = refl
take_within (suc n) [] ys h = absurd (omega arith)
take_within (suc n) (x ∷ xs) ys h = ap (λ (t : List ℕ). x ∷ t) (take_within n xs ys (omega arith))

overwrite_end :
    (junk tail text : List ℕ) (offset : ℕ)
    → offset + length text ≡ length junk
    → overwrite (junk ++ tail) offset text ≡ take offset junk ++ (text ++ tail)
overwrite_end junk tail text offset h =
    ap₂ (λ (x y : List ℕ). x ++ (text ++ y)) (take_within offset junk tail (omega arith))
      (drop_front (offset + length text) junk tail (sym h))

-- The names are written in front of what is there, down to the first character of the block.
pub write_names-Way :
    {s : Aml} {levels ns : ℕ} {names : List ℕ} (fuel : ℕ) (junk tail : List ℕ) (offset : ℕ)
    → Way s levels ns names
    → levels < fuel
    → length junk ≡ suc (levels * 4)
    → offset ≡ length junk - 4
    → (c : ℕ) × (write_names fuel s ns offset (junk ++ tail) ≡ ok (c ∷ (names ++ tail)))
unfolding write_names
write_names-Way zero junk tail offset p h l o = absurd (omega arith)
write_names-Way {s} (suc fuel) [] tail offset (at_root ns r e) h l o = absurd (omega arith)
write_names-Way {s} (suc fuel) (c ∷ d ∷ junk) tail offset (at_root ns r e) h l o =
    absurd (omega arith)
write_names-Way {s} (suc fuel) (c ∷ []) tail offset (at_root ns r e) h l o =
    let t : ((s.spaces ns).parent == 0) ≡ true = ground arith in (c, rw (t, write_names) refl)
write_names-Way {s} (suc fuel) junk tail offset (below ns parent levels names name p e n a b c k r)
      h l o =
    let t : ((s.spaces ns).parent == 0) ≡ false = ground arith in
    let room : offset + length name ≡ length junk = omega arith in
    let shorter : length (take offset junk) ≡ suc (levels * 4) =
      omega (arith, length-take offset junk) in
    let (d, ih) =
      write_names-Way fuel (take offset junk) (name ++ tail) (offset - 4) p (omega arith) shorter
        (omega arith) in
    (
      d,
      rw (t, write_names)
          (rw (e, n, overwrite_end junk tail name offset room, ih)
            (ap (λ (x : List ℕ). ok (d ∷ x)) (sym (append_assoc names name tail)))),
    )

-- `resolve_name` of a name without a prefix, in a namespace below the root: the names on the way
-- from the root and the name itself behind a `\`, whatever the new block had in it, with fuel above
-- the namespace's depth.
pub resolve_name-Way :
    {s : Aml} {levels ns : ℕ} {names : List ℕ} (fuel : ℕ) (fresh : ℕ → List ℕ) (c : ℕ) (cs : List ℕ)
    → ((size : ℕ) → length (fresh size) ≡ size)
    → Way s levels ns names
    → levels < fuel
    → ns ≢ s.root
    → c ≢ b'^'
    → c ≢ b'\\'
    → resolve_name fuel fresh s ns (c ∷ cs) ≡ ok (b'\\' ∷ (names ++ (c ∷ cs)))
unfolding resolve_name absolute_name
resolve_name-Way fuel fresh c cs f (at_root ns r e) h n c1 c2 = absurd (n (sym r))
resolve_name-Way {s} fuel fresh c cs f (below ns parent levels names name p e m a b d k r) h n c1
      c2 =
    let way : Way s (suc levels) ns (names ++ name) =
      below ns parent levels names name p e m a b d k r in
    let key : List ℕ = c ∷ cs in
    let size = suc levels * 4 + (length key + 1) in
    let offset = size - length key in
    let block = fresh size in
    let t1 : (c == b'^') ≡ false = ground arith in
    let t2 : (c == b'\\') ≡ false = ground arith in
    let t3 : (ns == s.root) ≡ false = ground arith in
    let t4 : (s.root == s.root) ≡ true = ground arith in
    let t5 : ltb 0 (suc levels) ≡ true = ground arith in
    let whole : overwrite block offset key ≡ take offset block ++ key =
      ap (λ (x : List ℕ). overwrite x offset key) (sym (append-nil block))
      ∙ overwrite_end block [] key offset (omega (arith, f size))
      ∙ ap (λ (x : List ℕ). take offset block ++ x) (append-nil key) in
    let junk : length (take offset block) ≡ suc (suc levels * 4) =
      omega (arith, length-take offset block, f size) in
    let (x, written) =
      write_names-Way fuel (take offset block) key (offset - 4) way h junk (omega arith) in
    rw (t1, t2, t3, count_levels-Way fuel way h, t4, t5, whole, written) refl
