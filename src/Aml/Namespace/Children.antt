-- ===== src/Aml/Namespace/Children.antt =====
-- locate_object of lethe-aml/aml/helpers.c for an object of the namespace that the search begins in.
use uefi_bare_bones.Prelude.{ℕ, suc, ◌≡◌, ◌≢◌, refl, true, false, List, [], ◌∷◌, ◌==◌, arith}
use uefi_bare_bones.Aml.Code.{valid_chars}
use uefi_bare_bones.Aml.Code.Names.{valid_name-chars}
use uefi_bare_bones.Aml.Namespace.{Aml, ok, stage3, locate_object}

-- Four characters.
abbrev pub key : ℕ → ℕ → ℕ → ℕ → List ℕ
key c d e f = c ∷ d ∷ e ∷ f ∷ []

stage3-child :
    (fuel : ℕ) (s : Aml) (ns : ℕ) (k : List ℕ)
    → (s.spaces ns).children k ≢ 0
    → stage3 (suc fuel) s ns k false ≡ ok ((s.spaces ns).children k)
unfolding stage3
stage3-child fuel s ns k h =
    let t : ((s.spaces ns).children k == 0) ≡ false = ground arith in rw (stage3, t) refl

pub locate_object-child :
    (fuel : ℕ) (s : Aml) (ns c d e f : ℕ)
    → valid_chars (key c d e f) ≡ true
    → (s.spaces ns).children (key c d e f) ≢ 0
    → locate_object (suc fuel) s ns (key c d e f) false
      ≡ ok ((s.spaces ns).children (key c d e f), key c d e f)
unfolding locate_object
locate_object-child fuel s ns c d e f v h =
    rw (valid_name-chars c (d ∷ e ∷ f ∷ []) v, stage3-child fuel s ns (key c d e f) h) refl
