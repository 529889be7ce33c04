-- ===== src/Aml/Interp/Progress.antt =====
-- How much code is left in a namespace of lethe-aml when an operation ends, which it does with no
-- fuel missing.
use mathlib.Core.Path.{subst}
use uefi_bare_bones.Prelude.{
  ℕ, zero, suc, ◌≤◌, ◌≡◌, ◌≢◌, refl, sym, Bool, List, [], ◌∷◌, Option, ltb, if◌then◌else◌, length,
  take, drop, length-drop, choice, arith, Bool-cases, Option-cases, inl, inr,
}
use uefi_bare_bones.Aml.Code.{next_byte, parse_length, parse_namestring}
use uefi_bare_bones.Aml.Code.Readers.{
  Leaves, leaves_none, leaves_some, Leaves-rest, next_byte-Leaves, parse_length-Leaves,
  parse_namestring-Leaves,
}
use uefi_bare_bones.Aml.Namespace.Depth.{
  HasParents, Searches, searches_ok, searches_exit, searches_undefined, searches_too_deep,
}
use uefi_bare_bones.Aml.Namespace.{
  Aml, Result, ok, exit as search_exit, undefined as search_undefined, too_deep as search_too_deep,
}
use uefi_bare_bones.Aml.Interp.{
  Outcome, done, exit, undefined, past_depth, too_deep, Interp, M, ◌>>=◌, pure, bind, put_code,
  code_of, set_code, get_code, reading, read_with, take_bytes, advance, assert, debug_exit, fault,
  lift_result, spanned,
}
use uefi_bare_bones.Aml.Interp.Cursor.{code_of-put_code}

-- No fuel is missing, a walk up the parents is too long for a depth only where there are so many
-- parents, and where the operation is done at most `n` bytes are left in `ns`.
pub data Within {A : Type 0} (d ns n : ℕ) : Outcome (A × Interp) → Type 0 where
  within_done : (a : A) (s : Interp) → length (code_of ns s) ≤ n → Within d ns n (done (a, s))
  within_exit : Within d ns n exit
  within_undefined : Within d ns n undefined
  within_past : (aml : Aml) (q : ℕ) → HasParents d aml q → Within d ns n (past_depth d aml q)

pub Within-enough :
    {A : Type 0} {d ns n : ℕ} {o : Outcome (A × Interp)} → Within d ns n o → o ≢ too_deep
Within-enough (within_done a s l) = ground arith
Within-enough within_exit = ground arith
Within-enough within_undefined = ground arith
Within-enough (within_past aml q h) = ground arith

pub Within-more :
    {A : Type 0} {d ns n m : ℕ} {o : Outcome (A × Interp)}
    → n ≤ m
    → Within d ns n o
    → Within d ns m o
Within-more h (within_done a s l) = within_done a s (omega arith)
Within-more h within_exit = within_exit
Within-more h within_undefined = within_undefined
Within-more h (within_past aml q p) = within_past aml q p

pub bind-Within :
    {A B : Type 0} {d ns n ms m : ℕ} {o : Outcome (A × Interp)} {f : A → M B}
    → Within d ns n o
    → ((a : A) (s : Interp) → length (code_of ns s) ≤ n → Within d ms m (f a s))
    → Within d ms m (bind o f)
bind-Within (within_done a s l) k = k a s l
bind-Within within_exit k = within_exit
bind-Within within_undefined k = within_undefined
bind-Within (within_past aml q h) k = within_past aml q h

pub bind_assoc :
    {A B C : Type 0} (o : Outcome (A × Interp)) (f : A → M B) (g : B → M C)
    → bind (bind o f) g ≡ bind o (λ a. f a >>= g)
bind_assoc (done r) f g = refl
bind_assoc exit f g = refl
bind_assoc undefined f g = refl
bind_assoc (past_depth d aml q) f g = refl
bind_assoc too_deep f g = refl

-- An operation that leaves no more code than there is.
pub record Bound {A : Type 0} (d ns n : ℕ) (m : M A) : Type 0 where
  pub bounds : (s : Interp) → length (code_of ns s) ≤ n → Within d ns n (m s)

pub bind-Bound :
    {A B : Type 0} {d ns n : ℕ} {m : M A} {f : A → M B}
    → Bound d ns n m
    → ((a : A) → Bound d ns n (f a))
    → Bound d ns n (m >>= f)
bind-Bound b k = record { bounds = λ s l. bind-Within (b.bounds s l) (λ a s'. (k a).bounds s') }

pub pure-Bound : {A : Type 0} {d ns n : ℕ} (a : A) → Bound d ns n (pure a)
pure-Bound a = record { bounds = λ s l. within_done a s l }

pub exit-Bound : {A : Type 0} {d ns n : ℕ} → Bound {A = A} d ns n debug_exit
exit-Bound = record { bounds = λ s l. within_exit }

pub fault-Bound : {A : Type 0} {d ns n : ℕ} → Bound {A = A} d ns n fault
fault-Bound = record { bounds = λ s l. within_undefined }

pub if-Bound :
    {A : Type 0} {d ns n : ℕ} (b : Bool) {x y : M A}
    → Bound d ns n x
    → Bound d ns n y
    → Bound d ns n (if b then x else y)
if-Bound {A} {d} {ns} {n} b x y = choice (λ (m : M A). Bound d ns n m) b x y

pub assert-Bound : {d ns n : ℕ} (b : Bool) → Bound d ns n (assert b)
assert-Bound b = if-Bound b (pure-Bound tt) exit-Bound

lift_result-Within :
    {A : Type 0} {d ns n : ℕ} (q : ℕ) (r : Result A) (s : Interp)
    → Searches d s.aml q r
    → length (code_of ns s) ≤ n
    → Within d ns n (lift_result d q r s)
lift_result-Within q (ok a) s (searches_ok _) l = within_done a s l
lift_result-Within q search_exit s searches_exit l = within_exit
lift_result-Within q search_undefined s searches_undefined l = within_undefined
lift_result-Within q search_too_deep s (searches_too_deep h) l = within_past s.aml q h

pub lift_result-Bound :
    {A : Type 0} {d ns n : ℕ} (q : ℕ) (r : Interp → Result A)
    → ((s : Interp) → Searches d s.aml q (r s))
    → Bound d ns n (λ s. lift_result d q (r s) s)
lift_result-Bound q r h = record { bounds = λ s l. lift_result-Within q (r s) s (h s) l }

-- A look at the state.
pub look-Bound : {A : Type 0} {d ns n : ℕ} (f : Interp → A) → Bound d ns n (λ s. done (f s, s))
look-Bound f = record { bounds = λ s l. within_done (f s) s l }

-- An update of the state that leaves the code where it is.
pub update-Bound :
    {A : Type 0} {d ns n : ℕ} (f : Interp → A) (g : Interp → Interp)
    → ((s : Interp) → code_of ns (g s) ≡ code_of ns s)
    → Bound d ns n (λ s. done (f s, g s))
update-Bound {A} {ns} {n} f g e = record {
  bounds = λ s l. within_done (f s) (g s) (subst (λ c. length c ≤ n) (sym (e s)) l);
}

pub get_code-Bound :
    {A : Type 0} {d ns n : ℕ} {f : List ℕ → M A}
    → ((code : List ℕ) → length code ≤ n → Bound d ns n (f code))
    → Bound d ns n (get_code ns >>= f)
get_code-Bound {A} {ns} k = record { bounds = λ s l. (k (code_of ns s) l).bounds s l }

-- As much fuel as there is code.
pub fuel-Bound :
    {A : Type 0} {d ns n : ℕ} {f : List ℕ → M A}
    → ((code : List ℕ) → Bound d ns (length code) (f code))
    → Bound d ns n (get_code ns >>= f)
fuel-Bound {A} {ns} k = record {
  bounds = λ s l. Within-more l ((k (code_of ns s)).bounds s (omega arith));
}

pub put_code-Within :
    {d : ℕ} {A : Type 0} (a : A) (ns n : ℕ) (code : List ℕ) (s : Interp)
    → length code ≤ n
    → Within d ns n (done (a, put_code ns code s))
put_code-Within a ns n code s l =
    within_done a (put_code ns code s)
      (subst (λ c. length c ≤ n) (sym (code_of-put_code ns code s)) l)

pub set_code-Bound :
    {d ns n : ℕ} (code : List ℕ) → length code ≤ n → Bound d ns n (set_code ns code)
set_code-Bound {ns} {n} code h = record { bounds = λ s l. put_code-Within tt ns n code s h }

pub advance-Bound :
    {A : Type 0} {d ns n : ℕ} (count : ℕ) (code : List ℕ) {f : List ℕ → M A}
    → length code ≤ n
    → ((end : List ℕ) → length end ≤ n → Bound d ns n (f end))
    → Bound d ns n (advance count code >>= f)
advance-Bound {A} {ns} {n} count code {f} l k =
    let d = length-drop count code in
    let after = k (drop count code) (omega arith) in
    record {
      bounds = λ s h. elim (Bool-cases (ltb (length code) count)) [
        | inl t ↦ rw t within_undefined
        | inr t ↦ rw t (after.bounds s h)
      ];
    }

pub reading-Within :
    {d : ℕ} {A : Type 0} (ns n : ℕ) (read : List ℕ → Option (A × List ℕ)) (s : Interp)
    → Leaves n (read (code_of ns s))
    → Within d ns n (reading read ns s)
reading-Within ns n read s h = elim (Option-cases (read (code_of ns s))) [
  | inl e ↦ rw e within_undefined
  | inr ((a, rest), e) ↦ rw e (put_code-Within a ns n rest s (Leaves-rest a rest h e))
]

pub reading-Bound :
    {A : Type 0} {d ns n : ℕ} (read : List ℕ → Option (A × List ℕ))
    → ((code : List ℕ) → Leaves (length code) (read code))
    → Bound d ns n (reading read ns)
reading-Bound {A} {ns} {n} read h = record {
  bounds =
      λ s l. Within-more l (reading-Within ns (length (code_of ns s)) read s (h (code_of ns s)));
}

next_from :
    {d : ℕ} (ns n : ℕ) (code : List ℕ) (s : Interp)
    → length code ≤ suc n
    → Within d ns n (read_with ns (next_byte code) s)
next_from ns n [] s l = within_undefined
next_from ns n (b ∷ code) s l = put_code-Within b ns n code s (omega arith)

-- A byte that is read is one less.
pub next_byte-Within :
    {d : ℕ} (ns n : ℕ) (s : Interp)
    → length (code_of ns s) ≤ suc n
    → Within d ns n (reading next_byte ns s)
next_byte-Within ns n s l = next_from ns n (code_of ns s) s l

no_byte_from :
    {d : ℕ} {A : Type 0} (ns m : ℕ) (code : List ℕ) (s : Interp) (f : ℕ → M A)
    → length code ≤ 0
    → Within d ns m (bind (read_with ns (next_byte code) s) f)
no_byte_from ns m [] s f l = within_undefined
no_byte_from ns m (b ∷ code) s f l = absurd (omega arith)

-- With no byte left there is none to read.
pub no_byte-Within :
    {d : ℕ} {A : Type 0} (ns m : ℕ) (s : Interp) (f : ℕ → M A)
    → length (code_of ns s) ≤ 0
    → Within d ns m (bind (reading next_byte ns s) f)
no_byte-Within ns m s f l = no_byte_from ns m (code_of ns s) s f l

-- What begins with a byte, and goes on with less code.
pub byte-Bound :
    {A : Type 0} {d ns n : ℕ} {f : ℕ → M A}
    → ((k : ℕ)
        → n ≡ suc k
        → (b : ℕ) (s : Interp) → length (code_of ns s) ≤ k
        → Within d ns n (f b s))
    → Bound d ns n (reading next_byte ns >>= f)
byte-Bound {A} {ns} {n = zero} {f} next = record { bounds = λ s l. no_byte-Within ns 0 s f l }
byte-Bound {A} {ns} {n = suc n} {f} next = record {
  bounds = λ s l. bind-Within (next_byte-Within ns n s l) (λ b s' h. next n refl b s' h);
}

pub next_byte-Bound : {d ns n : ℕ} → Bound d ns n (reading next_byte ns)
next_byte-Bound =
    reading-Bound next_byte (λ code. next_byte-Leaves (length code) code (omega arith))

pub parse_length-Bound : {d ns n : ℕ} → Bound d ns n (reading parse_length ns)
parse_length-Bound =
    reading-Bound parse_length (λ code. parse_length-Leaves (length code) code (omega arith))

pub parse_namestring-Bound : {d ns n : ℕ} → Bound d ns n (reading parse_namestring ns)
parse_namestring-Bound =
    reading-Bound parse_namestring
      (λ code. parse_namestring-Leaves (length code) code (omega arith))

take_bytes-Leaves : (count : ℕ) (code : List ℕ) → Leaves (length code) (take_bytes count code)
take_bytes-Leaves count code =
    let d = length-drop count code in
    choice (λ (o : Option (List ℕ × List ℕ)). Leaves (length code) o) (ltb (length code) count)
      leaves_none (leaves_some (take count code) (drop count code) (omega arith))

pub take_bytes-Bound : {d ns n : ℕ} (count : ℕ) → Bound d ns n (reading (take_bytes count) ns)
take_bytes-Bound count = reading-Bound (take_bytes count) (take_bytes-Leaves count)

-- What `spanned` gives is the code that there is.
pub spanned-Bound :
    {B : Type 0} {d ns n : ℕ} (f : List ℕ × ℕ → M B)
    → ((code : List ℕ) (len : ℕ) → length code ≤ n → Bound d ns n (f (code, len)))
    → Bound d ns n (spanned ns >>= f)
spanned-Bound {B} {d} {ns} {n} f k = record {
  bounds = λ s l.
      subst (λ (o : Outcome (B × Interp)). Within d ns n o)
        (sym (bind_assoc (reading parse_length ns s) (λ len. pure (code_of ns s, len)) f))
        ((bind-Bound {f = λ len. f (code_of ns s, len)} parse_length-Bound
            (λ len. k (code_of ns s) len l)).bounds
          s l);
}
