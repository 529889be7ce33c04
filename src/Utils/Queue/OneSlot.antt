-- ===== src/Utils/Queue/OneSlot.antt =====
-- What the queue of lethe-utils/queue.c really is: its test for a full ring asks whether the tail
-- stands one past the head, which holds as soon as there is one item.
use native.Mathlib.Nat.{mod-eq_of_lt}
use native.Mathlib.Decide.{ℕ_discrete, dec_lt}
use uefi_bare_bones.Prelude.{
  ℕ, zero, suc, ◌+◌, ◌-◌, ◌%◌, ◌<◌, ◌≡◌, refl, sym, ap, ◌∙◌, ◌≢◌, false, Option, List, [], ◌∷◌,
  arith, length, set, get_or, length-set,
}
use uefi_bare_bones.Utils.Queue.{Queue, done, put, push_queue, pop_queue, pop}

-- A buffer with room for one pointer.
pub data OneSlot : Type 0 where
  vacant : OneSlot
  holds : ℕ → OneSlot

abbrev pub push_slot : OneSlot → ℕ → OneSlot
push_slot vacant x = holds x
push_slot (holds y) x = holds y

abbrev pub pop_slot : OneSlot → ℕ × OneSlot
pop_slot vacant = (0, vacant)
pop_slot (holds x) = (x, vacant)

-- A queue that cannot grow stands for such a buffer.
pub data StandsFor (q : Queue) : OneSlot → Type 0 where
  empty : q.tail ≡ q.head → StandsFor q vacant
  one :
      (x : ℕ)
      → q.tail ≡ (q.head + 1) % q.capacity
      → get_or q.inner q.head 0 ≡ x
      → StandsFor q (holds x)

pub record IsValid (q : Queue) : Type 0 where
  pub cells : length q.inner ≡ q.capacity
  pub wide : 1 < q.capacity
  pub head_in : q.head < q.capacity
  pub fixed : q.resizable ≡ false

get_or-set_self : (xs : List ℕ) (i v : ℕ) → i < length xs → get_or (set xs i v) i 0 ≡ v
get_or-set_self [] i v h = absurd (omega arith)
get_or-set_self (x ∷ xs) zero v h = refl
get_or-set_self (x ∷ xs) (suc i) v h = get_or-set_self xs i v (omega arith)

-- The next index is another one.
next-ne : (i n : ℕ) → 1 < n → i < n → (i + 1) % n ≢ i
next-ne i n wide lt = elim (dec_lt (i + 1) n) [
  | yes p ↦ omega (arith, mod-eq_of_lt p)
  | no p ↦ let q : i + 1 ≡ n = omega arith in rw q (grind arith)
]

module _ (realloc : List ℕ → ℕ → Option (List ℕ)) where
  put_runs :
      (q : Queue) (x : ℕ)
      → q.tail < length q.inner
      → put q x ≡ done (record q { inner = set q.inner q.tail x; tail = (q.tail + 1) % q.capacity })
  unfolding put
  put_runs q x h = ground arith

  push_room :
      (q : Queue) (x : ℕ) → (q.head + 1) % q.capacity ≢ q.tail → push_queue realloc q x ≡ put q x
  unfolding push_queue
  push_room q x h = ground arith

  push_refused :
      (q : Queue) (x : ℕ)
      → (q.head + 1) % q.capacity ≡ q.tail
      → q.resizable ≡ false
      → push_queue realloc q x ≡ done q
  unfolding push_queue
  push_refused q x h fixed = ground arith

  -- A push on a queue that stands for an empty buffer stores the pointer; on one that holds a
  -- pointer it changes nothing.
  pub push_queue-StandsFor :
      {q : Queue} {s : OneSlot}
      → IsValid q
      → StandsFor q s
      → (x : ℕ)
      → (q' : Queue) × (push_queue realloc q x ≡ done q')
        × IsValid q'
        × StandsFor q' (push_slot s x)
  push_queue-StandsFor {q} v (empty e) x =
      let ne = next-ne q.head q.capacity v.wide v.head_in in
      (
        record q { inner = set q.inner q.tail x; tail = (q.tail + 1) % q.capacity },
        push_room q x (λ h. ne (h ∙ e)) ∙ put_runs q x (omega (arith, v.cells, v.head_in)),
        record {
          cells = length-set q.inner q.tail x ∙ v.cells;
          wide = v.wide;
          head_in = v.head_in;
          fixed = v.fixed;
        },
        one x (ap (λ (t : ℕ). (t + 1) % q.capacity) e)
            (rw e (get_or-set_self q.inner q.head x (omega (arith, v.cells, v.head_in)))),
      )
  push_queue-StandsFor {q} v (one y e h) x = (q, push_refused q x (sym e) v.fixed, v, one y e h)

pop_empty : (f : ℕ) (q : Queue) → q.tail ≡ q.head → pop_queue (suc f) q ≡ done (0, q)
unfolding pop_queue
pop_empty f q e = ground arith

pop_skip :
    (f : ℕ) (q : Queue)
    → q.head ≢ q.tail
    → q.head < length q.inner
    → get_or q.inner q.head 0 ≡ 0
    → pop_queue (suc f) q ≡ pop_queue f (record q { head = (q.head + 1) % q.capacity })
unfolding pop_queue
pop_skip f q ne lt null = ground arith

pop_found :
    (f : ℕ) (q : Queue) (x : ℕ)
    → q.head ≢ q.tail
    → q.head < length q.inner
    → get_or q.inner q.head 0 ≡ x
    → x ≢ 0
    → pop_queue (suc f) q ≡ done (x, record q { head = (q.head + 1) % q.capacity })
unfolding pop_queue
pop_found f q x ne lt at some_ptr = ground arith

pop_fuel :
    {q : Queue} {s : OneSlot} (f : ℕ)
    → IsValid q
    → StandsFor q s
    → (q' : Queue) × (pop_queue (suc (suc f)) q ≡ done ((pop_slot s).0, q'))
      × IsValid q'
      × StandsFor q' (pop_slot s).1
pop_fuel {q} f v (empty e) = (q, pop_empty (suc f) q e, v, empty e)
pop_fuel {q} f v (one x e h) =
    let moved : IsValid (record q { head = (q.head + 1) % q.capacity }) = record {
      cells = v.cells;
      wide = v.wide;
      head_in = omega (arith, v.wide);
      fixed = v.fixed;
    } in
    let ne : q.head ≢ q.tail =
      λ same. next-ne q.head q.capacity v.wide v.head_in (sym (same ∙ e)) in
    let lt : q.head < length q.inner = omega (arith, v.cells, v.head_in) in
    let after : Queue = record q { head = (q.head + 1) % q.capacity } in
    elim (ℕ_discrete x 0) [
      | yes null ↦ (
        after,
        pop_skip (suc f) q ne lt (h ∙ null)
            ∙ pop_empty f after e
            ∙ ap (λ (t : ℕ). done (t, after)) (sym null),
        moved,
        empty e,
      )
      | no ptr ↦ (after, pop_found (suc f) q x ne lt h ptr, moved, empty e)
    ]

-- `pop_queue` gives what the buffer held, NULL for nothing, and leaves it empty; the recursion
-- over NULL pointers ends.
pub pop-StandsFor :
    {q : Queue} {s : OneSlot}
    → IsValid q
    → StandsFor q s
    → (q' : Queue) × (pop q ≡ done ((pop_slot s).0, q')) × IsValid q' × StandsFor q' (pop_slot s).1
unfolding pop
pop-StandsFor {q} {s} v r =
    let fuel : q.capacity + 1 ≡ suc (suc (q.capacity - 1)) = omega (arith, v.wide) in
    rw fuel (pop_fuel (q.capacity - 1) v r)
