-- ===== src/Cpu/Idt/Table.antt =====
-- The interrupt table that `load_idt` of lethe-kernel/cpu/idt.c makes.
use native.Mathlib.Decide.{ℕ_discrete}
use uefi_bare_bones.Prelude.{
  ℕ, zero, suc, ◌+◌, ◌*◌, ◌%◌, ◌^◌, ◌≤◌, ◌<◌, ◌≡◌, refl, ◌≢◌, ◌∙◌, true, false, arith, ◌==◌,
  bit_and, shr, and_low_mask,
}
use uefi_bare_bones.Cpu.Idt.{
  IdtEntry, Interrupts, idt_entry_count, idt_entry, set_idt_entry_simple, unregister_handler,
  load_from, load_idt,
}

-- What the processor reads in an entry.
pub record Gates (e : IdtEntry) (handler : ℕ) : Type 0 where
  pub offset : e.offset_low + e.offset_mid * 2 ^ 16 + e.offset_high * 2 ^ 32 ≡ handler
  pub selector : e.segment_selector ≡ 0x08
  pub present_gate : e.flags ≡ 0x8E
  pub no_stack : e.ist ≡ 0

mask_16 : (x : ℕ) → bit_and x 0xFFFF ≡ x % 2 ^ 16
mask_16 x = and_low_mask 16 x

mask_32 : (x : ℕ) → bit_and x 0xFFFFFFFF ≡ x % 2 ^ 32
mask_32 x = and_low_mask 32 x

idt_entry-Gates : (handler : ℕ) → handler < 2 ^ 64 → Gates (idt_entry handler) handler
unfolding idt_entry
idt_entry-Gates handler h = record {
  offset = omega (arith, mask_16 handler, mask_16 (shr handler 16), mask_32 (shr handler 32));
  selector = refl;
  present_gate = refl;
  no_stack = refl;
}

-- One round of the loop.
abbrev round : (ℕ → ℕ) → ℕ → Interrupts → Interrupts
round stubs i state = unregister_handler (set_idt_entry_simple state i (stubs i)) i

load_step :
    (stubs : ℕ → ℕ) (left i : ℕ) (state : Interrupts)
    → load_from stubs (suc left) i state ≡ load_from stubs left (i + 1) (round stubs i state)
unfolding load_from
load_step stubs left i state = refl

round_here :
    (stubs : ℕ → ℕ) (i : ℕ) (state : Interrupts)
    → ((round stubs i state).entries i ≡ idt_entry (stubs i))
      × ((round stubs i state).isr_handler_table i ≡ 0)
unfolding set_idt_entry_simple unregister_handler
round_here stubs i state = let e : (i == i) ≡ true = ground arith in (rw e refl, rw e refl)

round_elsewhere :
    (stubs : ℕ → ℕ) (i v : ℕ) (state : Interrupts)
    → v ≢ i
    → ((round stubs i state).entries v ≡ state.entries v)
      × ((round stubs i state).isr_handler_table v ≡ state.isr_handler_table v)
unfolding set_idt_entry_simple unregister_handler
round_elsewhere stubs i v state n =
    let e : (v == i) ≡ false = ground arith in (rw e refl, rw e refl)

load_stop :
    (stubs : ℕ → ℕ) (i v : ℕ) (state : Interrupts)
    → ((load_from stubs 0 i state).entries v ≡ state.entries v)
      × ((load_from stubs 0 i state).isr_handler_table v ≡ state.isr_handler_table v)
unfolding load_from
load_stop stubs i v state = (refl, refl)

-- The rounds that are left do not touch the vectors before.
load_before :
    (stubs : ℕ → ℕ) (left i v : ℕ) (state : Interrupts)
    → v < i
    → ((load_from stubs left i state).entries v ≡ state.entries v)
      × ((load_from stubs left i state).isr_handler_table v ≡ state.isr_handler_table v)
load_before stubs zero i v state lt = load_stop stubs i v state
load_before stubs (suc left) i v state lt =
    let (a, b) = load_before stubs left (i + 1) v (round stubs i state) (omega arith) in
    let (c, d) = round_elsewhere stubs i v state (omega arith) in
    rw (load_step stubs left i state) (a ∙ c, b ∙ d)

load_reached :
    (stubs : ℕ → ℕ) (left i v : ℕ) (state : Interrupts)
    → i ≤ v
    → v < i + left
    → ((load_from stubs left i state).entries v ≡ idt_entry (stubs v))
      × ((load_from stubs left i state).isr_handler_table v ≡ 0)
load_reached stubs zero i v state le lt = absurd (omega arith)
load_reached stubs (suc left) i v state le lt = elim (ℕ_discrete v i) [
  | yes e ↦
      let (a, b) = load_before stubs left (i + 1) v (round stubs i state) (omega arith) in
      let (c, d) = round_here stubs i state in
      rw (load_step stubs left i state) (a ∙ rw e c, b ∙ rw e d)
  | no n ↦
      rw (load_step stubs left i state)
        (load_reached stubs left (i + 1) v (round stubs i state) (omega arith) (omega arith))
]

-- After `load_idt`, each of the 256 vectors has a present interrupt gate to its stub, in the
-- kernel's code segment, and no handler.
load_idt-Gates :
    (stubs : ℕ → ℕ) (state : Interrupts) (v : ℕ)
    → v < idt_entry_count
    → stubs v < 2 ^ 64
    → Gates ((load_idt stubs state).entries v) (stubs v)
      × ((load_idt stubs state).isr_handler_table v ≡ 0)
unfolding load_idt
load_idt-Gates stubs state v lt h =
    let (a, b) = load_reached stubs 256 0 v state (omega arith) lt in
    (rw a (idt_entry-Gates (stubs v) h), b)

pub load_idt_cleared :
    (stubs : ℕ → ℕ) (state : Interrupts) (v : ℕ)
    → v < idt_entry_count
    → (load_idt stubs state).isr_handler_table v ≡ 0
unfolding load_idt
load_idt_cleared stubs state v lt =
    let (_, b) = load_reached stubs 256 0 v state (omega arith) lt in b
