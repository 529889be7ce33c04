-- ===== src/Memory/FrameAllocator/Laws.antt =====
-- lethe-kernel/memory/initial_frame_allocator.c against the list of the free frames.
use uefi_bare_bones.Prelude.{
  ℕ, zero, suc, ◌+◌, ◌-◌, ◌/◌, ◌^◌, ◌≤◌, ◌<◌, ◌≡◌, refl, ◌≢◌, Bool, true, false, Option, none, some,
  List, [], ◌∷◌, ◌++◌, arith, ◌==◌, length, if◌then◌else◌, sub64,
}
use native.Mathlib.Decide.{ℕ_discrete}
use uefi_bare_bones.Memory.FrameAllocator.{
  MemmapEntry, Frame, FrameAllocator, Outcome, done, panic, claim, skip_zero, memmap_usable,
  kernel_used,
}

-- `count` frames from an address on.
abbrev pub run_of : ℕ → ℕ → List ℕ
run_of base zero = []
run_of base (suc count) = base ∷ run_of (base + 4096) count

-- The frames of a stretch of memory, without the one at address 0.
abbrev pub frames_of : ℕ → ℕ → List ℕ
frames_of base length =
    if base == 0 then run_of 4096 (length / 4096 - 1) else run_of base (length / 4096)

-- The frames of the usable entries.
abbrev pub map_frames : List MemmapEntry → List ℕ
map_frames [] = []
map_frames (entry ∷ entries) =
    let rest = map_frames entries in
    if entry.type == memmap_usable then frames_of entry.base entry.length ++ rest else rest

-- All that the allocator can still hand out, in its order.
abbrev pub free_frames : FrameAllocator → List ℕ
free_frames allocator =
    frames_of allocator.next.base allocator.next.length ++ map_frames allocator.memory_map

-- A stretch that ends below 2 ^ 64, and that holds a frame if it begins at address 0.
pub record IsStretch (base length : ℕ) : Type 0 where
  pub ends : base + length < 2 ^ 64
  pub first : base ≡ 0 → 4096 ≤ length

abbrev pub AreStretches : List MemmapEntry → Type 0
AreStretches [] = Unit {0}
AreStretches (entry ∷ entries) = IsStretch entry.base entry.length × AreStretches entries

pub record IsValid (allocator : FrameAllocator) : Type 0 where
  pub started : allocator.next.start ≡ false
  pub current : IsStretch allocator.next.base allocator.next.length
  pub entries : AreStretches allocator.memory_map

abbrev pub usable : List MemmapEntry → ℕ
usable [] = 0
usable (entry ∷ entries) =
    let rest = usable entries in if entry.type == memmap_usable then suc rest else rest

pub usable-le : (entries : List MemmapEntry) → usable entries ≤ length entries
usable-le [] = omega arith
usable-le (entry ∷ entries) = ground (arith, usable-le entries)

-- What `next_usable` does to the map.
pub record Claims (before : List MemmapEntry) (entry : MemmapEntry) (after : List MemmapEntry)
    : Type 0 where
  pub frames : map_frames before ≡ frames_of entry.base entry.length ++ map_frames after
  pub fewer : usable before ≡ suc (usable after)
  pub stretch : AreStretches before → IsStretch entry.base entry.length × AreStretches after

pub data Claimed (before : List MemmapEntry)
    : Option (MemmapEntry × List MemmapEntry) → Type 0 where
  nothing : map_frames before ≡ [] → Claimed before none
  found :
      (entry : MemmapEntry) (after : List MemmapEntry)
      → Claims before entry after
      → Claimed before (some (entry, after))

pub claim-Claimed : (entries : List MemmapEntry) → Claimed entries (claim entries)
unfolding claim
claim-Claimed [] = nothing refl
claim-Claimed (entry ∷ entries) =
    go (entry.type == memmap_usable) refl (claim entries) (claim-Claimed entries) refl
  where
    go :
        (b : Bool)
        → (entry.type == memmap_usable) ≡ b
        → (o : Option (MemmapEntry × List MemmapEntry)) → Claimed entries o
        → claim entries ≡ o
        → Claimed (entry ∷ entries) (claim (entry ∷ entries))
    go true e o c q =
        rw (e, claim)
          (found entry (record entry { type = kernel_used } ∷ entries)
            (record { frames = rw e refl; fewer = rw e refl; stretch = λ s. (s.0, (s.0, s.1)) }))
    go false e none (nothing h) q = rw (e, claim) (rw q (nothing (rw e h)))
    go false e (some (entry', after)) (found _ _ h) q =
        rw (e, claim)
          (rw q (
            found entry' (entry ∷ after) (record {
              frames = rw e h.frames;
              fewer = rw e h.fewer;
              stretch = λ s. let t = h.stretch s.1 in (t.0, (s.0, t.1));
            })))

frames_of_zero : (length : ℕ) → frames_of 0 length ≡ run_of 4096 (length / 4096 - 1)
frames_of_zero length = refl

pub frames_of_ne_zero :
    (base length : ℕ) → base ≢ 0 → frames_of base length ≡ run_of base (length / 4096)
frames_of_ne_zero base length ne = ground arith

skip_at_zero :
    (next : Frame)
    → next.base ≡ 0
    → skip_zero next ≡ record next { base = next.base + 4096; length = sub64 next.length 4096 }
unfolding skip_zero
skip_at_zero next h = ground arith

skip_at_ne_zero : (next : Frame) → next.base ≢ 0 → skip_zero next ≡ next
unfolding skip_zero
skip_at_ne_zero next h = ground arith

-- The stretch after the frame at address 0 has been passed over.
pub record Skipped (next : Frame) : Type 0 where
  pub positive : (skip_zero next).base ≢ 0
  pub ends : (skip_zero next).base + (skip_zero next).length < 2 ^ 64
  pub started : (skip_zero next).start ≡ next.start
  pub frames :
      frames_of next.base next.length
      ≡ run_of (skip_zero next).base ((skip_zero next).length / 4096)

pub skip_zero-Skipped : (next : Frame) → IsStretch next.base next.length → Skipped next
skip_zero-Skipped next s = elim (ℕ_discrete next.base 0) [
  | yes z ↦
      let enough : 4096 ≤ next.length = s.first z in
      let e = skip_at_zero next z in
      let l : sub64 next.length 4096 ≡ next.length - 4096 = omega (arith, s.ends) in
      record {
        positive = rw e (omega arith);
        ends = rw e (omega (arith, s.ends));
        started = rw e refl;
        frames = rw e (
            rw (l, z)
              (rw (let q : (next.length - 4096) / 4096 ≡ next.length / 4096 - 1 = omega arith in q)
                refl));
      }
  | no ne ↦
      let e = skip_at_ne_zero next ne in
      record {
        positive = rw e ne;
        ends = rw e s.ends;
        started = rw e refl;
        frames = rw e (frames_of_ne_zero next.base next.length ne);
      }
]

-- What a call gives: the first free frame and an allocator with the others, or a panic.
pub data Allocates (al : FrameAllocator) : Outcome (ℕ × FrameAllocator) → Type 0 where
  frame :
      (addr : ℕ) (al' : FrameAllocator)
      → IsValid al'
      → free_frames al ≡ addr ∷ free_frames al'
      → Allocates al (done (addr, al'))
  exhausted : free_frames al ≡ [] → Allocates al panic
