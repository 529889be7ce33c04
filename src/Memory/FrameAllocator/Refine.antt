-- ===== src/Memory/FrameAllocator/Refine.antt =====
-- `allocate_frame` of lethe-kernel/memory/initial_frame_allocator.c takes the first of the free
-- frames.
use uefi_bare_bones.Prelude.{
  ℕ, zero, suc, ◌+◌, ◌-◌, ◌/◌, ◌≤◌, ◌<◌, ◌≡◌, refl, sym, ap, ◌∙◌, ◌⊎◌, inl, inr, true, false,
  Option, none, some, List, [], ◌∷◌, ◌++◌, arith, length, u64,
}
use native.Mathlib.Decide.{dec_lt}
use uefi_bare_bones.Memory.FrameAllocator.{
  MemmapEntry, FrameAllocator, Outcome, done, panic, claim, next_usable, skip_zero, take_frame,
  allocate, allocate_frame, init_frame_allocator,
}
use uefi_bare_bones.Memory.FrameAllocator.Laws.{
  run_of, frames_of, map_frames, free_frames, AreStretches, IsValid, usable, usable-le, Claimed,
  nothing, found, claim-Claimed, frames_of_ne_zero, Skipped, skip_zero-Skipped, Allocates, frame,
  exhausted,
}

abbrev skipped : FrameAllocator → FrameAllocator
skipped al = record al { next = skip_zero al.next }

allocate_here :
    (fuel : ℕ) (al : FrameAllocator)
    → al.next.start ≡ false
    → 4096 ≤ (skip_zero al.next).length
    → allocate (suc fuel) al ≡ done (take_frame (skipped al))
unfolding allocate
allocate_here fuel al h room = ground arith

allocate_done :
    (fuel : ℕ) (al al' : FrameAllocator)
    → al.next.start ≡ false
    → (skip_zero al.next).length < 4096
    → next_usable (skipped al) ≡ done al'
    → allocate (suc fuel) al ≡ allocate fuel al'
unfolding allocate
allocate_done fuel al al' h full e = ground arith

allocate_panic :
    (fuel : ℕ) (al : FrameAllocator)
    → al.next.start ≡ false
    → (skip_zero al.next).length < 4096
    → next_usable (skipped al) ≡ panic
    → allocate (suc fuel) al ≡ panic
unfolding allocate
allocate_panic fuel al h full e = ground arith

next_usable_found :
    (al : FrameAllocator) (entry : MemmapEntry) (after : List MemmapEntry)
    → claim al.memory_map ≡ some (entry, after)
    → next_usable al
      ≡ done (record {
        memory_map = after;
        next = record { start = false; base = entry.base; length = entry.length };
      })
unfolding next_usable
next_usable_found al entry after h = ground arith

next_usable-none : (al : FrameAllocator) → claim al.memory_map ≡ none → next_usable al ≡ panic
unfolding next_usable
next_usable-none al h = ground arith

run_of_pos :
    (base n : ℕ)
    → 4096 ≤ n
    → run_of base (n / 4096) ≡ base ∷ run_of (base + 4096) ((n - 4096) / 4096)
run_of_pos base n h = let q : n / 4096 ≡ suc ((n - 4096) / 4096) = omega arith in rw q

take_frame-Allocates :
    (al : FrameAllocator)
    → IsValid al
    → Skipped al.next
    → 4096 ≤ (skip_zero al.next).length
    → Allocates al (done (take_frame (skipped al)))
unfolding take_frame
take_frame-Allocates al v s room =
    let b = (skip_zero al.next).base in
    let l = (skip_zero al.next).length in
    let q : u64 (b + 4096) ≡ b + 4096 = omega (arith, s.ends) in
    frame b (take_frame (skipped al)).1
      (record {
        started = s.started ∙ v.started;
        current = record {
          ends = omega (arith, s.ends);
          first = λ z. absurd (omega (arith, s.ends));
        };
        entries = v.entries;
      })
      (ap (λ t. t ++ map_frames al.memory_map)
        (s.frames
          ∙ run_of_pos b l room
          ∙ ap (λ t. b ∷ t)
              (sym (frames_of_ne_zero (b + 4096) (l - 4096) (omega arith))
                ∙ ap (λ t. frames_of t (l - 4096)) (sym q))))

full-frames :
    (al : FrameAllocator)
    → Skipped al.next
    → (skip_zero al.next).length < 4096
    → free_frames al ≡ map_frames al.memory_map
full-frames al s full =
    let none_left : (skip_zero al.next).length / 4096 ≡ 0 = omega arith in
    let here : frames_of al.next.base al.next.length ≡ [] =
      s.frames ∙ ap (λ (t : ℕ). run_of (skip_zero al.next).base t) none_left in
    ap (λ t. t ++ map_frames al.memory_map) here

Allocates-rename :
    {al al' : FrameAllocator} {r : Outcome (ℕ × FrameAllocator)}
    → free_frames al ≡ free_frames al'
    → Allocates al' r
    → Allocates al r
Allocates-rename e (frame addr after v h) = frame addr after v (e ∙ h)
Allocates-rename e (exhausted h) = exhausted (e ∙ h)

pub allocate-Allocates :
    (fuel : ℕ) (al : FrameAllocator)
    → IsValid al
    → usable al.memory_map < fuel
    → Allocates al (allocate fuel al)
allocate-Allocates zero al v lt = absurd (omega arith)
allocate-Allocates (suc fuel) al v lt =
    let s = skip_zero-Skipped al.next v.current in
    elim (dec_lt (skip_zero al.next).length 4096) [
      | no room ↦
          rw (allocate_here fuel al v.started (omega arith))
            (take_frame-Allocates al v s (omega arith))
      | yes full ↦
          go s full (claim al.memory_map) refl (claim-Claimed al.memory_map)
            (λ al' v' fewer. allocate-Allocates fuel al' v' (omega arith))
    ]
  where
    go :
        Skipped al.next
        → (skip_zero al.next).length < 4096
        → (o : Option (MemmapEntry × List MemmapEntry)) → claim al.memory_map ≡ o
        → Claimed al.memory_map o
        → ((al' : FrameAllocator)
            → IsValid al'
            → usable al'.memory_map < usable al.memory_map
            → Allocates al' (allocate fuel al'))
        → Allocates al (allocate (suc fuel) al)
    go s full none e (nothing h) rest =
        rw (allocate_panic fuel al v.started full (next_usable-none (skipped al) e))
          (exhausted (full-frames al s full ∙ h))
    go s full (some (entry, after)) e (found _ _ c) rest =
        let al' : FrameAllocator = record {
          memory_map = after;
          next = record { start = false; base = entry.base; length = entry.length };
        } in
        let parts = c.stretch v.entries in
        rw (allocate_done fuel al al' v.started full (next_usable_found (skipped al) entry after e))
          (Allocates-rename (full-frames al s full ∙ c.frames) (
            rest al' (record { started = refl; current = parts.0; entries = parts.1 })
              (omega (arith, c.fewer))))

-- On a valid allocator `allocate_frame` ends, its recursion included: it returns the first of the
-- free frames and an allocator whose free frames are the others, or, when there is none, panics.
pub allocate_frame-Allocates : (al : FrameAllocator) → IsValid al → Allocates al (allocate_frame al)
unfolding allocate_frame
allocate_frame-Allocates al v =
    allocate-Allocates (length al.memory_map + 1) al v (omega (arith, usable-le al.memory_map))

-- A memory map of stretches gives a valid allocator whose free frames are those of the usable
-- entries in order, or a panic if no entry is usable.
init_frame_allocator_lem :
    (entries : List MemmapEntry)
    → AreStretches entries
    → ((al : FrameAllocator) × (init_frame_allocator entries ≡ done al)
        × IsValid al
        × (free_frames al ≡ map_frames entries))
      ⊎ ((init_frame_allocator entries ≡ panic) × (map_frames entries ≡ []))
unfolding init_frame_allocator
init_frame_allocator_lem entries a = go (claim entries) refl (claim-Claimed entries)
  where
    start : FrameAllocator
    start = record { memory_map = entries; next = record { start = true; base = 0; length = 0 } }

    go :
        (o : Option (MemmapEntry × List MemmapEntry))
        → claim entries ≡ o
        → Claimed entries o
        → ((al : FrameAllocator) × (next_usable start ≡ done al)
            × IsValid al
            × (free_frames al ≡ map_frames entries))
          ⊎ ((next_usable start ≡ panic) × (map_frames entries ≡ []))
    go none e (nothing h) = inr (next_usable-none start e, h)
    go (some (entry, after)) e (found _ _ c) =
        let parts = c.stretch a in
        inl (
          record {
            memory_map = after;
            next = record { start = false; base = entry.base; length = entry.length };
          },
          next_usable_found start entry after e,
          record { started = refl; current = parts.0; entries = parts.1 },
          sym c.frames,
        )
