-- ===== src/Vm/Memory/Slots.antt =====
-- What the slots of guest RAM cover (src/vm/builder.rs).
use ferrum_vm.Prelude.{
  ℕ, suc, ◌+◌, ◌-◌, ◌≤◌, ◌<◌, ◌≡◌, refl, ap, ◌∙◌, Bool, false, not, ◌&&◌, ◌||◌, List, [], ◌∷◌, ◌++◌,
  Option, none, some, leb, ltb, if_cases, if◌then◌else◌, arith, ok, Build, u64_mod, ◌==◌,
  add_word_exact, sub_word_exact,
}
use ferrum_vm.Vm.Memory.{
  Range, range, ioapic, lapic, carve_segment, carve, segments, Slot, slots_from, new_mem,
}

abbrev pub in_range : Range → ℕ → Bool
in_range r a = leb r.start a && ltb a r.end

abbrev pub covered : List Range → ℕ → Bool
covered [] a = false
covered (r ∷ rs) a = in_range r a || covered rs a

covered-append :
    (rs ss : List Range) (a : ℕ) → covered (rs ++ ss) a ≡ (covered rs a || covered ss a)
covered-append [] ss a = refl
covered-append (r ∷ rs) ss a = ground (arith, covered-append rs ss a)

covered-carve_segment :
    (hole seg : Range) (a : ℕ)
    → covered (carve_segment hole seg) a ≡ (in_range seg a && not (in_range hole a))
unfolding carve_segment
covered-carve_segment hole seg a = ground arith

covered-carve :
    (hole : Range) (segs : List Range) (a : ℕ)
    → covered (carve hole segs) a ≡ (covered segs a && not (in_range hole a))
unfolding carve
covered-carve hole [] a = refl
covered-carve hole (seg ∷ segs) a =
    covered-append (carve_segment hole seg) (carve hole segs) a
    ∙ ground (arith, covered-carve_segment hole seg a, covered-carve hole segs a)

covered-segments :
    (start end a : ℕ)
    → covered (segments start end) a
      ≡ (in_range (range start end) a && not (in_range ioapic a) && not (in_range lapic a))
unfolding segments
covered-segments start end a =
    let first = covered-carve ioapic (range start end ∷ []) a in
    let second = covered-carve lapic (carve ioapic (range start end ∷ [])) a in
    ground (arith, first, second)

-- Every segment is inside the region.
AllWithin : ℕ → ℕ → List Range → Type 0
AllWithin start end [] = Unit
AllWithin start end (r ∷ rs) =
    (start ≤ r.start) × (r.start ≤ r.end) × (r.end ≤ end) × AllWithin start end rs

AllWithin-append :
    (start end : ℕ) (rs ss : List Range)
    → AllWithin start end rs
    → AllWithin start end ss
    → AllWithin start end (rs ++ ss)
unfolding AllWithin
AllWithin-append start end [] ss h k = k
AllWithin-append start end (r ∷ rs) ss (h₁, h₂, h₃, h) k =
    (h₁, h₂, h₃, AllWithin-append start end rs ss h k)

AllWithin-carve_segment :
    (start end : ℕ) (hole r : Range)
    → start ≤ r.start
    → r.start ≤ r.end
    → r.end ≤ end
    → AllWithin start end (carve_segment hole r)
unfolding AllWithin carve_segment
AllWithin-carve_segment start end hole r h₁ h₂ h₃ =
    let P = AllWithin start end in
    if_cases P (leb r.end hole.start || leb hole.end r.start) (λ e. (h₁, h₂, h₃, tt))
      (λ apart.
        AllWithin-append start end _ _
          (if_cases P (ltb r.start hole.start) (λ lt. (h₁, ground arith, ground arith, tt))
            (λ e. tt))
          (if_cases P (ltb hole.end r.end) (λ lt. (ground arith, ground arith, h₃, tt)) (λ e. tt)))

AllWithin-carve :
    (start end : ℕ) (hole : Range) (segs : List Range)
    → AllWithin start end segs
    → AllWithin start end (carve hole segs)
unfolding AllWithin carve
AllWithin-carve start end hole [] h = h
AllWithin-carve start end hole (r ∷ rs) (h₁, h₂, h₃, h) =
    AllWithin-append start end (carve_segment hole r) (carve hole rs)
      (AllWithin-carve_segment start end hole r h₁ h₂ h₃) (AllWithin-carve start end hole rs h)

one-AllWithin : (start end : ℕ) → start ≤ end → AllWithin start end (range start end ∷ [])
unfolding AllWithin
one-AllWithin start end h = (omega arith, h, omega arith, tt)

-- KVM keeps one slot for each number: a later call for the same number replaces the slot.
abbrev pub replaced : ℕ → List Slot → Bool
replaced n [] = false
replaced n (s ∷ ss) = n == s.slot || replaced n ss

-- The host address that backs a guest address after these calls of set_user_memory_region, in their
-- order: that of the slot that covers it and that no later call has replaced.
unfoldable pub translate : List Slot → ℕ → Option ℕ
translate [] a = none
translate (s ∷ ss) a =
    if not (replaced s.slot ss)
      && leb s.guest_phys_addr a
      && ltb a (s.guest_phys_addr + s.memory_size)
    then some (s.userspace_addr + (a - s.guest_phys_addr))
    else translate ss a

slots_from-translate :
    (b : Build) (userspace_mem start end slot : ℕ) (segs : List Range)
    → AllWithin start end segs
    → userspace_mem + (end - start) < u64_mod
    → (slots : List Slot) × (slots_from b userspace_mem start slot segs ≡ ok slots)
      × ((n : ℕ) → n < slot → replaced n slots ≡ false)
      × ((a : ℕ)
          → translate slots a
            ≡ (if covered segs a then some (userspace_mem + (a - start)) else none))
unfolding slots_from AllWithin translate
slots_from-translate b userspace_mem start end slot [] h fit = ([], refl, λ n lt. refl, λ a. refl)
slots_from-translate b userspace_mem start end slot (r ∷ rs) (h₁, h₂, h₃, h) fit =
    let (rest, e, other, same) =
      slots_from-translate b userspace_mem start end (suc slot) rs h fit in
    (
      record {
        slot = slot;
        guest_phys_addr = r.start;
        memory_size = r.end - r.start;
        userspace_addr = userspace_mem + (r.start - start);
      }
          ∷ rest,
      rw
          (
            sub_word_exact b u64_mod r.end r.start h₂,
            sub_word_exact b u64_mod r.start start h₁,
            add_word_exact b u64_mod userspace_mem (r.start - start) (omega arith),
            e,
          )
          refl,
      λ n lt. ground (arith, other n (omega arith)),
      λ a. ground (arith, same a, other slot (omega arith)),
    )

pub new_mem-translate :
    (b : Build) (userspace_mem mem_size mem_offset : ℕ)
    → mem_offset + mem_size < u64_mod
    → userspace_mem + mem_size < u64_mod
    → (slots : List Slot) × (new_mem b userspace_mem mem_size mem_offset ≡ ok slots)
      × ((a : ℕ)
          → translate slots a ≡ (
              if in_range (range mem_offset (mem_offset + mem_size)) a
                && not (in_range ioapic a)
                && not (in_range lapic a)
              then some (userspace_mem + (a - mem_offset))
              else none))
unfolding new_mem segments
new_mem-translate b userspace_mem mem_size mem_offset fits host =
    let end = mem_offset + mem_size in
    let whole = range mem_offset end ∷ [] in
    let inside : AllWithin mem_offset end (segments mem_offset end) =
      AllWithin-carve mem_offset end lapic (carve ioapic whole) (
        AllWithin-carve mem_offset end ioapic whole (one-AllWithin mem_offset end (omega arith))) in
    let (slots, e, other, same) =
      slots_from-translate b userspace_mem mem_offset end 0 (segments mem_offset end) inside
        (omega arith) in
    (
      slots,
      rw (add_word_exact b u64_mod mem_offset mem_size fits) e,
      λ a.
          same a
          ∙ ap (λ c. if c then some (userspace_mem + (a - mem_offset)) else none)
              (covered-segments mem_offset end a),
    )
