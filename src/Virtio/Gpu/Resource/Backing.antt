-- ===== src/Virtio/Gpu/Resource/Backing.antt =====
-- `read_backing_range` of src/devices/virtio/devices/gpu.rs against the backing pages joined.
use ferrum_vm.Prelude.{
  ℕ, ◌+◌, ◌-◌, ◌≤◌, ◌<◌, ◌≡◌, refl, ap, ◌∙◌, sym, min, true, false, some, List, [], ◌∷◌, ◌++◌,
  length, take, drop, ◌==◌, ltb, leb, arith, ok, Build, Bool-cases, inl, inr, u64_mod, length-take,
  length-drop,
}
use ferrum_vm.Prelude.Overlay.{
  overlay, length-overlay, overlay-append, overlay_past, overlay-take, overlay_slice, overlay_none,
  drop-append_short, take_all, drop_empty, drop-append_long,
}
use ferrum_vm.Memory.{GuestMemory}
use ferrum_vm.Memory.RoundTrip.{peek}
use ferrum_vm.Memory.Held.{Held, read_part-eq-take, length-peek}
use ferrum_vm.Virtio.Gpu.Wire.{VirtioGpuMemEntry}
use ferrum_vm.Virtio.Gpu.Resource.{
  GpuResource, copy_slice, checked, saturating_add, read_entries, read_backing_range,
}

-- The bytes of the backing pages, one page after the other.
abbrev pub backing_bytes : GuestMemory → List VirtioGpuMemEntry → List ℕ
backing_bytes mem [] = []
backing_bytes mem (e ∷ es) = peek mem e.addr e.length ++ backing_bytes mem es

-- Guest RAM holds every page, no page ends past the 64-bit addresses, and neither do their lengths.
abbrev pub AllHeld : GuestMemory → ℕ → List VirtioGpuMemEntry → Type 0
AllHeld mem skipped [] = Unit {0}
AllHeld mem skipped (e ∷ es) =
    Held mem e.addr e.length
    × (e.addr + e.length < u64_mod)
    × (skipped + e.length < u64_mod)
    × AllHeld mem (skipped + e.length) es

pub copy_slice-eq-overlay :
    (out : List ℕ) (at n : ℕ) (bytes : List ℕ)
    → length bytes ≡ n
    → at + n ≤ length out
    → copy_slice out at n bytes ≡ ok (overlay out at bytes)
unfolding copy_slice
copy_slice-eq-overlay out at n bytes e h = grind (arith, overlay_slice out at bytes)

module _ (b : Build) (mem : GuestMemory) (start : ℕ) where
  piece_length :
      (e : VirtioGpuMemEntry) (at n : ℕ)
      → at + n ≤ e.length
      → length (take n (drop at (peek mem e.addr e.length))) ≡ n
  piece_length e at n h =
      let bytes = peek mem e.addr e.length in
      omega (
        arith,
        length-take n (drop at bytes),
        length-drop at bytes,
        length-peek mem e.addr e.length,
      )

  -- The piece that a round copies, and then the rest of the pages, are the bytes from its start on.
  piece_then_rest :
      (e : VirtioGpuMemEntry) (rest : List ℕ) (copied at : ℕ) (out : List ℕ)
      → at < e.length
      → copied < length out
      → overlay
          (overlay out copied
            (take (min (e.length - at) (length out - copied)) (drop at (peek mem e.addr e.length))))
          (copied + min (e.length - at) (length out - copied))
          rest
        ≡ overlay out copied (drop at (peek mem e.addr e.length ++ rest))
  piece_then_rest e rest copied at out here room =
      let bytes = peek mem e.addr e.length in
      let tail = drop at bytes in
      let size : length tail ≡ e.length - at =
        omega (arith, length-drop at bytes, length-peek mem e.addr e.length) in
      let n = min (e.length - at) (length out - copied) in
      let joined : drop at (bytes ++ rest) ≡ tail ++ rest =
        drop-append_short at bytes rest (omega (arith, length-peek mem e.addr e.length)) in
      rw joined (elim (Bool-cases (leb (e.length - at) (length out - copied))) [
        | inl whole ↦
            let m : n ≡ length tail = ground (arith, size) in
            rw (m, take_all (length tail) tail (omega arith)) (overlay-append out copied tail rest)
        | inr cut ↦
            overlay_past (overlay out copied (take n tail)) (copied + n) rest
              (ground (arith, length-overlay out copied (take n tail)))
            ∙ overlay-take out copied n tail rest (ground (arith, size)) (ground (arith, size))
      ])

  -- A round that copies.
  read_entries-copy :
      (e : VirtioGpuMemEntry) (es : List VirtioGpuMemEntry) (copied skipped : ℕ) (out : List ℕ)
      → AllHeld mem skipped (e ∷ es)
      → start - skipped < e.length
      → copied < length out
      → read_entries b mem start (e ∷ es) copied skipped out
        ≡ read_entries b mem start es
            (copied + min (e.length - (start - skipped)) (length out - copied))
            (skipped + e.length)
            (overlay out copied (
              take
                (min (e.length - (start - skipped)) (length out - copied))
                (drop (start - skipped) (peek mem e.addr e.length))))
  unfolding read_entries
  read_entries-copy e es copied skipped out (held, ends, sums, hs) here room =
      let at = start - skipped in
      let n = min (e.length - at) (length out - copied) in
      let piece = take n (drop at (peek mem e.addr e.length)) in
      let full : (copied == length out) ≡ false = ground arith in
      let reached : ltb at e.length ≡ true = ground arith in
      let inside : checked u64_mod (e.addr + at) ≡ some (e.addr + at) = ground arith in
      let sum : saturating_add u64_mod skipped e.length ≡ skipped + e.length = omega arith in
      let size : length piece ≡ n = piece_length e at n (omega arith) in
      rw
        (
          read_entries,
          full,
          reached,
          inside,
          sum,
          read_part-eq-take b mem e.addr e.length at n held (omega arith) (omega arith),
          copy_slice-eq-overlay out copied n piece size (omega arith),
        )
        refl

  pub read_entries-eq-overlay :
      (es : List VirtioGpuMemEntry) (copied skipped : ℕ) (out : List ℕ)
      → AllHeld mem skipped es
      → copied ≤ length out
      → read_entries b mem start es copied skipped out
        ≡ ok (overlay out copied (drop (start - skipped) (backing_bytes mem es)))
  unfolding read_entries
  read_entries-eq-overlay [] copied skipped out h fit =
      let none_left : drop (start - skipped) [] ≡ [] = drop_empty {A = ℕ} (start - skipped) in
      ap ok (sym (ap (overlay out copied) none_left ∙ overlay_none out copied))
  read_entries-eq-overlay (e ∷ es) copied skipped out (held, ends, sums, hs) fit =
      let at = start - skipped in
      let n = min (e.length - at) (length out - copied) in
      let out' = overlay out copied (take n (drop at (peek mem e.addr e.length))) in
      elim (Bool-cases (copied == length out)) [
        | inl full ↦
            rw (read_entries, full) (ap ok (sym (overlay_past out copied _ (ground arith))))
        | inr free ↦ elim (Bool-cases (ltb (start - skipped) e.length)) [
          | inl here ↦
              let spent : start - (skipped + e.length) ≡ 0 = ground arith in
              read_entries-copy e es copied skipped out (held, ends, sums, hs) (ground arith)
                (ground arith)
              ∙ read_entries-eq-overlay es (copied + n) (skipped + e.length) out' hs (
                  ground (
                    arith,
                    length-overlay out copied (take n (drop at (peek mem e.addr e.length))),
                  ))
              ∙ ap ok (
                  ap (λ i. overlay out' (copied + n) (drop i (backing_bytes mem es))) spent
                  ∙ piece_then_rest e (backing_bytes mem es) copied at out (ground arith)
                      (ground arith))
          | inr past ↦
              let bytes = peek mem e.addr e.length in
              let all : length bytes ≡ e.length = length-peek mem e.addr e.length in
              let shift : start - (skipped + e.length) ≡ at - length bytes = omega (arith, all) in
              let later : drop (start - (skipped + e.length)) (backing_bytes mem es)
                  ≡ drop at (bytes ++ backing_bytes mem es) =
                ap (λ i. drop i (backing_bytes mem es)) shift
                ∙ sym (drop-append_long at bytes (backing_bytes mem es) (ground (arith, all))) in
              let sum : saturating_add u64_mod skipped e.length ≡ skipped + e.length =
                omega arith in
              rw (read_entries, free, past, sum)
                (read_entries-eq-overlay es copied (skipped + e.length) out hs fit
                  ∙ ap (λ xs. ok (overlay out copied xs)) later)
        ]
      ]

-- In both builds, where guest RAM holds every page of a resource's backing, `read_backing_range` returns
-- the buffer with the bytes of the pages joined, from `start` on, written over its beginning: as many as
-- there are, up to the end of the buffer, and the rest of the buffer as it was.
pub read_backing_range-eq-overlay :
    (b : Build) (mem : GuestMemory) (r : GpuResource) (start : ℕ) (out : List ℕ)
    → AllHeld mem 0 r.backing
    → read_backing_range b mem r start out
      ≡ ok (overlay out 0 (drop start (backing_bytes mem r.backing)))
unfolding read_backing_range
read_backing_range-eq-overlay b mem r start out h =
    read_entries-eq-overlay b mem start r.backing 0 0 out h (omega arith)
    ∙ ap (λ i. ok (overlay out 0 (drop i (backing_bytes mem r.backing)))) (omega arith)
