-- ===== src/Virtio/Gpu/Gather/Chain.antt =====
-- `gather_control_request` of src/devices/virtio/devices/gpu.rs against the chains of descriptors that
-- it accepts.
use ferrum_vm.Prelude.{
  ℕ, zero, suc, ◌≤◌, ◌<◌, ◌≡◌, ◌≢◌, ◌↔◌, refl, ◌∙◌, sym, subst, bit_and, true, false, ◌||◌, Option,
  none, some, List, [], ◌∷◌, ◌++◌, length, is_empty, ◌==◌, ◌!=◌, ltb, leb, if◌then◌else◌, arith,
  Result, ok, >>=-eq-ok, Build, u64_mod, length-append, append-nil, append_assoc, Bool-cases, inl,
  inr,
}
use ferrum_vm.Memory.{GuestMemory, read_guest_memory_alloc}
use ferrum_vm.Memory.Sizes.{length-read_guest_memory_alloc}
use ferrum_vm.Virtqueue.{VirtioQueue, VirtqDesc, get_descriptor}
use ferrum_vm.Virtio.Gpu.{max_request_bytes}
use ferrum_vm.Virtio.Gpu.Resource.{saturating_add}
use ferrum_vm.Virtio.Gpu.Gather.{gather_from, gather_control_request}

is_empty_of : (xs : List ℕ) → 0 < length xs → is_empty xs ≡ false
is_empty_of [] h = elim h [ ]
is_empty_of (x ∷ xs) h = refl

is_empty-false : (xs : List ℕ) → is_empty xs ≡ false → 0 < length xs
is_empty-false [] h = cc
is_empty-false (x ∷ xs) h = omega arith

module _ (b : Build) (mem : GuestMemory) (q : VirtioQueue) where
  -- A chain from descriptor `index` on: readable descriptors with the bytes they name, then a writable
  -- one. The first number counts the readable ones.
  pub data Chain : ℕ → ℕ → List ℕ → VirtqDesc → Type 0 where
    last :
        (index : ℕ) (desc : VirtqDesc)
        → get_descriptor b mem q index ≡ ok desc
        → bit_and desc.flags 2 ≢ 0
        → Chain 0 index [] desc
    link :
        (n index : ℕ) (desc : VirtqDesc) (chunk bytes : List ℕ) (end : VirtqDesc)
        → get_descriptor b mem q index ≡ ok desc
        → bit_and desc.flags 2 ≡ 0
        → bit_and desc.flags 1 ≢ 0
        → desc.next < q.size
        → read_guest_memory_alloc b mem desc.addr desc.len ≡ ok chunk
        → Chain n desc.next bytes end
        → Chain (suc n) index (chunk ++ bytes) end

  -- A chain that the device accepts: its bytes are there, and they and it are not too long.
  abbrev pub Request : ℕ → List ℕ → VirtqDesc → Type 0
  Request head bytes desc =
      (n : ℕ) × (n < q.size)
      × (0 < length bytes)
      × (length bytes ≤ max_request_bytes)
      × Chain n head bytes desc

  gather_from_complete :
      (rounds n index : ℕ) (request bytes : List ℕ) (desc : VirtqDesc)
      → Chain n index bytes desc
      → n < rounds
      → 0 < length (request ++ bytes)
      → length (request ++ bytes) ≤ max_request_bytes
      → gather_from b mem q rounds index request ≡ ok (some (request ++ bytes, desc))
  unfolding gather_from
  gather_from_complete zero n index request bytes desc c few pos fit = elim few [ ]
  gather_from_complete (suc rounds) _ _ request _ _ (last index desc e w) few pos fit =
      let full : is_empty request ≡ false = is_empty_of request (rw (append-nil request) at pos) in
      let writable : (bit_and desc.flags 2 != 0) ≡ true = ground (arith, w) in
      rw (append-nil request, gather_from, e, writable, full) refl
  gather_from_complete (suc rounds) _ _ request _ _
        (link n index desc chunk bytes end e ro more inside e₁ c) few pos fit =
      let readable : (bit_and desc.flags 2 != 0) ≡ false = ground (arith, ro) in
      let size = length-read_guest_memory_alloc b mem desc.addr desc.len chunk e₁ in
      let whole = length-append request (chunk ++ bytes) in
      let parts = length-append chunk bytes in
      let short : ltb max_request_bytes (saturating_add u64_mod (length request) desc.len) ≡ false =
        ground (arith, size, whole, parts) in
      let goes_on : (bit_and desc.flags 1 == 0 || leb q.size desc.next) ≡ false =
        ground (arith, more, inside) in
      let assoc : (request ++ chunk) ++ bytes ≡ request ++ (chunk ++ bytes) =
        append_assoc request chunk bytes in
      rw (gather_from, e, readable, short, e₁, goes_on, sym assoc)
        (gather_from_complete rounds n desc.next (request ++ chunk) bytes end c (omega arith)
          (rw assoc pos) (rw assoc fit))

  -- What a gathering that succeeds has walked.
  abbrev Walked : ℕ → ℕ → List ℕ → List ℕ → VirtqDesc → Type 0
  Walked rounds index request out desc =
      (n : ℕ) × (bytes : List ℕ) × (n < rounds)
      × (out ≡ request ++ bytes)
      × (0 < length out)
      × (length out ≤ max_request_bytes)
      × Chain n index bytes desc

  gather_from_sound :
      (rounds index : ℕ) (request out : List ℕ) (desc : VirtqDesc)
      → length request ≤ max_request_bytes
      → gather_from b mem q rounds index request ≡ ok (some (out, desc))
      → Walked rounds index request out desc
  unfolding gather_from
  gather_from_sound zero index request out desc fit h = cc
  gather_from_sound (suc rounds) index request out desc fit h =
      let (d, e, h₁) = >>=-eq-ok (get_descriptor b mem q index) _ h in
      elim (Bool-cases (bit_and d.flags 2 != 0)) [
        | inl w ↦ ended d e w (rw w at h₁)
        | inr ro ↦
            elim (Bool-cases
              (ltb max_request_bytes (saturating_add u64_mod (length request) d.len))) [
                | inl long ↦ stopped (rw (ro, long) at h₁)
                | inr short ↦
                    let (chunk, e₁, h₂) =
                      >>=-eq-ok (read_guest_memory_alloc b mem d.addr d.len) _
                        (rw (ro, short) at h₁) in
                    elim (Bool-cases (bit_and d.flags 1 == 0 || leb q.size d.next)) [
                      | inl no_more ↦ stopped (rw no_more at h₂)
                      | inr more ↦ linked d chunk e ro e₁ more (
                          gather_from_sound rounds d.next (request ++ chunk) out desc
                            (longer d chunk e₁ short) (rw more at h₂))
                    ]
              ]
      ]
    where
      stopped :
          ◌≡◌ {A = Result (Option (List ℕ × VirtqDesc))} (ok none) (ok (some (out, desc)))
          → Walked (suc rounds) index request out desc
      stopped h₁ = cc

      kept :
          (d : VirtqDesc)
          → get_descriptor b mem q index ≡ ok d
          → (bit_and d.flags 2 != 0) ≡ true
          → is_empty request ≡ false
          → ◌≡◌ {A = Result (Option (List ℕ × VirtqDesc))}
              (ok (some (request, d)))
              (ok (some (out, desc)))
          → Walked (suc rounds) index request out desc
      kept d e w full h₁ =
          let same : request ≡ out = cc in
          let ends : d ≡ desc = cc in
          let pos = is_empty-false request full in
          (
            0,
            [],
            omega arith,
            sym same ∙ sym (append-nil request),
            subst (λ xs. 0 < length xs) same pos,
            subst (λ xs. length xs ≤ max_request_bytes) same fit,
            subst (λ x. Chain 0 index [] x) ends (last index d e (ground arith)),
          )

      ended :
          (d : VirtqDesc)
          → get_descriptor b mem q index ≡ ok d
          → (bit_and d.flags 2 != 0) ≡ true
          → ◌≡◌ {A = Result (Option (List ℕ × VirtqDesc))}
              (if is_empty request then ok none else ok (some (request, d)))
              (ok (some (out, desc)))
          → Walked (suc rounds) index request out desc
      ended d e w h₁ = elim (Bool-cases (is_empty request)) [
        | inl none_yet ↦ stopped (rw none_yet at h₁)
        | inr full ↦ kept d e w full (rw full at h₁)
      ]

      longer :
          (d : VirtqDesc) (chunk : List ℕ)
          → read_guest_memory_alloc b mem d.addr d.len ≡ ok chunk
          → ltb max_request_bytes (saturating_add u64_mod (length request) d.len) ≡ false
          → length (request ++ chunk) ≤ max_request_bytes
      longer d chunk e₁ short = ground (
        arith,
        length-append request chunk,
        length-read_guest_memory_alloc b mem d.addr d.len chunk e₁,
      )

      linked :
          (d : VirtqDesc) (chunk : List ℕ)
          → get_descriptor b mem q index ≡ ok d
          → (bit_and d.flags 2 != 0) ≡ false
          → read_guest_memory_alloc b mem d.addr d.len ≡ ok chunk
          → (bit_and d.flags 1 == 0 || leb q.size d.next) ≡ false
          → Walked rounds d.next (request ++ chunk) out desc
          → Walked (suc rounds) index request out desc
      linked d chunk e ro e₁ more (n, bytes, few, same, pos, small, c) = (
        suc n,
        chunk ++ bytes,
        omega arith,
        same ∙ append_assoc request chunk bytes,
        pos,
        small,
        link n index d chunk bytes desc e (ground arith) (ground arith) (ground arith) e₁ c,
      )

  -- In both builds, what is gathered from a head is exactly a request: the bytes of a chain of fewer
  -- readable descriptors than the queue's size, in their order, neither empty nor past 256 KiB, and the
  -- writable descriptor that ends the chain.
  pub gather_control_request-Request :
      (head : ℕ) (bytes : List ℕ) (desc : VirtqDesc)
      → (gather_control_request b mem q head ≡ ok (some (bytes, desc))) ↔ Request head bytes desc
  unfolding gather_control_request
  gather_control_request-Request head bytes desc = (
    (λ h. sound (gather_from_sound q.size head [] bytes desc (omega arith) h)),
    (λ (n, few, pos, fit, c). gather_from_complete q.size n head [] bytes desc c few pos fit),
  )
    where
      sound : Walked q.size head [] bytes desc → Request head bytes desc
      sound (n, xs, few, same, pos, fit, c) =
          (n, few, pos, fit, subst (λ ys. Chain n head ys desc) (sym same) c)
