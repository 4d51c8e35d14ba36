-- ===== src/Virtio/Gpu/Command/Keeps.antt =====
-- Every command of the GPU device keeps its resource table (src/devices/virtio/devices/gpu.rs).
use ferrum_vm.Prelude.{
  ℕ, ◌*◌, ◌<◌, ◌≡◌, ◌∙◌, Bool, true, false, not, ◌&&◌, some, List, [], length, set, replicate, ◌==◌,
  ◌!=◌, ltb, leb, if◌then◌else◌, if_cases, arith, Result, ok, ◌>>=◌, >>=-eq-ok, subst, Build,
  length-set, inl, inr, Option-cases,
}
use ferrum_vm.Prelude.HashMap
use ferrum_vm.Prelude.HashMap.{
  get-insert, get-remove, length-insert, length-insert_old, length-remove,
}
use ferrum_vm.Memory.{GuestMemory}
use ferrum_vm.Virtio.Gpu.{DisplayBackend, max_resources, max_scanouts, bytes_per_pixel}
use ferrum_vm.Virtio.Gpu.Wire.{
  VirtioGpuSetScanout, VirtioGpuTransferToHost, create_from_bytes, drop_from_bytes,
  set_scanout_from_bytes, transfer_from_bytes, flush_from_bytes, attach_from_bytes,
  detach_from_bytes,
}
use ferrum_vm.Virtio.Gpu.Resource.{GpuResource, new_resource, contains, backing_len}
use ferrum_vm.Virtio.Gpu.Command.{
  Reply, VirtioGpu, GpuResponse, header, resp_ok_nodata, resp_err_unsupported, unbind, bind_scanout,
  get_display_info, resource_create, resource_unref, set_scanout, resource_flush, attach_backing,
  detach_backing,
}
use ferrum_vm.Virtio.Gpu.Command.Run.{transfer_base, transfer_rows, transfer_to_host, run_command}
use ferrum_vm.Virtio.Gpu.Command.Transfer.{transfer_rows-length}
use ferrum_vm.Virtio.Gpu.Command.Table.{
  IsResource, IsBound, IsTable, pixels-IsResource, backing-IsResource, update-IsTable,
  new_resource-IsResource, AllBound-mono, contains_key-insert, AllBound-set, AllBound-unbind,
  length-unbind, bind_scanout-IsBound,
}

module _ {W : Type 0} where
  pub resource_create-IsTable :
      (d : VirtioGpu W) (bytes : List ℕ) → IsTable d → IsTable (resource_create d bytes).1
  unfolding resource_create
  resource_create-IsTable d bytes t = elim (Option-cases (create_from_bytes bytes)) [
    | inl e ↦ rw (e, resource_create) t
    | inr (req, e) ↦
        rw (e, resource_create)
          (if_cases P (HashMap.contains_key d.resources req.resource_id) (λ used. t)
            (λ fresh.
              if_cases P (leb max_resources (length d.resources)) (λ full. t)
                (λ room. elim (Option-cases (new_resource req.format req.width req.height)) [
                  | inl e₁ ↦ rw e₁ t
                  | inr (r, e₁) ↦ rw e₁ (
                      created req.resource_id r
                        (new_resource-IsResource req.format req.width req.height r e₁)
                        (ground arith))
                ])))
  ]
    where
      P : Reply W → Type 0
      P r = IsTable r.1

      created :
          (id : ℕ) (r : GpuResource)
          → IsResource r
          → length d.resources < max_resources
          → IsTable (record d { resources = HashMap.insert d.resources id r })
      created id r g room = record {
        good = λ k q h. grind (arith, get-insert d.resources id r k, t.good k q);
        few = omega (arith, length-insert d.resources id r);
        screens = t.screens;
        bound =
            AllBound-mono d.resources (HashMap.insert d.resources id r) d.scanouts
              (contains_key-insert d.resources id r) t.bound;
      }

  resource_unref-IsTable :
      (d : VirtioGpu W) (bytes : List ℕ) → IsTable d → IsTable (resource_unref d bytes).1
  unfolding resource_unref
  resource_unref-IsTable d bytes t = elim (Option-cases (drop_from_bytes bytes)) [
    | inl e ↦ rw (e, resource_unref) t
    | inr (req, e) ↦ rw (e, resource_unref) (dropped req.resource_id)
  ]
    where
      dropped :
          (id : ℕ)
          → IsTable (record d {
            resources = HashMap.remove d.resources id;
            scanouts = unbind id d.scanouts;
          })
      dropped id = record {
        good = λ k q h. grind (arith, get-remove d.resources id k, t.good k q);
        few = omega (arith, length-remove d.resources id, t.few);
        screens = length-unbind id d.scanouts ∙ t.screens;
        bound = AllBound-unbind d.resources id d.scanouts t.bound;
      }

  set_scanout-IsTable :
      (d : VirtioGpu W) (bytes : List ℕ) → IsTable d → IsTable (set_scanout d bytes).1
  unfolding set_scanout
  set_scanout-IsTable d bytes t = elim (Option-cases (set_scanout_from_bytes bytes)) [
    | inl e ↦ rw (e, set_scanout) t
    | inr (req, e) ↦
        rw (e, set_scanout)
          (if_cases P (leb max_scanouts req.scanout_id) (λ out. t)
            (λ inside.
              if_cases P
                (req.resource_id != 0 && not (HashMap.contains_key d.resources req.resource_id))
                (λ missing. t)
                (λ known. bound_to req (bind_scanout-IsBound d.resources req known))))
  ]
    where
      P : Reply W → Type 0
      P r = IsTable r.1

      bound_to :
          (req : VirtioGpuSetScanout)
          → IsBound d.resources (bind_scanout req)
          → IsTable (record d { scanouts = set d.scanouts req.scanout_id (bind_scanout req) })
      bound_to req h = record {
        good = t.good;
        few = t.few;
        screens = length-set d.scanouts req.scanout_id (bind_scanout req) ∙ t.screens;
        bound = AllBound-set d.resources d.scanouts req.scanout_id (bind_scanout req) h t.bound;
      }

  pub attach_backing-IsTable :
      (d : VirtioGpu W) (bytes : List ℕ) → IsTable d → IsTable (attach_backing d bytes).1
  unfolding attach_backing
  attach_backing-IsTable d bytes t = elim (Option-cases (attach_from_bytes bytes)) [
    | inl e ↦ rw (e, attach_backing) t
    | inr (req, e) ↦
        rw (e, attach_backing)
          (elim (Option-cases (HashMap.get d.resources req.hdr.resource_id)) [
            | inl e₁ ↦ rw e₁ t
            | inr (r, e₁) ↦ rw e₁ (
                update-IsTable d req.hdr.resource_id r (record r { backing = req.mem_entries }) e₁
                  (backing-IsResource r req.mem_entries (t.good req.hdr.resource_id r e₁)) t)
          ])
  ]

  detach_backing-IsTable :
      (d : VirtioGpu W) (bytes : List ℕ) → IsTable d → IsTable (detach_backing d bytes).1
  unfolding detach_backing
  detach_backing-IsTable d bytes t = elim (Option-cases (detach_from_bytes bytes)) [
    | inl e ↦ rw (e, detach_backing) t
    | inr (req, e) ↦
        rw (e, detach_backing)
          (elim (Option-cases (HashMap.get d.resources req.resource_id)) [
            | inl e₁ ↦ rw e₁ t
            | inr (r, e₁) ↦ rw e₁ (
                update-IsTable d req.resource_id r (record r { backing = [] }) e₁
                  (backing-IsResource r [] (t.good req.resource_id r e₁)) t)
          ])
  ]

  window-IsTable : (d : VirtioGpu W) (w : W) → IsTable d → IsTable (record d { window = w })
  window-IsTable d w t = record { good = t.good; few = t.few; screens = t.screens; bound = t.bound }

  resource_flush-IsTable :
      (display : DisplayBackend W) (d : VirtioGpu W) (bytes : List ℕ)
      → IsTable d
      → IsTable (resource_flush display d bytes).1
  unfolding resource_flush
  resource_flush-IsTable display d bytes t = elim (Option-cases (flush_from_bytes bytes)) [
    | inl e ↦ rw (e, resource_flush) t
    | inr (req, e) ↦
        rw (e, resource_flush)
          (elim (Option-cases (HashMap.get d.resources req.resource_id)) [
            | inl e₁ ↦ rw e₁ t
            | inr (r, e₁) ↦ rw e₁ (window-IsTable d _ t)
          ])
  ]

  -- A command that returns keeps the table.
  abbrev Stays : Result (Reply W) → Type 0
  Stays m = (r : GpuResponse) (d' : VirtioGpu W) → m ≡ ok (r, d') → IsTable d'

  Stays-ok : (x : Reply W) → IsTable x.1 → Stays (ok x)
  Stays-ok (r', d₁) t r d' h = subst (λ d₂. IsTable d₂) (same h) t
    where
      same : ◌≡◌ {A = Result (Reply W)} (ok (r', d₁)) (ok (r, d')) → d₁ ≡ d'
      same e = cc

  Stays-if : (c : Bool) (m n : Result (Reply W)) → Stays m → Stays n → Stays (if c then m else n)
  Stays-if true m n h k = h
  Stays-if false m n h k = k

  transferred-IsTable :
      (b : Build) (mem : GuestMemory) (d : VirtioGpu W) (req : VirtioGpuTransferToHost)
      (r : GpuResource) (base : ℕ)
      → HashMap.get d.resources req.resource_id ≡ some r
      → IsTable d
      → Stays (do
        pixels ←
            transfer_rows b mem r req.rect base req.rect.height 0
              (replicate (req.rect.width * bytes_per_pixel) 0)
              r.pixels
        ok (
          header resp_ok_nodata,
          record d {
            resources = HashMap.insert d.resources req.resource_id (record r { pixels = pixels });
          },
        ))
  transferred-IsTable b mem d req r base e t reply d' h =
      let row_buf = replicate (req.rect.width * bytes_per_pixel) 0 in
      let (px, e₁, h₁) =
        >>=-eq-ok (transfer_rows b mem r req.rect base req.rect.height 0 row_buf r.pixels) _ h in
      let size =
        transfer_rows-length b mem r req.rect base req.rect.height 0 row_buf r.pixels px e₁ in
      Stays-ok _
        (update-IsTable d req.resource_id r (record r { pixels = px }) e
          (pixels-IsResource r px size (t.good req.resource_id r e)) t)
        reply d' h₁

  transfer_to_host-IsTable :
      (b : Build) (mem : GuestMemory) (d : VirtioGpu W) (bytes : List ℕ)
      → IsTable d
      → Stays (transfer_to_host b mem d bytes)
  unfolding transfer_to_host
  transfer_to_host-IsTable b mem d bytes t = elim (Option-cases (transfer_from_bytes bytes)) [
    | inl e ↦ rw (e, transfer_to_host) (Stays-ok _ t)
    | inr (req, e) ↦
        rw (e, transfer_to_host)
          (elim (Option-cases (HashMap.get d.resources req.resource_id)) [
            | inl e₁ ↦ rw e₁ (Stays-ok _ t)
            | inr (r, e₁) ↦ rw e₁ (
                Stays-if (not (contains r req.rect)) _ _ (Stays-ok _ t)
                  (elim (Option-cases (transfer_base req r.stride)) [
                    | inl e₂ ↦ rw e₂ (Stays-ok _ t)
                    | inr (base, e₂) ↦ rw e₂ (
                        Stays-if (ltb (backing_len r) base) _ _ (Stays-ok _ t)
                          (transferred-IsTable b mem d req r base e₁ t))
                  ]))
          ])
  ]

  pub run_command-IsTable :
      (b : Build) (mem : GuestMemory) (display : DisplayBackend W) (typ : ℕ) (d : VirtioGpu W)
      (bytes : List ℕ)
      → IsTable d
      → Stays (run_command b mem display typ d bytes)
  unfolding run_command get_display_info
  run_command-IsTable b mem display typ d bytes t =
      Stays-if (typ == 0x0100) _ _ (Stays-ok (get_display_info display d) t) (
        Stays-if (typ == 0x0101) _ _
          (Stays-ok (resource_create d bytes) (resource_create-IsTable d bytes t))
          (Stays-if (typ == 0x0102) _ _
            (Stays-ok (resource_unref d bytes) (resource_unref-IsTable d bytes t))
            (Stays-if (typ == 0x0103) _ _
              (Stays-ok (set_scanout d bytes) (set_scanout-IsTable d bytes t))
              (Stays-if (typ == 0x0104) _ _
                (Stays-ok (resource_flush display d bytes)
                  (resource_flush-IsTable display d bytes t))
                (Stays-if (typ == 0x0105) _ _ (transfer_to_host-IsTable b mem d bytes t) (
                  Stays-if (typ == 0x0106) _ _
                    (Stays-ok (attach_backing d bytes) (attach_backing-IsTable d bytes t))
                    (Stays-if (typ == 0x0107) _ _
                      (Stays-ok (detach_backing d bytes) (detach_backing-IsTable d bytes t))
                      (Stays-if (typ == 0x010A) _ _ (Stays-ok (header resp_ok_nodata, d) t) (
                        Stays-if (typ == 0x010C) _ _ (Stays-ok (header resp_ok_nodata, d) t)
                          (Stays-ok (header resp_err_unsupported, d) t))))))))))
