-- ===== src/Virtio/Gpu/Device/Resources.antt =====
-- The resource table of the GPU device under its queues and its reset
-- (src/devices/virtio/devices/gpu.rs).
use ferrum_vm.Prelude.{
  ℕ, zero, suc, ◌≡◌, Bool, true, false, arith, Option, none, some, List, [], replicate, length,
  length-replicate, Result, ok, ◌>>=◌, >>=-eq-ok, subst, sym, refl, ◌≤◌, Build,
}
use ferrum_vm.Prelude.HashMap
use ferrum_vm.Virtqueue.{VirtqDesc}
use ferrum_vm.Virtqueue.Loop.{Io}
use ferrum_vm.Virtqueue.Loop.Invariant.{Keeps, while_avail-Keeps}
use ferrum_vm.Virtio.Gpu.{DisplayBackend, max_scanouts, max_resources, write_field}
use ferrum_vm.Virtio.Gpu.Wire.{VirtioGpuCtrlHdr, hdr_from_bytes}
use ferrum_vm.Virtio.Gpu.Gather.{gather_control_request}
use ferrum_vm.Virtio.Gpu.Command.{VirtioGpu, empty_scanout}
use ferrum_vm.Virtio.Gpu.Command.Run.{run_command}
use ferrum_vm.Virtio.Gpu.Resource.{GpuResource}
use ferrum_vm.Virtio.Gpu.Command.Table.{IsResource, IsTable, AllBound, empty_scanout-IsBound}
use ferrum_vm.Virtio.Gpu.Command.Keeps.{run_command-IsTable}
use ferrum_vm.Virtio.Gpu.Device.{
  new, retire, write_reply, control_request, cursor_request, tick, reset,
}

AllBound-empty : (n : ℕ) → AllBound [] (replicate n empty_scanout)
unfolding AllBound
AllBound-empty zero = tt
AllBound-empty (suc n) = (empty_scanout-IsBound [], AllBound-empty n)

module _ {W : Type 0} (b : Build) (display : DisplayBackend W) where
  retire-device :
      (s : Io (VirtioGpu W)) (head written : ℕ) (w : Bool) (s' : Io (VirtioGpu W))
      → retire b display s head written ≡ ok (w, s')
      → s'.device ≡ s.device
  unfolding retire
  retire-device s head written w s' h = grind arith

  retire-IsTable :
      (s : Io (VirtioGpu W)) (head written : ℕ) (w : Bool) (s' : Io (VirtioGpu W))
      → IsTable s.device
      → retire b display s head written ≡ ok (w, s')
      → IsTable s'.device
  retire-IsTable s head written w s' t h =
      subst (λ d. IsTable d) (sym (retire-device s head written w s' h)) t

  -- What a gathered request with a header does.
  answered-IsTable :
      (s : Io (VirtioGpu W)) (head typ : ℕ) (bytes : List ℕ) (desc : VirtqDesc) (w : Bool)
      (s' : Io (VirtioGpu W))
      → IsTable s.device
      → ◌≡◌ {A = Result (Bool × Io (VirtioGpu W))}
          (do
            (response, d) ← run_command b s.mem display typ s.device bytes
            (written, mem) ← write_reply b display s.mem desc response
            retire b display (record s { mem = mem; device = d }) head written)
          (ok (w, s'))
      → IsTable s'.device
  answered-IsTable s head typ bytes desc w s' t h =
      let (r, e, h₁) = >>=-eq-ok (run_command b s.mem display typ s.device bytes) _ h in
      let (v, e₁, h₂) = >>=-eq-ok (write_reply b display s.mem desc r.0) _ h₁ in
      retire-IsTable (record s { mem = v.1; device = r.1 }) head v.0 w s'
        (run_command-IsTable b s.mem display typ s.device bytes t r.0 r.1 e) h₂

  control_request-Keeps : Keeps IsTable (control_request b display)
  unfolding control_request
  control_request-Keeps s head w s' t h =
      let (g, e, h₁) = >>=-eq-ok (gather_control_request b s.mem s.queue head) _ h in gathered g h₁
    where
      headed :
          (bytes : List ℕ) (desc : VirtqDesc) (hdr : Option VirtioGpuCtrlHdr)
          → ◌≡◌ {A = Result (Bool × Io (VirtioGpu W))}
              (elim hdr [
                | none ↦ retire b display s head 0
                | some hdr ↦ (do
                  (response, d) ← run_command b s.mem display hdr.typ s.device bytes
                  (written, mem) ← write_reply b display s.mem desc response
                  retire b display (record s { mem = mem; device = d }) head written)
              ])
              (ok (w, s'))
          → IsTable s'.device
      headed bytes desc none h₁ = retire-IsTable s head 0 w s' t h₁
      headed bytes desc (some hdr) h₁ = answered-IsTable s head hdr.typ bytes desc w s' t h₁

      gathered :
          (g : Option (List ℕ × VirtqDesc))
          → ◌≡◌ {A = Result (Bool × Io (VirtioGpu W))}
              (elim g [
                | none ↦ retire b display s head 0
                | some (bytes, desc) ↦ elim (hdr_from_bytes bytes) [
                  | none ↦ retire b display s head 0
                  | some hdr ↦ (do
                    (response, d) ← run_command b s.mem display hdr.typ s.device bytes
                    (written, mem) ← write_reply b display s.mem desc response
                    retire b display (record s { mem = mem; device = d }) head written)
                ]
              ])
              (ok (w, s'))
          → IsTable s'.device
      gathered none h₁ = retire-IsTable s head 0 w s' t h₁
      gathered (some (bytes, desc)) h₁ = headed bytes desc (hdr_from_bytes bytes) h₁

  cursor_request-device :
      (s : Io (VirtioGpu W)) (head : ℕ) (w : Bool) (s' : Io (VirtioGpu W))
      → cursor_request b display s head ≡ ok (w, s')
      → s'.device ≡ s.device
  unfolding cursor_request
  cursor_request-device s head w s' h = grind (arith, retire-device)

  cursor_request-Keeps : Keeps IsTable (cursor_request b display)
  cursor_request-Keeps s head w s' t h =
      subst (λ d. IsTable d) (sym (cursor_request-device s head w s' h)) t

  pub gpu_tick-IsTable :
      (fuel : ℕ) (s : Io (VirtioGpu W)) (queue_sel : ℕ) (w : Bool) (s' : Io (VirtioGpu W))
      → IsTable s.device
      → tick b display fuel s queue_sel ≡ ok (w, s')
      → IsTable s'.device
  unfolding tick
  gpu_tick-IsTable fuel s queue_sel w s' t h = grind (
    arith,
    while_avail-Keeps IsTable b (control_request b display) control_request-Keeps fuel s false w s'
        t,
    while_avail-Keeps IsTable b (cursor_request b display) cursor_request-Keeps fuel s false w s' t,
  )

  cleared-IsTable :
      (d : VirtioGpu W)
      → d.resources ≡ []
      → d.scanouts ≡ replicate max_scanouts empty_scanout
      → IsTable d
  cleared-IsTable d e e₁ = record {
    good = λ k r h. gone k r h;
    few = few_cleared;
    screens = rw e₁ (length-replicate max_scanouts empty_scanout);
    bound = rw (e, e₁) (AllBound-empty max_scanouts);
  }
    where
      none_at :
          (k : ℕ) (r : GpuResource) → HashMap.get {A = GpuResource} [] k ≡ some r → IsResource r
      none_at k r h = cc

      gone : (k : ℕ) (r : GpuResource) → HashMap.get d.resources k ≡ some r → IsResource r
      gone k r h = none_at k r (rw e at h)

      few_cleared : length d.resources ≤ max_resources
      few_cleared = rw e (ground arith)

  pub new-IsTable : (window : W) (d : VirtioGpu W) → new window ≡ ok d → IsTable d
  unfolding new
  new-IsTable window d h = grind (arith, cleared-IsTable d)

  -- The states a device comes through from `new` on, whatever guest RAM and the queues hold at a tick.
  pub data History (window : W) : VirtioGpu W → Type 0 where
    created : (d : VirtioGpu W) → new window ≡ ok d → History window d
    passed :
        (d : VirtioGpu W) → History window d → History window (record d { guest_memory = true })
    configured :
        (d : VirtioGpu W) (offset : ℕ) (bytes : List ℕ)
        → History window d
        → History window (record d { config = write_field d.config offset bytes })
    cleared : (d : VirtioGpu W) → History window d → History window (reset b display d)
    ticked :
        (fuel : ℕ) (s : Io (VirtioGpu W)) (queue_sel : ℕ) (w : Bool) (s' : Io (VirtioGpu W))
        → History window s.device
        → tick b display fuel s queue_sel ≡ ok (w, s')
        → History window s'.device

  same-IsTable :
      (d d' : VirtioGpu W)
      → d'.resources ≡ d.resources
      → d'.scanouts ≡ d.scanouts
      → IsTable d
      → IsTable d'
  same-IsTable d d' e e₁ t = record {
    good = rw e t.good;
    few = rw e t.few;
    screens = rw e₁ t.screens;
    bound = rw (e, e₁) t.bound;
  }

  pub History-IsTable : (window : W) {d : VirtioGpu W} → History window d → IsTable d
  unfolding reset
  History-IsTable window (created d e) = new-IsTable window d e
  History-IsTable window (passed d h) = same-IsTable d _ refl refl (History-IsTable window h)
  History-IsTable window (configured d offset bytes h) =
      same-IsTable d _ refl refl (History-IsTable window h)
  History-IsTable window (cleared d h) = cleared-IsTable _ refl refl
  History-IsTable window (ticked fuel s queue_sel w s' h e) =
      gpu_tick-IsTable fuel s queue_sel w s' (History-IsTable window h) e
