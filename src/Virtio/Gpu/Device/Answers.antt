-- ===== src/Virtio/Gpu/Device/Answers.antt =====
-- Every request of the GPU device is answered (`tick` of src/devices/virtio/devices/gpu.rs).
use ferrum_vm.Prelude.{ℕ, ◌≡◌, ◌≢◌, Bool, false, arith, ok, Build}
use ferrum_vm.Virtqueue.Used.{advance_used, push_used-advances}
use ferrum_vm.Virtqueue.Loop.{Io}
use ferrum_vm.Virtqueue.Loop.Balance.{
  IsBalanced, IsBalanced-refl, AnswersOne, while_avail-IsBalanced,
}
use ferrum_vm.Virtio.Gpu.{DisplayBackend}
use ferrum_vm.Virtio.Gpu.Command.{VirtioGpu}
use ferrum_vm.Virtio.Gpu.Device.{retire, control_request, cursor_request, tick}

module _ {W : Type 0} (b : Build) (display : DisplayBackend W) where
  retire_advances :
      (s : Io (VirtioGpu W)) (head written : ℕ) (w : Bool) (s' : Io (VirtioGpu W))
      → s.queue.size ≢ 0
      → retire b display s head written ≡ ok (w, s')
      → s'.queue ≡ advance_used s.queue
  unfolding retire
  retire_advances s head written w s' pos h = grind (arith, push_used-advances)

  control_request-AnswersOne : AnswersOne (control_request b display)
  unfolding control_request
  control_request-AnswersOne s head w s' pos h = grind (arith, retire_advances)

  cursor_request-AnswersOne : AnswersOne (cursor_request b display)
  unfolding cursor_request
  cursor_request-AnswersOne s head w s' pos h = grind (arith, retire_advances)

  -- Every control or cursor request that a call of `tick` that returns takes from its queue it returns
  -- on the used ring: both indices advance by the same amount, for any content of guest RAM.
  pub gpu_tick-IsBalanced :
      (fuel : ℕ) (s : Io (VirtioGpu W)) (queue_sel : ℕ) (w : Bool) (s' : Io (VirtioGpu W))
      → tick b display fuel s queue_sel ≡ ok (w, s')
      → IsBalanced s.queue s'.queue
  unfolding tick
  gpu_tick-IsBalanced fuel s queue_sel w s' h = grind (
    arith,
    while_avail-IsBalanced b (control_request b display) control_request-AnswersOne fuel s false w
        s',
    while_avail-IsBalanced b (cursor_request b display) cursor_request-AnswersOne fuel s false w s',
    IsBalanced-refl s.queue,
  )
