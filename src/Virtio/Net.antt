-- ===== src/Virtio/Net.antt =====
-- The network device: src/devices/virtio/devices/net.rs, and the packet queue of its TAP device in
-- src/platform/networking/tap.rs. The TAP interface itself is a parameter.
use ferrum_vm.Prelude.{
  ℕ, zero, suc, ◌+◌, ◌-◌, ◌*◌, ◌/◌, ◌%◌, ◌^◌, ◌≤◌, ◌<◌, ◌≡◌, ◌≢◌, refl, ap, bit_and, bit_or, Bool,
  true, false, not, ◌&&◌, ◌||◌, Option, none, some, List, [], ◌∷◌, ◌++◌, length, take, replicate,
  ◌==◌, ◌!=◌, ltb, leb, if◌then◌else◌, arith, Result, ok, panic, no_fuel, ◌>>=◌, >>=-eq-ok, Build,
  debug, release, add_word, mul_word, u8_mod, u16_mod, u32_mod, u64_mod, Returns, Bool-cases, inl,
  inr,
}
use ferrum_vm.Prelude.Bytes.{le_bytes}
use ferrum_vm.Memory.{GuestMemory, write_guest_memory, read_guest_memory}
use ferrum_vm.Virtqueue.{VirtioQueue, VirtqDesc, get_descriptor, push_used, pop_avail}
use ferrum_vm.Virtqueue.Loop.{Io, while_avail}
use ferrum_vm.Virtio.{VirtioDevice}
pub mod Receive
pub mod Transmit
mod Examples

-- `tappers::Tap`: a received frame (`none` where the call would block or fails), and whether a frame
-- was sent, with the interface after the call.
pub record Tap (T : Type 0) : Type 0 where
  pub recv : T → Option (List ℕ) × T
  pub send : T → List ℕ → Bool × T

-- `VecDeque<Vec<u8>>`, front first.
pub record TapDevice (T : Type 0) : Type 0 where
  pub tap : T
  pub packet_recive_queue : List (List ℕ)

module _ {T : Type 0} where
  unfoldable pub get_next_packet : TapDevice T → Option (List ℕ) × TapDevice T
  get_next_packet d = elim d.packet_recive_queue [
    | [] ↦ (none, d)
    | packet ∷ rest ↦ (some packet, record d { packet_recive_queue = rest })
  ]

  unfoldable pub add_packet_front : TapDevice T → List ℕ → TapDevice T
  add_packet_front d packet = record d { packet_recive_queue = packet ∷ d.packet_recive_queue }

  unfoldable pub send_packet : Tap T → TapDevice T → List ℕ → Bool × TapDevice T
  send_packet t d packet = let (sent, tap) = t.send d.tap packet in (sent, record d { tap = tap })

  unfoldable pub update_tap : Tap T → TapDevice T → TapDevice T
  update_tap t d =
      let (received, tap) = t.recv d.tap in
      elim received [
        | none ↦ record d { tap = tap }
        | some packet ↦ record d {
          tap = tap;
          packet_recive_queue = d.packet_recive_queue ++ (packet ∷ []);
        }
      ]

pub record NetVirtioConfig : Type 0 where
  pub mac : List ℕ
  pub status : ℕ

abbrev pub default_config : NetVirtioConfig
default_config = record { mac = 2 ∷ 0 ∷ 0 ∷ 0 ∷ 0 ∷ 1 ∷ []; status = 1 }

unfoldable pub config_to_bytes : NetVirtioConfig → ℕ → List ℕ
config_to_bytes c len =
    let buf = c.mac ++ le_bytes 2 c.status in take len (buf ++ replicate (len - length buf) 0)

pub record NetVirtio (T : Type 0) : Type 0 where
  pub guest_memory : Bool  -- whether a handle was passed
  pub tap_device : TapDevice T
  pub config : NetVirtioConfig

module _ {T : Type 0} where
  unfoldable pub new : TapDevice T → NetVirtio T
  new tap_device = record { guest_memory = false; tap_device = tap_device; config = default_config }

  abbrev with_tap : Io (NetVirtio T) → TapDevice T → Io (NetVirtio T)
  with_tap s d = record s { device = record s.device { tap_device = d } }

module _ {T : Type 0} (b : Build) (t : Tap T) where
  -- What the receive loop does with a frame and a head of the queue.
  unfoldable pub deliver : Io (NetVirtio T) → List ℕ → ℕ → Result (Bool × Io (NetVirtio T))
  deliver s eth_frame head = do
    desc ← get_descriptor b s.mem s.queue head
    if ltb desc.len (length eth_frame + 12)
        then (do
          (mem, queue) ← push_used b s.mem s.queue head 0
          ok (false, record s { mem = mem; queue = queue }))
        else (do
          mem₁ ← write_guest_memory b s.mem desc.addr (replicate 12 0)
          frame_addr ← add_word b u64_mod desc.addr 12
          mem₂ ← write_guest_memory b mem₁ frame_addr eth_frame
          (mem₃, queue) ← push_used b mem₂ s.queue head ((12 + length eth_frame) % u32_mod)
          ok (true, record s { mem = mem₃; queue = queue }))

  -- The receive loop, `while let Some(eth_frame) = self.tap_device.get_next_packet()`. Each round
  -- takes a packet, and the last one puts it back, so the packets themselves bound the rounds: the
  -- first argument is the queue's content, `packet_recive_queue`.
  unfoldable pub receive :
      List (List ℕ) → Io (NetVirtio T) → Bool → Result (Bool × Io (NetVirtio T))
  receive [] s did_work =
      ok (did_work, with_tap s (record s.device.tap_device { packet_recive_queue = [] }))
  receive (eth_frame ∷ rest) s did_work = do
    let taken = with_tap s (record s.device.tap_device { packet_recive_queue = rest })
    (popped, q) ← pop_avail b s.mem s.queue
    elim popped [
      | none ↦ ok (
        did_work,
        with_tap (record taken { queue = q }) (add_packet_front taken.device.tap_device eth_frame),
      )
      | some head ↦ (do
        (worked, s') ← deliver (record taken { queue = q }) eth_frame head
        receive rest s' (did_work || worked))
    ]

  -- The body of the transmit loop.
  unfoldable pub transmit : Io (NetVirtio T) → ℕ → Result (Bool × Io (NetVirtio T))
  transmit s head = do
    desc ← get_descriptor b s.mem s.queue head
    if ltb desc.len 12
        then (do
          (mem, queue) ← push_used b s.mem s.queue head 0
          ok (false, record s { mem = mem; queue = queue }))
        else (do
          frame_addr ← add_word b u64_mod desc.addr 12
          eth_frame ← read_guest_memory b s.mem frame_addr (replicate (desc.len - 12) 0)
          let (_, d) = send_packet t s.device.tap_device eth_frame
          (mem, queue) ← push_used b s.mem s.queue head desc.len
          ok (true, record (with_tap s d) { mem = mem; queue = queue }))

  unfoldable pub tick : ℕ → Io (NetVirtio T) → ℕ → Result (Bool × Io (NetVirtio T))
  tick fuel s queue_sel =
      if queue_sel == 0
      then if not s.device.guest_memory
        then ok (false, s)
        else receive s.device.tap_device.packet_recive_queue s false
      else if queue_sel == 1
      then if not s.device.guest_memory then ok (false, s) else while_avail b fuel transmit s false
      else ok (false, s)

  abbrev pub device : ℕ → VirtioDevice (NetVirtio T)
  device fuel = record {
    virtio_type = λ d. 0x01;
    features = λ d. bit_or (2 ^ 5) (2 ^ 16);
    negotiate_features = λ d features. d;
    pass_guest_memory = λ d. record d { guest_memory = true };
    tick = tick fuel;
    read_config = λ d len. config_to_bytes d.config len;
    write_config = λ d offset bytes. d;
    update = λ d mem queues.
        ok (false, record d { tap_device = update_tap t d.tap_device }, mem, queues);
    reset = λ d. record d { tap_device = record d.tap_device { packet_recive_queue = [] } };
  }
