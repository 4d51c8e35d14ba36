-- ===== src/Networking/Interface.antt =====
-- The creation of the network interface: `TAPDevice::new` and `ensure_ip_forwarding` of
-- src/platform/networking/tap.rs. The host, the crate `tappers` and the crate `nftables` are the record
-- `Host`.
use Prim.Native.String.{String}
use ferrum_vm.Prelude.{ℕ, Bool, true, Option, none, some, List, [], ◌∷◌, if◌then◌else◌}
use ferrum_vm.Virtio.Net.{TapDevice}
use ferrum_vm.Networking.Firewall.{NfListObject, setup_ferrumvm_firewall}

-- Every call returns whether it succeeded, or its value, with the host or the interface after it.
-- `N` are the names of interfaces and `T` the interfaces.
pub record Host (H N T : Type 0) : Type 0 where
  pub write : H → String → String → Bool × H
  pub apply_ruleset : H → List NfListObject → Bool × H
  pub interface : H → String → Option N × H
  pub new_named : H → N → Option T × H
  pub add_ipv6 : T → List ℕ → Bool × T
  pub add_ipv4 : T → List ℕ → ℕ → Bool × T
  pub set_nonblocking : T → Bool → Bool × T
  pub set_up : T → Bool × T

-- `Result<TAPDevice, String>`.
pub data Creation (T : Type 0) : Type 0 where
  created : TapDevice T → Creation T
  failed : String → Creation T

abbrev pub iface_name : String
iface_name = "ferrum-tap0"

module _ {H N T : Type 0} (h : Host H N T) where
  unfoldable pub ensure_ip_forwarding : H → Bool × H
  ensure_ip_forwarding s = h.write s "/proc/sys/net/ipv4/ip_forward" "1"

  -- The calls on the interface, from its addresses on.
  unfoldable pub configure : T → Creation T
  configure tap =
      let (has_ipv6, named) = h.add_ipv6 tap (0 ∷ 0 ∷ 0 ∷ 0 ∷ 0 ∷ 0xFFFF ∷ 0xC00A ∷ 0x2FF ∷ []) in
      let (has_ipv4, addressed) = h.add_ipv4 named (10 ∷ 0 ∷ 0 ∷ 1 ∷ []) 24 in
      let (nonblocking, waiting) = h.set_nonblocking addressed true in
      let (up, running) = h.set_up waiting in
      if has_ipv6
      then if has_ipv4
        then if nonblocking
          then if up
            then created (record { tap = running; packet_recive_queue = [] })
            else failed "Could not enable the device"
          else failed "Could not enable non-blocking on the device"
        else failed "Could not add an IPv4 address"
      else failed "Could not add an IP Address"

  -- Neither IP forwarding nor the firewall has to succeed.
  unfoldable pub new : H → Creation T × H
  unfolding ensure_ip_forwarding setup_ferrumvm_firewall configure
  new s =
      let (forwards, s₁) = ensure_ip_forwarding s in
      let (firewall, s₂) = setup_ferrumvm_firewall h.apply_ruleset s₁ iface_name in
      let (tap_name, s₃) = h.interface s₂ iface_name in
      elim tap_name [
        | none ↦ (failed "Could not name the Tap device", s₃)
        | some name ↦
            (let (tap, s₄) = h.new_named s₃ name in
              elim tap [
                | none ↦ (failed "Tap Could not be created", s₄)
                | some tap ↦ (configure tap, s₄)
              ])
      ]
