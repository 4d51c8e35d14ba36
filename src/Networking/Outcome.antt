-- ===== src/Networking/Outcome.antt =====
-- What the set-up of the host's network comes to (src/platform/networking).
use Prim.Native.String.{String}
use ferrum_vm.Prelude.{
  arith, ◌≡◌, refl, ◌⊎◌, inl, inr, Bool, true, false, Option, none, some, List, [], ◌∷◌,
}
use ferrum_vm.Networking.Firewall.{
  NfFamily, NfListObject, table_object, chain_object, rule_object, batch,
}
use ferrum_vm.Networking.Interface.{Host, Creation, created, failed, configure}

-- The table that a chain names, and the chain that a rule names, are among the objects.
abbrev HasTable : NfFamily → String → List NfListObject → Type 0
HasTable f t [] = ⊥
HasTable f t (table_object o ∷ os) = ((o.family ≡ f) × (o.name ≡ t)) ⊎ HasTable f t os
HasTable f t (chain_object o ∷ os) = HasTable f t os
HasTable f t (rule_object o ∷ os) = HasTable f t os

abbrev HasChain : NfFamily → String → String → List NfListObject → Type 0
HasChain f t c [] = ⊥
HasChain f t c (table_object o ∷ os) = HasChain f t c os
HasChain f t c (chain_object o ∷ os) =
    ((o.family ≡ f) × (o.table ≡ t) × (o.name ≡ c)) ⊎ HasChain f t c os
HasChain f t c (rule_object o ∷ os) = HasChain f t c os

-- Every object names only what stands before it, where `earlier` does already.
abbrev IsClosed : List NfListObject → List NfListObject → Type 0
IsClosed earlier [] = Unit {0}
IsClosed earlier (table_object o ∷ os) = IsClosed (table_object o ∷ earlier) os
IsClosed earlier (chain_object o ∷ os) =
    HasTable o.family o.table earlier × IsClosed (chain_object o ∷ earlier) os
IsClosed earlier (rule_object o ∷ os) =
    HasChain o.family o.table o.chain earlier × IsClosed (rule_object o ∷ earlier) os

-- For every interface, each chain of the batch is in a table, and each rule in a chain, that the batch
-- has added before.
batch-IsClosed : (iface_name : String) → IsClosed [] (batch iface_name)
unfolding batch
batch-IsClosed iface_name =
    let table = inl (refl, refl) in
    (
      table,
      (
        table,
        (inr (inl (refl, refl, refl)), (inl (refl, refl, refl), (inl (refl, refl, refl), tt))),
      ),
    )

-- The message of the first call that was refused.
abbrev first_refused : List (Bool × String) → Option String
first_refused [] = none
first_refused ((true, message) ∷ rest) = first_refused rest
first_refused ((false, message) ∷ rest) = some message

abbrev outcome : {T : Type 0} → Option String → T → Creation T
outcome none tap = created (record { tap = tap; packet_recive_queue = [] })
outcome (some message) tap = failed message

-- The four calls on a new interface are made on it one after the other. Where all succeed, the device
-- is created with no packets and the interface as the last call left it, and otherwise the creation
-- fails with the message of the first call that was refused.
configure-first_refused :
    {H N T : Type 0} (h : Host H N T) (tap : T)
    → let ipv6 = h.add_ipv6 tap (0 ∷ 0 ∷ 0 ∷ 0 ∷ 0 ∷ 0xFFFF ∷ 0xC00A ∷ 0x2FF ∷ []) in
      let ipv4 = h.add_ipv4 ipv6.1 (10 ∷ 0 ∷ 0 ∷ 1 ∷ []) 24 in
      let nonblocking = h.set_nonblocking ipv4.1 true in
      let up = h.set_up nonblocking.1 in
      configure h tap
      ≡ outcome
          (first_refused (
            (ipv6.0, "Could not add an IP Address")
            ∷ (ipv4.0, "Could not add an IPv4 address")
            ∷ (nonblocking.0, "Could not enable non-blocking on the device")
            ∷ (up.0, "Could not enable the device")
            ∷ []))
          up.1
unfolding configure
configure-first_refused h tap = ground arith
