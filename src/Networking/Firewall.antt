-- ===== src/Networking/Firewall.antt =====
-- The firewall rules of the network interface: src/platform/networking/firewall.rs. The types are those
-- of the crate `nftables`, with the constructors and fields that the source uses.
use Prim.Native.String.{String}
use ferrum_vm.Prelude.{ℕ, Bool, Option, some, List, [], ◌∷◌}

pub data NfFamily : Type 0 where
  ip : NfFamily

pub data NfChainType : Type 0 where
  nat filter : NfChainType

pub data NfHook : Type 0 where
  postrouting forward : NfHook

pub data NfChainPolicy : Type 0 where
  accept_policy : NfChainPolicy

pub data Operator : Type 0 where
  neq eq is_in : Operator

-- `Expression`: a text, a list of texts, the interface that a packet leaves or comes by, a field of
-- its header, a prefix, and a key of connection tracking.
pub data Expression : Type 0 where
  text : String → Expression
  texts : List String → Expression
  oifname iifname : Expression
  payload_field : String → String → Expression
  prefix : String → ℕ → Expression
  ct : String → Expression

pub data Statement : Type 0 where
  match_ : Expression → Operator → Expression → Statement
  masquerade accept : Statement

pub record Table : Type 0 where
  pub family : NfFamily
  pub name : String

pub record Chain : Type 0 where
  pub family : NfFamily
  pub table : String
  pub name : String
  pub type_ : Option NfChainType
  pub hook : Option NfHook
  pub prio : Option ℕ
  pub policy : Option NfChainPolicy

pub record Rule : Type 0 where
  pub family : NfFamily
  pub table : String
  pub chain : String
  pub expr : List Statement

pub data NfListObject : Type 0 where
  table_object : Table → NfListObject
  chain_object : Chain → NfListObject
  rule_object : Rule → NfListObject

abbrev pub ferrumvm_table : Table
ferrumvm_table = record { family = ip; name = "ferrumvm" }

abbrev pub postrouting_chain : Chain
postrouting_chain = record {
  family = ip;
  table = "ferrumvm";
  name = "postrouting";
  type_ = some nat;
  hook = some postrouting;
  prio = some 100;
  policy = some accept_policy;
}

abbrev pub forward_chain : Chain
forward_chain = record {
  family = ip;
  table = "ferrumvm";
  name = "forward";
  type_ = some filter;
  hook = some forward;
  prio = some 0;
  policy = some accept_policy;
}

abbrev pub masquerade_rule : String → Rule
masquerade_rule iface_name = record {
  family = ip;
  table = "ferrumvm";
  chain = "postrouting";
  expr =
      match_ oifname neq (text iface_name)
      ∷ match_ (payload_field "ip" "saddr") eq (prefix "10.0.0.0" 24)
      ∷ masquerade
      ∷ [];
}

abbrev pub outgoing_rule : String → Rule
outgoing_rule iface_name = record {
  family = ip;
  table = "ferrumvm";
  chain = "forward";
  expr = match_ iifname eq (text iface_name) ∷ accept ∷ [];
}

abbrev pub incoming_rule : String → Rule
incoming_rule iface_name = record {
  family = ip;
  table = "ferrumvm";
  chain = "forward";
  expr =
      match_ oifname eq (text iface_name)
      ∷ match_ (ct "state") is_in (texts ("established" ∷ "related" ∷ []))
      ∷ accept
      ∷ [];
}

unfoldable pub batch : String → List NfListObject
batch iface_name =
    table_object ferrumvm_table
    ∷ chain_object postrouting_chain
    ∷ chain_object forward_chain
    ∷ rule_object (masquerade_rule iface_name)
    ∷ rule_object (outgoing_rule iface_name)
    ∷ rule_object (incoming_rule iface_name)
    ∷ []

-- `helper::apply_ruleset`, with the host after the call, is a parameter.
unfoldable pub setup_ferrumvm_firewall :
    {H : Type 0} → (H → List NfListObject → Bool × H) → H → String → Bool × H
unfolding batch
setup_ferrumvm_firewall apply_ruleset host iface_name = apply_ruleset host (batch iface_name)
