-- ===== src/Discovery/Azure.antt =====
-- crates/pmd-azure/src/plugin.rs: the virtual machines that carry a tag. The answers of the two services
-- are arguments: none is a failed request, or an answer that does not parse.
pub mod Machines
use pmd.Prelude.{
  ℕ, String, ◌^^◌, Bool, true, false, Option, none, some, List, [], ◌∷◌, ◌++◌, filter_map, filter,
  not, ◌==◌, if◌then◌else◌,
}
use pmd.Prelude.Decimal.{show_ℕ}
use pmd.Prelude.Sets.{insert_new}
use pmd.Platform.{Platform}
use pmd.Discovery.{DiscoveryContext}

-- `running` is in `Poll` below.
pub record AzureTagPlugin : Type 0 where
  pub tag_key : String
  pub tag_value : Option String
  pub pmd_port : ℕ
  pub poll_interval : ℕ

unfoldable pub new : AzureTagPlugin
new = record { tag_key = "pmd-cluster"; tag_value = none; pmd_port = 4369; poll_interval = 30 }

unfoldable pub with_tag_key : String → AzureTagPlugin → AzureTagPlugin
with_tag_key key p = record p { tag_key = key }

unfoldable pub with_tag_value : Option String → AzureTagPlugin → AzureTagPlugin
with_tag_value value p = record p { tag_value = value }

unfoldable pub with_port : ℕ → AzureTagPlugin → AzureTagPlugin
with_port port p = record p { pmd_port = port }

unfoldable pub with_poll_interval : ℕ → AzureTagPlugin → AzureTagPlugin
with_poll_interval interval p = record p { poll_interval = interval }

pub record IpAddressEntry : Type 0 where
  pub private_ip_address : String

pub record Ipv4Info : Type 0 where
  pub ip_address : List IpAddressEntry

pub record NetworkInterface : Type 0 where
  pub ipv4 : Ipv4Info

pub record NetworkMetadata : Type 0 where
  pub interfaces : List NetworkInterface

pub record ComputeMetadata : Type 0 where
  pub subscription_id : String

pub record InstanceMetadata : Type 0 where
  pub compute : ComputeMetadata
  pub network : NetworkMetadata

pub record ResourceGraphRow : Type 0 where
  pub private_ip : Option String

-- Its field `data`.
pub record ResourceGraphResponse : Type 0 where
  pub data_rows : List ResourceGraphRow

-- The request to Resource Graph: the bearer's token and the body.
pub record GraphRequest : Type 0 where
  pub token : String
  pub subscriptions : List String
  pub query : String

-- One turn of the loop: `running`, the answer to the request of a token, and Resource Graph.
pub record Poll : Type 0 where
  pub running : Bool
  pub token : Option String
  pub post : GraphRequest → Option ResourceGraphResponse

-- What the plugin keeps, and the channel.
pub record Session (P : Platform) : Type 0 where
  pub known_peers : List String
  pub discovered_tx : List P.Addr

abbrev pub first {ℓ} : {A : Type ℓ} → List A → Option A
first [] = none
first (x ∷ xs) = some x

unfoldable pub local_ip : InstanceMetadata → String
local_ip instance_data = elim (first instance_data.network.interfaces) [
  | none ↦ ""
  | some iface ↦ elim (first iface.ipv4.ip_address) [ none ↦ "" | some ip ↦ ip.private_ip_address ]
]

unfoldable pub tag_filter : String → Option String → String
tag_filter key none = "where tags has '" ^^ (key ^^ "'")
tag_filter key (some val) = "where tags['" ^^ (key ^^ ("'] == '" ^^ (val ^^ "'")))

unfoldable pub query_text : String → Option String → String
unfolding tag_filter
query_text key value =
    "Resources | where type == 'microsoft.compute/virtualmachines' | "
    ^^ (tag_filter key value
        ^^ " | project vmId = id | join kind=inner ( Resources | where type == 'microsoft.network/networkinterfaces' | mv-expand ipConfig = properties.ipConfigurations | project vmId = tostring(properties.virtualMachine.id), privateIp = tostring(ipConfig.properties.privateIPAddress) ) on vmId | project privateIp")

unfoldable pub addresses_of : List ResourceGraphRow → List String
addresses_of rows = filter (λ ip. not (ip == "")) (filter_map (λ row. row.private_ip) rows)

unfoldable pub query_tagged_vms :
    (GraphRequest → Option ResourceGraphResponse)
    → String
    → String
    → String
    → Option String
    → Option (List String)
unfolding addresses_of
query_tagged_vms post token subscription_id key value =
    elim (post (record {
      token = token;
      subscriptions = subscription_id ∷ [];
      query = query_text key value;
    })) [ none ↦ none | some resp ↦ some (addresses_of resp.data_rows) ]

module _ (P : Platform) where
  open P use {addr_parse}

  abbrev pub address : ℕ → String → Option P.Addr
  address port ip = addr_parse (ip ^^ (":" ^^ show_ℕ port))

  abbrev pub sent_to : Option P.Addr → List P.Addr → List P.Addr
  sent_to none channel = channel
  sent_to (some addr) channel = channel ++ addr ∷ []

  -- An address of an answer. It becomes known whether it parses or not.
  unfoldable pub report : ℕ → String → String → Session P → Session P
  report port own ip s =
      let (known, is_new) = insert_new ip s.known_peers in
      if ip == own
      then s
      else (if is_new
          then record s {
            known_peers = known;
            discovered_tx = sent_to (address port ip) s.discovered_tx;
          }
          else s)

  unfoldable pub report_all : ℕ → String → List String → Session P → Session P
  unfolding report
  report_all port own [] s = s
  report_all port own (ip ∷ ips) s = report_all port own ips (report port own ip s)

  -- The answer of one turn: none where the loop goes on to the next turn.
  unfoldable pub answer : AzureTagPlugin → InstanceMetadata → Poll → Option (List String)
  unfolding query_tagged_vms
  answer p instance_data poll = elim poll.token [
    | none ↦ none
    | some token ↦
        query_tagged_vms poll.post token instance_data.compute.subscription_id p.tag_key p.tag_value
  ]

  unfoldable pub on_answer : ℕ → String → Option (List String) → Session P → Session P
  unfolding report_all
  on_answer port own none s = s
  on_answer port own (some ips) s = report_all port own ips s

  unfoldable pub run : AzureTagPlugin → InstanceMetadata → List Poll → Session P → Session P
  unfolding answer on_answer
  run p instance_data [] s = s
  run p instance_data (poll ∷ polls) s =
      let later =
        run p instance_data polls
          (on_answer p.pmd_port (local_ip instance_data) (answer p instance_data poll) s) in
      if poll.running then later else s

  -- `start`: none is the error of a machine without metadata.
  unfoldable pub start :
      AzureTagPlugin → Option InstanceMetadata → DiscoveryContext P → List Poll → Option (Session P)
  unfolding run
  start p none ctx polls = none
  start p (some instance_data) ctx polls =
      some
        (run p instance_data polls (record { known_peers = []; discovered_tx = ctx.discovered_tx }))
