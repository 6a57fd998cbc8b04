-- ===== src/Inventory.antt =====
-- internal/inventory: devices seen on the LAN, read from the ARP table and the DHCP leases. The files
-- come as bytes, none when they cannot be read; the inventory is refreshed in one step.
pub mod Merging
use phantomcore.Base.{
  ℕ, zero, suc, ◌+◌, ◌*◌, Bool, true, false, ◌||◌, Option, none, some, List, [], ◌∷◌, ltb_ℤ, ℤ, pos,
  Text, text, is_empty, same_text, has_prefix, to_lower, trim_space, lookup, insert, text_discrete,
  any, if◌then◌else◌,
}
use phantomcore.Blocklist.Parser.{scan_lines, fields}

-- `Device`
pub record Device : Type 0 where
  pub ip : Text
  pub mac : Text
  pub hostname : Text
  pub first_seen : ℕ
  pub last_seen : ℕ

-- `Config`
pub record Config : Type 0 where
  pub enabled : Bool
  pub dhcp_leases_path : Text
  pub refresh_interval : ℤ

-- `DefaultRefreshInterval`
abbrev pub default_refresh_interval : ℕ
default_refresh_interval = 60 * 1000000000

-- `parseBool`
unfoldable pub parse_bool : Text → Bool
unfolding any text_discrete
parse_bool v = any (same_text v) (
    text "1"
    ∷ text "t"
    ∷ text "T"
    ∷ text "true"
    ∷ text "TRUE"
    ∷ text "True"
    ∷ text "yes"
    ∷ text "YES"
    ∷ text "on"
    ∷ text "ON"
    ∷ [])

-- `ConfigFromEnv`, an unset variable being the empty text
unfoldable pub config_from_env : Text → Text → Config
unfolding parse_bool
config_from_env enabled path = record {
  enabled = if is_empty enabled then false else parse_bool enabled;
  dhcp_leases_path = path;
  refresh_interval = pos default_refresh_interval;
}

-- `Inventory`
pub record Inventory : Type 0 where
  pub cfg : Config
  pub devices : List (Text × Device)

-- `New`
unfoldable pub new_inventory : Config → Inventory
new_inventory cfg = record {
  cfg =
      if ltb_ℤ (pos 0) cfg.refresh_interval
      then cfg
      else record cfg { refresh_interval = pos default_refresh_interval };
  devices = [];
}

-- `arpEntry` and `dhcpLease` under one type: an entry of the ARP table has no name.
pub record Binding : Type 0 where
  pub ip : Text
  pub mac : Text
  pub hostname : Text

abbrev pub empty_mac : Text
empty_mac = text "00:00:00:00:00:00"

-- One round of `parseARP`, on the words of a line.
unfoldable pub arp_of_fields : List Text → Option Binding
unfolding text_discrete
arp_of_fields (ip ∷ kind ∷ flags ∷ raw ∷ mask ∷ device ∷ more) =
    let mac = to_lower raw in
    if same_text flags (text "0x0")
    then none
    else if is_empty mac || same_text mac empty_mac
    then none
    else some (record { ip = ip; mac = mac; hostname = [] })
arp_of_fields [] = none
arp_of_fields (a ∷ []) = none
arp_of_fields (a ∷ b ∷ []) = none
arp_of_fields (a ∷ b ∷ c ∷ []) = none
arp_of_fields (a ∷ b ∷ c ∷ d ∷ []) = none
arp_of_fields (a ∷ b ∷ c ∷ d ∷ e ∷ []) = none

unfoldable pub arp_of_line : Text → Option Binding
unfolding arp_of_fields has_prefix fields
arp_of_line raw =
    let line = trim_space raw in
    if is_empty line || has_prefix line (text "IP address")
    then none
    else arp_of_fields (fields line)

abbrev pub known_name : Text → Text
known_name h = if same_text h (text "*") then [] else h

-- One round of `parseDHCPLeases`, on the words of a line.
unfoldable pub lease_of_fields : List Text → Option Binding
unfolding text_discrete
lease_of_fields (expiry ∷ mac ∷ ip ∷ []) =
    some (record { ip = ip; mac = to_lower mac; hostname = [] })
lease_of_fields (expiry ∷ mac ∷ ip ∷ name ∷ more) =
    some (record { ip = ip; mac = to_lower mac; hostname = known_name name })
lease_of_fields [] = none
lease_of_fields (a ∷ []) = none
lease_of_fields (a ∷ b ∷ []) = none

unfoldable pub lease_of_line : Text → Option Binding
unfolding lease_of_fields fields
lease_of_line raw =
    let line = trim_space raw in if is_empty line then none else lease_of_fields (fields line)

unfoldable pub bindings_of : (Text → Option Binding) → List Text → List Binding
bindings_of read [] = []
bindings_of read (l ∷ ls) =
    let rest = bindings_of read ls in elim (read l) [ none ↦ rest | some b ↦ b ∷ rest ]

-- `parseARP` and `parseDHCPLeases`, which ignore an error of the scanner
unfoldable pub parse_arp : Text → List Binding
unfolding bindings_of arp_of_line scan_lines
parse_arp bytes = bindings_of arp_of_line (scan_lines (64 * 1024) bytes).0

unfoldable pub parse_dhcp_leases : Text → List Binding
unfolding bindings_of lease_of_line scan_lines
parse_dhcp_leases bytes = bindings_of lease_of_line (scan_lines (64 * 1024) bytes).0

-- `observation`
pub record Observation : Type 0 where
  pub mac : Text
  pub hostname : Text

-- The newer text, unless it is empty.
unfoldable pub newer : Text → Text → Text
newer old new = if is_empty new then old else new

abbrev pub observed : Text → List (Text × Observation) → Observation
observed ip obs = elim (lookup text_discrete ip obs) [
  | none ↦ record { mac = []; hostname = [] }
  | some o ↦ o
]

-- The two loops of `merge` that gather the observations.
unfoldable pub observe : List (Text × Observation) → Binding → List (Text × Observation)
unfolding insert lookup newer
observe obs b =
    let o = observed b.ip obs in
    insert text_discrete b.ip
      (record { mac = newer o.mac b.mac; hostname = newer o.hostname b.hostname }) obs

unfoldable pub observe_all : List (Text × Observation) → List Binding → List (Text × Observation)
unfolding observe
observe_all obs [] = obs
observe_all obs (b ∷ bs) = observe_all (observe obs b) bs

-- The device of an address after an observation of it.
unfoldable pub seen : ℕ → Text → Observation → Option Device → Device
unfolding newer
seen now ip o none = record {
  ip = ip;
  mac = o.mac;
  hostname = o.hostname;
  first_seen = now;
  last_seen = now;
}
seen now ip o (some d) = record d {
  mac = newer d.mac o.mac;
  hostname = newer d.hostname o.hostname;
  last_seen = now;
}

-- The loop of `merge` over the observations.
unfoldable pub update_devices :
    ℕ → List (Text × Observation) → List (Text × Device) → List (Text × Device)
unfolding seen insert lookup
update_devices now [] devices = devices
update_devices now ((ip, o) ∷ obs) devices =
    update_devices now obs
      (insert text_discrete ip (seen now ip o (lookup text_discrete ip devices)) devices)

-- `merge`
unfoldable pub merge : List Binding → List Binding → ℕ → Inventory → Inventory
unfolding observe_all update_devices
merge arps leases now inv = record inv {
  devices = update_devices now (observe_all (observe_all [] arps) leases) inv.devices;
}

-- `refresh`: the ARP table, and the leases when a path is set and can be read.
unfoldable pub refresh : Text → Option Text → ℕ → Inventory → Inventory
unfolding merge parse_arp parse_dhcp_leases
refresh arp leases now inv =
    let read : List Binding = elim leases [ none ↦ [] | some bytes ↦ parse_dhcp_leases bytes ] in
    let ls = if is_empty inv.cfg.dhcp_leases_path then [] else read in
    if inv.cfg.enabled then merge (parse_arp arp) ls now inv else inv

-- `Lookup`
unfoldable pub lookup_device : Inventory → Text → Option Device
unfolding lookup
lookup_device inv ip = lookup text_discrete ip inv.devices
