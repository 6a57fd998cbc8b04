-- ===== src/Tests/Devices.antt =====
-- internal/alert, internal/inventory and internal/metrics at concrete inputs.
use phantomcore.Base.{
  ℕ, suc, ◌+◌, ◌*◌, ◌/◌, ◌≤◌, ◌<◌, ◌≡◌, ◌≢◌, ◌↔◌, ◌⊎◌, refl, Bool, true, false, Option, none, List,
  [], ◌∷◌, length, pos, pos_part, arith, ◌==◌, Text, text, lookup, insert, text_discrete,
  if◌then◌else◌,
}
use phantomcore.Alert
use phantomcore.Alert.{Alerter, new_alerter, recent_hits, record_blocked}
use phantomcore.Alert.Rate.{run-le}
use phantomcore.Inventory
use phantomcore.Inventory.{Binding, parse_arp, new_inventory}
use phantomcore.Metrics.{bucket_upper_bound, estimate_percentile, sum}
use phantomcore.Metrics.Percentile.{Reaches, estimate_percentile-Reaches}

abbrev config : Alert.Config
config = record { threshold = pos 2; window = pos 100 }

run-le_example :
    length
        (Alert.run none
          ((text "10.0.0.9", text "evil.com", 5) ∷ (text "10.0.0.9", text "evil.com", 6) ∷ [])
          (new_alerter config)).0
      * 2
    ≤ 2
run-le_example =
    run-le none ((text "10.0.0.9", text "evil.com", 5) ∷ (text "10.0.0.9", text "evil.com", 6) ∷ [])
      config

abbrev binding : Text → Text → Text → Binding
binding ip mac hostname = record { ip = ip; mac = mac; hostname = hostname }

abbrev lan : Inventory.Inventory
lan =
    new_inventory
      (record { enabled = true; dhcp_leases_path = text "/leases"; refresh_interval = pos 5 })

abbrev arps : List Binding
arps = binding (text "10.0.0.9") (text "aa:bb") [] ∷ []

abbrev leases : List Binding
leases = binding (text "10.0.0.9") [] (text "laptop") ∷ []

test_arp :
    parse_arp
      (text "IP address HW type\n10.0.0.9 0x1 0x2 AA:BB * eth0\n10.0.0.8 0x1 0x0 AA:BC * eth0\n")
    ≡ binding (text "10.0.0.9") (text "aa:bb") [] ∷ []
unfolding parse_arp Inventory.bindings_of Inventory.arp_of_line Inventory.arp_of_fields
    text_discrete phantomcore.Blocklist.Parser.scan_lines phantomcore.Blocklist.Parser.scan_pieces
    phantomcore.Blocklist.Parser.strip_return phantomcore.Blocklist.Parser.fields
    phantomcore.Blocklist.Parser.fields_from phantomcore.Base.has_prefix phantomcore.Base.split_at
    phantomcore.Base.trim_space phantomcore.Base.trim_left phantomcore.Base.trim_right
    phantomcore.Base.to_lower phantomcore.Base.lower_byte
test_arp = refl

abbrev buckets : List ℕ
buckets = 5 ∷ 0 ∷ 3 ∷ 2 ∷ 0 ∷ 0 ∷ 0 ∷ 0 ∷ []

-- 95 of 100, rounded up.
abbrev share_95 : ℕ → ℕ
share_95 n = (n * 95 + 99) / 100

estimate_percentile-Reaches_example :
    (sum buckets ≡ 0) × (estimate_percentile share_95 buckets ≡ 0)
    ⊎ ((b : ℕ) × (estimate_percentile share_95 buckets ≡ bucket_upper_bound b)
        × Reaches (if share_95 (sum buckets) == 0 then 1 else share_95 (sum buckets)) buckets b)
estimate_percentile-Reaches_example = estimate_percentile-Reaches buckets share_95 (omega arith)

test_percentile : estimate_percentile share_95 buckets ≡ bucket_upper_bound 3
unfolding estimate_percentile phantomcore.Metrics.percentile_from
test_percentile = refl
