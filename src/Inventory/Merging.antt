-- ===== src/Inventory/Merging.antt =====
-- internal/inventory/inventory.go: what a merge does to each device.
use phantomcore.Base.{ℕ, Option, none, some, List, [], ◌∷◌, Text, text_discrete, ite}
use phantomcore.Inventory.{Device, Inventory, Binding, Observation, newer, seen}

-- What one more binding says of its address.
abbrev pub tell : Binding → Option Observation → Observation
tell b none = record { mac = newer [] b.mac; hostname = newer [] b.hostname }
tell b (some p) = record { mac = newer p.mac b.mac; hostname = newer p.hostname b.hostname }

-- What bindings say of an address, in their order: none when no binding is of it.
abbrev pub told : Text → List Binding → Option Observation → Option Observation
told ip [] o = o
told ip (b ∷ bs) o = told ip bs (ite (text_discrete b.ip ip) (some (tell b o)) o)

-- The device of an address after a loop over observations.
abbrev after : ℕ → Text → Option Observation → Option Device → Option Device
after now ip none d = d
after now ip (some o) d = some (seen now ip o d)
