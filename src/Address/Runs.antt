-- ===== src/Address/Runs.antt =====
-- Runs of the addresses.
use exhy.Common.{ℕ, true, false, not, ◌&&◌, ◌≡◌, ◌≢◌, ◌⊎◌, List, [], ◌∷◌, arith}
use exhy.ByteArray.{little, big}
use exhy.Address.{address_less, address_eq, Ipv4Address, new_ipv4_address, get_port, set_port}
use exhy.Address.Order.{address_order}
use exhy.Address.Ports.{get_port-set_port}

abbrev low : List ℕ
low = 1 ∷ 2 ∷ []

abbrev longer : List ℕ
longer = 1 ∷ 2 ∷ 0 ∷ []

abbrev high : List ℕ
high = 1 ∷ 3 ∷ []

address_order_example :
    (((low ≡ longer)
        × (address_eq low longer ≡ true)
        × (address_less low longer ≡ false)
        × (address_less longer low ≡ false))
      ⊎ ((low ≢ longer)
          × (address_eq low longer ≡ false)
          × (address_less longer low ≡ not (address_less low longer))))
    × ((address_less low longer && address_less longer high && not (address_less low high)) ≡ false)
address_order_example = address_order low longer high

abbrev an_address : Ipv4Address
an_address = record { addr = 0; port = 0 }

get_port-set_port_example :
    (get_port little (set_port little 80 an_address) ≡ 80)
    × (get_port little (new_ipv4_address little 1 80) ≡ 0)
    × (get_port big (new_ipv4_address big 1 80) ≡ 80)
get_port-set_port_example = get_port-set_port little an_address 1 80 (omega arith)
