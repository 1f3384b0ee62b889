-- ===== src/Server/Services/Configs/Routes.antt =====
-- The IPv6 network that a node announces, and the one that its peers let through.
use wireguard_babeld_igp.Base.{ℕ, ◌<◌, ◌≡◌, ap}
use wireguard_babeld_igp.Base.Int.{pos}
use wireguard_babeld_igp.Data.Text.{replace_all, show_hex-show_ℤ}
use wireguard_babeld_igp.Types.{NodeConfig}
use wireguard_babeld_igp.Config.{Network}
use wireguard_babeld_igp.Server.Services.Configs.{Formats, ipv6_network, ipv6_route}

-- The network that a node with an identifier below ten announces in babeld is the one that its peers
-- let through in WireGuard.
pub ipv6_route_allowed :
    (network : Network) (formats : Formats) (node : NodeConfig) (n : ℕ)
    → node.id ≡ pos n
    → n < 10
    → (ipv6_route network formats node).network ≡ ipv6_network network formats node
unfolding ipv6_route ipv6_network
ipv6_route_allowed network formats node n e h =
    rw e (ap (λ text. replace_all "{node}" text network.ipv6_node_template) (show_hex-show_ℤ n h))
