-- ===== src/Chain/Peers.antt =====
-- petri/cosmos/chain/peers.go: the peers of a node as texts and as bootstrap peers. The conversion of a
-- public key to a lib-p2p identifier is part of the answer to `peer_id`.
use Prim.Native.String.{◌++◌ as append}
use ironbird.Base.{ℕ, String, Bool, true, false, not, List, [], ◌∷◌, ◌++◌}
use ironbird.Base.Texts.{join}
use ironbird.Base.Action.{pure, ◌>>=◌}
use ironbird.Chain.Types.{
  BootstrapPeer, ip, private_ip, node_id, peer_id, external_address, Nodes, Chain, ask,
}

abbrev pub comet_port : String
comet_port = "26656"

module _ (nodes : Nodes) where
  unfoldable pub peer_host_external : ℕ → Chain String
  peer_host_external n = ask nodes (external_address n comet_port)

  unfoldable pub peer_host_internal : ℕ → Chain String
  peer_host_internal n = do addr ← ask nodes (ip n); pure (append addr (append ":" comet_port))

  unfoldable pub peer_host_private : ℕ → Chain String
  peer_host_private n = do
    addr ← ask nodes (private_ip n)
    pure (append addr (append ":" comet_port))

  abbrev pub comet_host : Bool → ℕ → Chain String
  comet_host true = peer_host_external
  comet_host false = peer_host_internal

  unfoldable pub comet_peers : Bool → List ℕ → Chain (List String)
  unfolding peer_host_external peer_host_internal
  comet_peers external [] = pure []
  comet_peers external (n ∷ ns) = do
    id ← ask nodes (node_id n)
    host ← comet_host external n
    others ← comet_peers external ns
    pure (append id (append "@" host) ∷ others)

  unfoldable pub as_comet_peer_string : Bool → List ℕ → Chain String
  unfolding comet_peers join
  as_comet_peer_string external ns = do peers ← comet_peers external ns; pure (join "," peers)

  abbrev pub bootstrap_host : Bool → ℕ → Chain String
  bootstrap_host true = peer_host_internal
  bootstrap_host false = peer_host_private

  unfoldable pub as_lib_p2p_bootstrap_peers : Bool → List ℕ → Chain (List BootstrapPeer)
  unfolding peer_host_internal peer_host_private
  as_lib_p2p_bootstrap_peers is_docker [] = pure []
  as_lib_p2p_bootstrap_peers is_docker (n ∷ ns) = do
    host ← bootstrap_host is_docker n
    id ← ask nodes (peer_id n)
    others ← as_lib_p2p_bootstrap_peers is_docker ns
    pure ((record { host = host; id = id }) ∷ others)

  -- The peer sets are the seeds and the persistent peers.
  unfoldable pub compose_lib_p2p_bootstrap_peers : Bool → List (List ℕ) → Chain (List BootstrapPeer)
  unfolding as_lib_p2p_bootstrap_peers
  compose_lib_p2p_bootstrap_peers external [] = pure []
  compose_lib_p2p_bootstrap_peers external (set ∷ sets) = do
    peers ← as_lib_p2p_bootstrap_peers (not external) set
    others ← compose_lib_p2p_bootstrap_peers external sets
    pure (peers ++ others)
