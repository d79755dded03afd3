-- ===== src/Chain/Waiting.antt =====
-- petri/cosmos/chain/chain.go: the height of a chain, the waits for a height, and the teardown. A wait
-- runs on fuel, one unit for each tick of its ticker. Heights are of 64 bits.
use ironbird.Base.{ℕ, zero, suc, ◌+◌, ◌%◌, ◌^◌, Bool, false, List, [], ◌∷◌, leb, if◌then◌else◌}
use ironbird.Base.Action.{Result, ok, err, pure, raise, ◌>>=◌, ◌>>◌}
use ironbird.Chain.Types.{Error, ctx_done, out_of_fuel, block_height, destroy, Nodes, Chain, ask}
use ironbird.Chain.Create.{State}
use ironbird.Chain.Setup.{Codec, full_node}

module _ (nodes : Nodes) (codec : Codec) (s : State) where
  unfoldable pub height : Chain ℕ
  unfolding full_node
  height = do n ← full_node nodes codec s; ask nodes (block_height n)

  -- A failure of `height` is only logged.
  abbrev pub reached : ℕ → Result Error ℕ → Bool
  reached desired (ok h) = leb desired h
  reached desired (err e) = false

  -- One tick: the deadline, or else a look at the height.
  unfoldable pub wait_for_height : ℕ → ℕ → Chain (Unit {0})
  unfolding height
  wait_for_height zero desired = raise out_of_fuel
  wait_for_height (suc fuel) desired = λ log.
      let rest = wait_for_height fuel desired in
      if nodes.ctx_done log
      then (err ctx_done, log)
      else if reached desired (height log).0
      then (ok tt, (height log).1)
      else rest (height log).1

  unfoldable pub wait_for_blocks : ℕ → ℕ → Chain (Unit {0})
  unfolding wait_for_height
  wait_for_blocks fuel delta = do start ← height; wait_for_height fuel ((start + delta) % 2 ^ 64)

  -- A height of at least one, or the end of the context: other failures are tried again.
  unfoldable pub wait_for_startup : ℕ → ℕ → Chain (Unit {0})
  unfolding wait_for_height
  wait_for_startup zero inner = raise out_of_fuel
  wait_for_startup (suc fuel) inner = λ log.
      let rest = wait_for_startup fuel inner in
      if nodes.ctx_done log then (err ctx_done, log) else elim (wait_for_height inner 1 log).0 [
        | ok u ↦ (ok tt, (wait_for_height inner 1 log).1)
        | err e ↦ rest (wait_for_height inner 1 log).1
      ]

  unfoldable pub destroy_each : List ℕ → Chain (Unit {0})
  destroy_each [] = pure tt
  destroy_each (n ∷ ns) = ask nodes (destroy n) >> destroy_each ns

  unfoldable pub teardown_chain : Chain (Unit {0})
  unfolding destroy_each
  teardown_chain = destroy_each s.validators >> destroy_each s.nodes
