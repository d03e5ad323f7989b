-- ===== src/Delivery/Interference.antt =====
-- One bump of the hotspot key in Agent/vitabench_delivery.py: `_hotspot_payload_bump` and
-- `_bump_hotspot_once`.
mod Tests
use dbagent_tree.Prelude.{
  ℕ, zero, suc, String, Bool, true, false, List, [], ◌∷◌, ℤ, pos, negsuc, if◌then◌else◌,
}
use dbagent_tree.Exec.{Result, ok, err, hang, Exec, pure, ◌>>=◌, ◌>>◌, catch}
use dbagent_tree.Client.State.{Client}
use dbagent_tree.Tools.Json.{Json, Fields, null, int, float, str, object, end, fields, field_or}
use dbagent_tree.Tools.Python.{Python, str_of, to_int}
use dbagent_tree.Tools.Router.{Tool, Surroundings, run_tool}
use dbagent_tree.Delivery.Floats.{Floats}
use dbagent_tree.Delivery.Winner.{parse_json_safely}
use dbagent_tree.Delivery.Agent.{is_ok}

-- `version + 1`
abbrev next : ℤ → ℤ
next (pos n) = pos (suc n)
next (negsuc zero) = pos zero
next (negsuc (suc n)) = negsuc n

-- How the `try` of a round ends.
pub data Bumped : Type 0 where
  done : Bumped
  again : Bumped
  failed : Bumped

-- What a round finds: the network, what `uuid.uuid4` draws for the payload, and the clock.
pub record Instant (F : Type 0) : Type 0 where
  pub net : Surroundings
  pub nonce : String
  pub clock : F

module _ {F : Type 0} (py : Python F) (fl : Floats F) where
  abbrev version_or_zero : Result ℤ → ℤ
  version_or_zero (ok n) = n
  version_or_zero _ = pos 0

  abbrev version_of : Json F → ℤ
  version_of (object current) =
      version_or_zero (to_int py (field_or "version" (int (pos 0)) current))
  version_of _ = pos 0

  unfoldable pub hotspot_payload_bump : Instant F → Json F → String → String
  hotspot_payload_bump now raw source = py.dumps (
      object (
        fields (
          ("version", int (next (version_of (parse_json_safely py fl raw (object end)))))
          ∷ ("updated_by", str source)
          ∷ ("nonce", str now.nonce)
          ∷ ("ts", float now.clock)
          ∷ [])))

  abbrev raw_of : Fields F → Json F
  raw_of reply = if is_ok py reply then field_or "value" null reply else null

  abbrev in_tx : String → Fields F
  in_tx tx_id = fields (("tx_id", str tx_id) ∷ [])

  -- What follows `tx_put`: without success the round is rolled back here.
  unfoldable pub bump_put : Instant F → String → Fields F → Exec Client Bumped
  bump_put now tx_id reply =
      if is_ok py reply
      then (do
        committed ← run_tool py now.net Tool.tx_commit (in_tx tx_id)
        pure (if is_ok py committed then done else failed))
      else (run_tool py now.net Tool.tx_rollback (in_tx tx_id) >> pure again)

  -- The `try` of a round.
  unfoldable pub bump_body : Instant F → String → String → Exec Client Bumped
  bump_body now key tx_id = do
    current ←
        run_tool py now.net Tool.tx_get (fields (("tx_id", str tx_id) ∷ ("key", str key) ∷ []))
    let next_value = hotspot_payload_bump now (raw_of current) "interference"
    reply ←
        run_tool py now.net Tool.tx_put
          (fields (("tx_id", str tx_id) ∷ ("key", str key) ∷ ("value", str next_value) ∷ []))
    bump_put now tx_id reply

  -- What follows the `try`: the next round, or the return.
  abbrev after_bump : Instant F → String → Exec Client Bool → Bumped → Exec Client Bool
  after_bump now tx_id loop done = pure true
  after_bump now tx_id loop again = loop
  after_bump now tx_id loop failed =
      catch (run_tool py now.net Tool.tx_rollback (in_tx tx_id) >> pure tt) (λ _. pure tt) >> loop

  -- What follows `tx_start`.
  unfoldable pub bump_started : Instant F → String → Exec Client Bool → Fields F → Exec Client Bool
  bump_started now key loop reply =
      let tx_id = str_of py (field_or "tx_id" null reply) in
      if is_ok py reply
      then (catch (bump_body now key tx_id) (λ _. pure failed) >>= after_bump now tx_id loop)
      else loop

  -- `for _ in range(3)`, with `left` rounds to go.
  unfoldable pub bump_rounds : ℕ → (ℕ → Instant F) → String → Exec Client Bool
  bump_rounds zero instants key = pure false
  bump_rounds (suc left) instants key =
      run_tool py (instants left).net Tool.tx_start end
      >>= bump_started (instants left) key (bump_rounds left instants key)

  unfoldable pub bump_hotspot_once : (ℕ → Instant F) → String → Exec Client Bool
  bump_hotspot_once instants key = bump_rounds 3 instants key
