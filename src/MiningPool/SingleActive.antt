-- ===== src/MiningPool/SingleActive.antt =====
-- crates/mining-pool/src/single_active.rs: a pool waits until it is the only live instance. CBOR values
-- belong to a library: what the code asks of them is a parameter.
pub mod Counting
pub mod Waiting
use cr_faucet.Common.{
  ℕ, suc, ◌+◌, Bool, true, false, Option, none, some, List, [], ◌∷◌, ◌++◌, map, Bytes, leb, length,
  any, if◌then◌else◌,
}
use cr_faucet.Common.Results.{Result, ok, err}

-- Equality of values, the parts of an array and of a map, the test for a text, and `Null`.
pub record Cbor (V : Type 0) : Type 0 where
  pub eq : V → V → Bool
  pub as_array : V → Option (List V)
  pub as_map : V → Option (List (V × V))
  pub is_text : Bytes → V → Bool
  pub null : V

pub data Decision : Type 0 where
  proceed : Decision
  stand_down : ℕ → Decision
  skipped : Decision

abbrev pub max_errors : ℕ
max_errors = 6

pub record SingleActiveConfig : Type 0 where
  pub enabled : Bool
  pub node_aware : Bool

-- How the wait ends, or that it has not; `waiting` keeps the errors in a row so far.
pub data Outcome : Type 0 where
  no_socket disabled sole unguarded not_applicable : Outcome
  waiting : ℕ → Outcome

module _ {V : Type 0} (cbor : Cbor V) where
  abbrev pub find_key : Bytes → List (V × V) → Option V
  find_key key [] = none
  find_key key ((k, v) ∷ pairs) = if cbor.is_text key k then some v else find_key key pairs

  abbrev pub in_map : Bytes → Option (List (V × V)) → Option V
  in_map key none = none
  in_map key (some pairs) = find_key key pairs

  unfoldable pub map_get : Bytes → V → Option V
  map_get key v = in_map key (cbor.as_map v)

  abbrev pub or_null : Option V → V
  or_null none = cbor.null
  or_null (some v) = v

  abbrev pub nodes_of : Bytes → Option (List V) → Result (Unit {0}) (List V)
  nodes_of key none = err tt
  nodes_of key (some regs) = ok (map (λ r. or_null (map_get key r)) regs)

  -- The end of `live_node_ids`: the ids of the registrations that the query gave, under "node_id".
  unfoldable pub live_node_ids : Bytes → V → Result (Unit {0}) (List V)
  unfolding map_get
  live_node_ids key regs = nodes_of key (cbor.as_array regs)

  -- The values that were not seen before, in order.
  unfoldable pub distinct_from : List V → List V → List V
  distinct_from seen [] = seen
  distinct_from seen (v ∷ vs) =
      distinct_from (if any (λ s. cbor.eq s v) seen then seen else seen ++ (v ∷ [])) vs

  unfoldable pub distinct_count : List V → ℕ
  unfolding distinct_from
  distinct_count values = length (distinct_from [] values)

  abbrev pub decide_count : ℕ → Decision
  decide_count n = if leb n 1 then proceed else stand_down n

  unfoldable pub decide : List V → Bool → Decision
  decide nodes node_aware =
      if node_aware then decide_count (distinct_count nodes) else decide_count (length nodes)

  abbrev pub on_decision : Outcome → Decision → Outcome
  on_decision rest proceed = sole
  on_decision rest (stand_down _) = rest
  on_decision rest skipped = not_applicable

  -- The loop, on the answers of the checks; an answer that shows a peer clears the errors.
  unfoldable pub watch : Bool → ℕ → List (Result (Unit {0}) (List V)) → Outcome
  watch node_aware errors [] = waiting errors
  watch node_aware errors (ok nodes ∷ rs) =
      let rest = watch node_aware 0 rs in on_decision rest (decide nodes node_aware)
  watch node_aware errors (err _ ∷ rs) =
      let rest = watch node_aware (errors + 1) rs in
      if leb max_errors (errors + 1) then unguarded else rest

  unfoldable pub await_sole_instance :
      Bool → SingleActiveConfig → List (Result (Unit {0}) (List V)) → Outcome
  await_sole_instance socket_exists cfg checks =
      if socket_exists
      then if cfg.enabled then watch cfg.node_aware 0 checks else disabled
      else no_socket
