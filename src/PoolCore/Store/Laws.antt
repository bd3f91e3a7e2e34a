-- ===== src/PoolCore/Store/Laws.antt =====
-- The balances of crates/pool-core/src/store.rs: what `restore_cumulative` and `add_earned` change.
use cr_faucet.Common.{ℕ, ◌≡◌, arith, ◌==◌, if◌then◌else◌, ==_iff, Bool-cases, inl, inr}
use cr_faucet.Common.Dict.{lookup-insert}
use cr_faucet.Common.Int.{ℤ, ◌+ℤ◌, max_ℤ}
use cr_faucet.Common.Results.{ok}
use cr_faucet.PoolCore.Lua.{tonumber, tonumber_exact, IsExact}
use cr_faucet.PoolCore.Store.{
  Redis, earned, last_voucher_cumulative, add_earned, restore_cumulative,
}

-- A restore raises both fields of the miner to the voucher's amount, lowers neither, and leaves
-- every other miner alone. The numbers are below 2 ^ 53.
pub restore-lookup :
    (miner other : ℕ) (cumulative : ℤ) (s : Redis)
    → (miner ≡ other
        → IsExact cumulative × IsExact (earned miner s) × IsExact (last_voucher_cumulative miner s))
    → let s' = (restore_cumulative miner cumulative s).1 in
      (earned other s'
        ≡ (if miner == other then max_ℤ (earned miner s) cumulative else earned other s))
      × (last_voucher_cumulative other s' ≡ (
          if miner == other
          then max_ℤ (last_voucher_cumulative miner s) cumulative
          else last_voucher_cumulative other s))
unfolding restore_cumulative earned last_voucher_cumulative
restore-lookup miner other cumulative s exact =
    let v = tonumber cumulative in
    let e = lookup-insert other miner (max_ℤ (tonumber (earned miner s)) v) s.earned in
    let lv =
      lookup-insert other miner (max_ℤ (tonumber (last_voucher_cumulative miner s)) v)
        s.last_voucher in
    elim (Bool-cases (miner == other)) [
      | inl q ↦
          let (a, b, c) = exact ((==_iff miner other).0 q) in
          ground (
            arith,
            e,
            lv,
            q,
            tonumber_exact cumulative a,
            tonumber_exact (earned miner s) b,
            tonumber_exact (last_voucher_cumulative miner s) c,
          )
      | inr q ↦ ground (arith, e, lv, q)
    ]

-- A credit that the server takes is the old balance and the credit, and stands in the store. A credit that it
-- refuses changes nothing, and no other miner's balance changes.
add_earned_lem :
    (miner other : ℕ) (delta total : ℤ) (s : Redis)
    → (add_earned miner delta s).0 ≡ ok total
    → let s' = (add_earned miner delta s).1 in
      (total ≡ earned miner s +ℤ delta)
      × (earned other s' ≡ (if miner == other then total else earned other s))
      × (last_voucher_cumulative other s' ≡ last_voucher_cumulative other s)
unfolding add_earned earned last_voucher_cumulative
add_earned_lem miner other delta total s h =
    ground (arith, lookup-insert other miner (earned miner s +ℤ delta) s.earned)
