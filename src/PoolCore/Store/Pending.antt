-- ===== src/PoolCore/Store/Pending.antt =====
-- The obligation counters of crates/pool-core/src/store.rs: `redemptions:pending_atomic` and
-- `redemptions:pending_count` against the redemptions that are open.
use cr_faucet.Common.{
  ℕ, ◌≡◌, refl, ap, ◌∙◌, ==-refl, Bool, true, false, ◌||◌, Option, none, some, [], ◌∷◌, Bytes,
  arith, if◌then◌else◌, Option-cases, inl, inr,
}
use cr_faucet.Common.Dict.{Dict, lookup, insert, lookup-insert}
use cr_faucet.Common.Int.{ℤ, pos, negsuc, ◌+ℤ◌, ◌-ℤ◌, ◌<ℤ◌, int_laws, +ℤ_zero, +ℤ_cancel, +ℤ_move}
use cr_faucet.Common.Faults.{Fault, fine, lost, late}
use cr_faucet.Common.Results.{Result, ok, err}
use cr_faucet.PoolCore.Lua.{tonumber_exact, IsExact}
use cr_faucet.PoolCore.Store.{
  Redis, RedemptionState, pending, in_flight, sent, paused, StoreError, or_zero,
}
use cr_faucet.PoolCore.Store.Queue.{
  is_open, set_state, xadd, enqueue_script, sent_under, then_xadd, bump_pending, debit_pending,
  enqueue_redemption, try_mark_redemption_in_flight, mark_redemption_sent,
}

-- The sum of a weight over the redemptions.
unfoldable pub total : (ℕ → RedemptionState → ℤ) → Dict RedemptionState → ℤ
total w [] = pos 0
total w ((id, st) ∷ d) = w id st +ℤ total w d

module _ (w : ℕ → RedemptionState → ℤ) where
  total-insert :
      (id : ℕ) (old v : RedemptionState) (d : Dict RedemptionState)
      → lookup id d ≡ some old
      → total w (insert id v d) +ℤ w id old ≡ total w d +ℤ w id v
  unfolding total lookup insert
  total-insert id old v [] e = cc
  total-insert id old v ((j, st) ∷ d) e =
      grind (int_laws, +ℤ_zero, +ℤ_cancel, +ℤ_move, total-insert id old v d)

  total-insert_new :
      (id : ℕ) (v : RedemptionState) (d : Dict RedemptionState)
      → lookup id d ≡ none
      → total w (insert id v d) ≡ total w d +ℤ w id v
  unfolding total lookup insert
  total-insert_new id v [] e = omega int_laws
  total-insert_new id v ((j, st) ∷ d) e = grind (int_laws, total-insert_new id v d)

  -- A state of the same weight leaves the sum alone.
  total_keep :
      (id : ℕ) (old v : RedemptionState) (d : Dict RedemptionState)
      → lookup id d ≡ some old
      → w id v ≡ w id old
      → total w (insert id v d) ≡ total w d
  total_keep id old v d e same =
      +ℤ_cancel _ _ _ (total-insert id old v d e ∙ ap (λ x. total w d +ℤ x) same)

  -- A state of no weight takes the old weight off the sum.
  total_drop :
      (id : ℕ) (old v : RedemptionState) (d : Dict RedemptionState)
      → lookup id d ≡ some old
      → w id v ≡ pos 0
      → total w (insert id v d) ≡ total w d +ℤ (pos 0 -ℤ w id old)
  total_drop id old v d e none_left =
      +ℤ_move _ _ _ (total-insert id old v d e ∙ ap (λ x. total w d +ℤ x) none_left ∙ +ℤ_zero _)

  -- A new redemption of no weight leaves the sum alone.
  total_keep_new :
      (id : ℕ) (v : RedemptionState) (d : Dict RedemptionState)
      → lookup id d ≡ none
      → w id v ≡ pos 0
      → total w (insert id v d) ≡ total w d
  total_keep_new id v d e none_added =
      total-insert_new id v d e ∙ ap (λ x. total w d +ℤ x) none_added ∙ +ℤ_zero _

-- What an open redemption adds to the two counters.
abbrev pub is_paused : Option RedemptionState → Bool
is_paused (some paused) = true
is_paused _ = false

-- Open, or paused: the tokens are burned, and nothing was paid.
abbrev is_owed : RedemptionState → Bool
is_owed st = is_open (some st) || is_paused (some st)

abbrev open_amount : Dict ℤ → ℕ → RedemptionState → ℤ
open_amount am id st = if is_owed st then or_zero (lookup id am) else pos 0

abbrev open_one : ℕ → RedemptionState → ℤ
open_one id st = if is_owed st then pos 1 else pos 0

-- The amount of the redemptions that are `pending`, `in_flight` or `paused`, and their number.
unfoldable pub owed : Redis → ℤ
unfolding total
owed s = total (open_amount s.amount) s.state

unfoldable pub open_count : Redis → ℤ
unfolding total
open_count s = total open_one s.state

-- The recorded amount of a redemption is new to the sum until its state is.
total-amount_new :
    (id : ℕ) (a : ℤ) (am : Dict ℤ) (d : Dict RedemptionState)
    → lookup id d ≡ none
    → total (open_amount (insert id a am)) d ≡ total (open_amount am) d
unfolding total lookup
total-amount_new id a am [] e = refl
total-amount_new id a am ((j, st) ∷ d) e =
    ground (arith, total-amount_new id a am d, lookup-insert j id a am)

minus_one : (z : ℤ) → z +ℤ (pos 0 -ℤ pos 1) ≡ z +ℤ negsuc 0
unfolding ◌-ℤ◌
minus_one z = refl

-- The counters agree with the redemptions that are owed. (payouts.rs also sets `failed` and `sent` by HSET
-- alone, which takes nothing off the counters.)
pub record IsBalanced (s : Redis) : Type 0 where
  pub atomic_matches : s.pending_atomic ≡ owed s
  pub count_matches : s.pending_count ≡ open_count s

-- A redemption that is new to the store, set to `pending` with its amount.
owed_new :
    (id : ℕ) (a : ℤ) (am : Dict ℤ) (d : Dict RedemptionState)
    → lookup id d ≡ none
    → total (open_amount (insert id a am)) (insert id pending d) ≡ total (open_amount am) d +ℤ a
owed_new id a am d e = rw (
  total-insert_new (open_amount (insert id a am)) id pending d e,
  total-amount_new id a am d e,
  lookup-insert id id a am,
  ==-refl id,
)

script-IsBalanced :
    (id : ℕ) (a : ℤ) (fresh : Bool) (s : Redis)
    → IsBalanced s
    → IsExact a
    → (enqueue_script id a s).0 ≡ ok fresh
    → IsBalanced (enqueue_script id a s).1
unfolding enqueue_script owed open_count bump_pending
script-IsBalanced id a fresh s h exact e = elim (Option-cases (lookup id s.state)) [
  | inl new ↦ ground (
    arith,
    owed_new id a s.amount s.state new,
    total-insert_new open_one id pending s.state new,
    tonumber_exact a exact,
  )
  | inr (st, old) ↦ ground arith
]

xadd-IsBalanced :
    (f : Fault) (id evm_from : ℕ) (a : ℤ) (addr : Bytes) (r : Result StoreError Bool × Redis)
    → IsBalanced r.1
    → IsBalanced (then_xadd f r (xadd id evm_from a addr)).1
unfolding xadd owed open_count
xadd-IsBalanced fine id evm_from a addr (ok true, s) h = record {
  atomic_matches = h.atomic_matches;
  count_matches = h.count_matches;
}
xadd-IsBalanced lost id evm_from a addr (ok true, s) h = h
xadd-IsBalanced late id evm_from a addr (ok true, s) h = record {
  atomic_matches = h.atomic_matches;
  count_matches = h.count_matches;
}
xadd-IsBalanced f id evm_from a addr (ok false, s) h = h
xadd-IsBalanced f id evm_from a addr (err e, s) h = h

under-IsBalanced :
    (f : Fault) (s : Redis) (r : Result StoreError Bool × Redis)
    → IsBalanced s
    → IsBalanced r.1
    → IsBalanced (sent_under f s r).1
under-IsBalanced fine s r h k = k
under-IsBalanced lost s r h k = h
under-IsBalanced late s r h k = k

-- However an enqueue ends after the script has run and the server has taken its commands, the first of its
-- id or a repeated one, it keeps the counters right, also if the entry is not queued. The amount is below
-- 2 ^ 53.
pub enqueue-IsBalanced :
    (at_script at_xadd : Fault) (id evm_from : ℕ) (a : ℤ) (addr : Bytes) (fresh : Bool) (s : Redis)
    → IsBalanced s
    → IsExact a
    → (enqueue_script id a s).0 ≡ ok fresh
    → IsBalanced (enqueue_redemption at_script at_xadd id evm_from a addr s).1
unfolding enqueue_redemption
enqueue-IsBalanced at_script at_xadd id evm_from a addr fresh s h exact e =
    xadd-IsBalanced at_xadd id evm_from a addr (sent_under at_script s (enqueue_script id a s)) (
      under-IsBalanced at_script s (enqueue_script id a s) h
        (script-IsBalanced id a fresh s h exact e))

-- Taking the transfer slot of a redemption, or failing to, keeps the counters right.
pub try_mark-IsBalanced :
    (id : ℕ) (s : Redis) → IsBalanced s → IsBalanced (try_mark_redemption_in_flight id s).1
unfolding try_mark_redemption_in_flight owed open_count
try_mark-IsBalanced id s h = elim (Option-cases (lookup id s.state)) [
  | inl new ↦ ground arith
  | inr (st, old) ↦ ground (
    arith,
    total_keep (open_amount s.amount) id st in_flight s.state old,
    total_keep open_one id st in_flight s.state old,
  )
]

-- Pausing an open redemption keeps the counters right: it stays owed.
pause-IsBalanced :
    (id : ℕ) (st : RedemptionState) (s : Redis)
    → IsBalanced s
    → lookup id s.state ≡ some st
    → is_open (some st) ≡ true
    → IsBalanced (set_state id paused s)
unfolding set_state owed open_count
pause-IsBalanced id st s h old live = ground (
  arith,
  total_keep (open_amount s.amount) id st paused s.state old,
  total_keep open_one id st paused s.state old,
)

-- Marking a redemption as sent keeps the counters right. It is not paused, its amount is recorded, above 0
-- and below 2 ^ 53, and the server takes the commands.
pub mark_sent-IsBalanced :
    (id : ℕ) (a : ℤ) (txid : Bytes) (s : Redis)
    → IsBalanced s
    → lookup id s.amount ≡ some a
    → pos 0 <ℤ a
    → IsExact a
    → is_paused (lookup id s.state) ≡ false
    → (mark_redemption_sent id txid s).0 ≡ ok tt
    → IsBalanced (mark_redemption_sent id txid s).1
unfolding mark_redemption_sent owed open_count debit_pending
mark_sent-IsBalanced id a txid s h ea pa exact unpaused e =
    elim (Option-cases (lookup id s.state)) [
      | inl new ↦ ground (
        arith,
        total_keep_new (open_amount s.amount) id sent s.state new,
        total_keep_new open_one id sent s.state new,
      )
      | inr (st, old) ↦ ground (
        arith,
        total_keep (open_amount s.amount) id st sent s.state old,
        total_keep open_one id st sent s.state old,
        total_drop (open_amount s.amount) id st sent s.state old refl,
        total_drop open_one id st sent s.state old refl,
        minus_one (total open_one s.state),
        tonumber_exact a exact,
      )
    ]
