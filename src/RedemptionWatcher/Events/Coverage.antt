-- ===== src/RedemptionWatcher/Events/Coverage.antt =====
-- The poller of crates/redemption-watcher/src/events.rs leaves out no id: each one up to its cursor has a
-- state in the store.
use native.Mathlib.Decide.{dec_le}
use cr_faucet.Common.{
  ℕ, zero, suc, ◌+◌, ◌-◌, ◌≡◌, ◌≤◌, ◌<◌, ==-refl, Bool, true, false, Option, none, some, Bytes,
  arith, refl, subst, sym, min, max, ◌^◌, Bool-cases, leb, inl, inr,
}
use cr_faucet.Common.Dict.{lookup-insert}
use cr_faucet.Common.Faults.{Fault, fine, lost, late}
use cr_faucet.Common.Int.{ℤ}
use cr_faucet.Common.Results.{Result, ok, err}
use cr_faucet.Contracts.MiningPoolToken.{StoredRedemption}
use cr_faucet.PoolCore.Store.{Redis, pending, StoreError, get_cursor, set_cursor}
use cr_faucet.PoolCore.Store.Queue.{
  is_known, redemption_state, enqueue_redemption, enqueue_script, bump_pending, xadd, sent_under,
  then_xadd,
}
use cr_faucet.RedemptionWatcher.Events.{
  EventPoller, Chain, cursor_or, counted, enqueue_read, enqueue_one, enqueue_ids, u256_to_i64,
  tick_to, IdFaults, after_enqueue, next_id_of, tick, chunk_end,
}

-- The store knows the redemption, in whatever state.
abbrev pub Knows : ℕ → Redis → Type 0
Knows id s = is_known (redemption_state id s) ≡ true

-- The last id that the poller is done with.
abbrev pub reached : ℕ → Redis → ℕ
reached start s = cursor_or start (get_cursor s)

-- Every id from the start to the cursor is known.
abbrev pub Covers : ℕ → Redis → Type 0
Covers start s = (id : ℕ) → start - 1 < id → id ≤ reached start s → Knows id s

script-keeps :
    (id : ℕ) (a : ℤ) (s : Redis)
    → let s' = (enqueue_script id a s).1 in
      (get_cursor s' ≡ get_cursor s) × ((j : ℕ) → Knows j s → Knows j s')
unfolding enqueue_script bump_pending get_cursor redemption_state
script-keeps id a s = (ground arith, λ j k. ground (arith, lookup-insert j id pending s.state))

script-Knows :
    (id : ℕ) (a : ℤ) (s : Redis) (b : Bool)
    → (enqueue_script id a s).0 ≡ ok b
    → Knows id (enqueue_script id a s).1
unfolding enqueue_script bump_pending redemption_state
script-Knows id a s b e = ground (arith, lookup-insert id id pending s.state, ==-refl id)

-- What a step from s leaves of the cursor and of what is known; it knows the id if it succeeds.
abbrev Keeps : ℕ → Redis → Result StoreError Bool × Redis → Type 0
Keeps id s (x, s') =
    (get_cursor s' ≡ get_cursor s)
    × ((j : ℕ) → Knows j s → Knows j s')
    × ((b : Bool) → x ≡ ok b → Knows id s')

under-Keeps :
    (f : Fault) (id : ℕ) (s : Redis) (r : Result StoreError Bool × Redis)
    → Keeps id s r
    → Keeps id s (sent_under f s r)
under-Keeps fine id s r k = k
under-Keeps lost id s r k = (refl, (λ j h. h), λ b e. cc)
under-Keeps late id s r k = (k.0, k.1, λ b e. cc)

xadd-Keeps :
    (f : Fault) (id from : ℕ) (a : ℤ) (addr : Bytes) (s : Redis)
    (r : Result StoreError Bool × Redis)
    → Keeps id s r
    → Keeps id s (then_xadd f r (xadd id from a addr))
unfolding xadd get_cursor redemption_state
xadd-Keeps fine id from a addr s (ok true, u) k = k
xadd-Keeps lost id from a addr s (ok true, u) k = (k.0, k.1, λ b e. cc)
xadd-Keeps late id from a addr s (ok true, u) k = (k.0, k.1, λ b e. cc)
xadd-Keeps f id from a addr s (ok false, u) k = k
xadd-Keeps f id from a addr s (err e, u) k = k

enqueue-Keeps :
    (f g : Fault) (id from : ℕ) (a : ℤ) (addr : Bytes) (s : Redis)
    → Keeps id s (enqueue_redemption f g id from a addr s)
unfolding enqueue_redemption
enqueue-Keeps f g id from a addr s =
    let (kept, known) = script-keeps id a s in
    xadd-Keeps g id from a addr s (sent_under f s (enqueue_script id a s))
      (under-Keeps f id s (enqueue_script id a s) (kept, known, script-Knows id a s))

-- What one step does to the coverage: it keeps it, moves the cursor to the id if it succeeds, and
-- never moves it back.
abbrev pub Advances : ℕ → ℕ → Redis → Option Bool × Redis → Type 0
Advances start id s (r, s') =
    Covers start s'
    × (reached start s ≤ reached start s')
    × ((b : Bool) → r ≡ some b → reached start s' ≡ id)

module _ (start id : ℕ) where
  stays :
      (s s' : Redis)
      → Covers start s
      → get_cursor s' ≡ get_cursor s
      → ((j : ℕ) → Knows j s → Knows j s')
      → Advances start id s (none, s')
  stays s s' c e k = (
    λ j low high. k j (c j low (subst (λ o. j ≤ cursor_or start o) e high)),
    subst (λ o. reached start s ≤ cursor_or start o) (sym e) (omega arith),
    λ b h. cc,
  )

  moves :
      (s s' : Redis) (r : Option Bool)
      → id ≡ reached start s + 1
      → Covers start s
      → ((j : ℕ) → Knows j s → Knows j s')
      → Knows id s'
      → Advances start id s (r, set_cursor id s')
  unfolding get_cursor set_cursor redemption_state
  moves s s' r e c k new = (
    λ j low high. elim (dec_le j (reached start s)) [
      | yes h ↦ k j (c j low h)
      | no h ↦ subst (λ i. Knows i s') (omega (arith, e, high)) new
    ],
    omega (arith, e),
    λ b' h. refl,
  )

  stored :
      (f : Fault) (s : Redis) (x : Result StoreError Bool × Redis)
      → id ≡ reached start s + 1
      → Covers start s
      → Keeps id s x
      → Advances start id s (after_enqueue f id x)
  stored fine s (ok b, u) e c k = moves s u (some b) e c k.1 (k.2 b refl)
  stored lost s (ok b, u) e c k = stays s u c k.0 k.1
  stored late s (ok b, u) e c k = moves s u none e c k.1 (k.2 b refl)
  stored f s (err x, u) e c k = stays s u c k.0 k.1

  read_Advances :
      (f : IdFaults) (r : StoredRedemption) (o : Option ℤ) (s : Redis)
      → id ≡ reached start s + 1
      → Covers start s
      → Advances start id s (enqueue_read f id r o s)
  read_Advances f r none s e c = stays s s c refl (λ j k. k)
  read_Advances f r (some a) s e c =
      stored f.at_cursor s (enqueue_redemption f.at_script f.at_xadd id r.user a r.xmr_address s) e
        c (enqueue-Keeps f.at_script f.at_xadd id r.user a r.xmr_address s)

  one_Advances :
      (f : IdFaults) (o : Option StoredRedemption) (s : Redis)
      → id ≡ reached start s + 1
      → Covers start s
      → Advances start id s (enqueue_one f id o s)
  one_Advances f none s e c = stays s s c refl (λ j k. k)
  one_Advances f (some r) s e c = read_Advances f r (u256_to_i64 r.amount) s e c

module _ (start : ℕ) (net : ℕ → IdFaults) (read : ℕ → Option StoredRedemption) where
  -- The loop keeps the coverage, and when it ends well the cursor is at its last id.
  abbrev Done : ℕ → ℕ → Redis → Option ℕ × Redis → Type 0
  Done left id s (r, s') =
      Covers start s'
      × (reached start s ≤ reached start s')
      × ((m : ℕ) → r ≡ some m → reached start s' + 1 ≡ id + left)

  after :
      (left id n : ℕ) (s : Redis) (r : Option Bool) (u : Redis)
      → Advances start id s (r, u)
      → ((b : Bool)
          → id + 1 ≡ reached start u + 1
          → Covers start u
          → Done left (id + 1) u (enqueue_ids net read left (id + 1) (counted b n) u))
      → Done (suc left) id s (elim r as (λ _. Option ℕ × Redis) [
        | none ↦ (none, u)
        | some b ↦ enqueue_ids net read left (id + 1) (counted b n) u
      ])
  after left id n s none u a k = (a.0, a.1, λ m h. cc)
  after left id n s (some b) u a k =
      let at = a.2 b refl in
      let (covers, later, done) = k b (omega (arith, at)) a.0 in
      let grown = a.1 in
      (covers, omega (arith, grown, later), λ m h. let d = done m h in omega (arith, d))

  ids_Done :
      (left id n : ℕ) (s : Redis)
      → id ≡ reached start s + 1
      → Covers start s
      → Done left id s (enqueue_ids net read left id n s)
  unfolding enqueue_ids
  ids_Done zero id n s e c = (c, omega arith, λ m h. omega (arith, e))
  ids_Done (suc left) id n s e c =
      let a = one_Advances start id (net id) (read id) s e c in
      after left id n s (enqueue_one (net id) id (read id) s).0
        (enqueue_one (net id) id (read id) s).1 a
        (λ b e' c'.
          ids_Done left (id + 1) (counted b n) (enqueue_one (net id) id (read id) s).1 e' c')

tick_to-Covers :
    (poller : EventPoller) (net : ℕ → IdFaults) (read : ℕ → Option StoredRedemption)
    (next : Option ℕ) (s : Redis)
    → let start = poller.start_block in
      Covers start s
      → let s' = (tick_to poller net read (reached start s) next s).1 in
        Covers start s' × (reached start s ≤ reached start s')
tick_to-Covers poller net read none s c = (c, omega arith)
tick_to-Covers poller net read (some next) s c =
    let start = poller.start_block in
    let from = reached start s + 1 in
    let (covers, later, _) =
      ids_Done start net read (chunk_end from poller.chunk_size next + 1 - from) from 0 s refl c in
    elim (Bool-cases (leb next (reached start s))) [
      | inl q ↦ rw q (c, omega arith)
      | inr q ↦ rw q (covers, later)
    ]

-- However a tick ends, and whichever of its commands to Redis are lost or lose their answer, every
-- redemption from the start to the cursor has a state in the store afterwards if that was so before, and
-- the cursor has not moved back. That it was put on the queue too is not said.
pub tick-Covers :
    (poller : EventPoller) (chain : Chain) (at_cursor : Fault) (net : ℕ → IdFaults) (s : Redis)
    → let start = poller.start_block in
      Covers start s
      → let s' = (tick poller chain at_cursor net s).1 in
        Covers start s' × (reached start s ≤ reached start s')
unfolding tick
tick-Covers poller chain fine net s c =
    tick_to-Covers poller net chain.redemptions (next_id_of chain.next_redemption_id) s c
tick-Covers poller chain lost net s c = (c, omega arith)
tick-Covers poller chain late net s c = (c, omega arith)

chunk_end-fits :
    (reached size next : ℕ)
    → reached + size < 2 ^ 64
    → chunk_end (reached + 1) size next ≡ min (reached + size) next
unfolding chunk_end
chunk_end-fits reached size next h = omega (arith, h)

tick_to_past :
    (poller : EventPoller) (net : ℕ → IdFaults) (read : ℕ → Option StoredRedemption)
    (cursor next : ℕ) (s : Redis)
    → leb next cursor ≡ false
    → tick_to poller net read cursor (some next) s
      ≡ enqueue_ids net read
          (chunk_end (cursor + 1) poller.chunk_size next + 1 - (cursor + 1))
          (cursor + 1)
          0
          s
tick_to_past poller net read cursor next s q = rw q refl

tick_to_reaches :
    (poller : EventPoller) (net : ℕ → IdFaults) (read : ℕ → Option StoredRedemption) (next m : ℕ)
    (s : Redis)
    → let start = poller.start_block in
      Covers start s
      → 0 < poller.chunk_size
      → reached start s + poller.chunk_size < 2 ^ 64
      → (tick_to poller net read (reached start s) (some next) s).0 ≡ some m
      → reached start (tick_to poller net read (reached start s) (some next) s).1
        ≡ max (reached start s) (min (reached start s + poller.chunk_size) next)
tick_to_reaches poller net read next m s c size fits h =
    let start = poller.start_block in
    let from = reached start s + 1 in
    let last = chunk_end from poller.chunk_size next in
    let exact = chunk_end-fits (reached start s) poller.chunk_size next fits in
    let (_, _, done) = ids_Done start net read (last + 1 - from) from 0 s refl c in
    elim (Bool-cases (leb next (reached start s))) [
      | inl q ↦ rw q (ground (arith, q))
      | inr q ↦
          let past = tick_to_past poller net read (reached start s) next s q in
          let ends = done m (subst (λ r. r.0 ≡ some m) past h) in
          subst
            (λ (r : Option ℕ × Redis).
              reached start r.1
              ≡ max (reached start s) (min (reached start s + poller.chunk_size) next))
            (sym past) (ground (arith, q, exact, ends))
    ]

-- A tick that ends well takes the cursor as far as one chunk, or the newest redemption, allows. The
-- chunk size is positive and the sum fits 64 bits.
pub tick_reaches :
    (poller : EventPoller) (chain : Chain) (at_cursor : Fault) (net : ℕ → IdFaults) (next m : ℕ)
    (s : Redis)
    → let start = poller.start_block in
      Covers start s
      → 0 < poller.chunk_size
      → reached start s + poller.chunk_size < 2 ^ 64
      → next_id_of chain.next_redemption_id ≡ some next
      → (tick poller chain at_cursor net s).0 ≡ some m
      → reached start (tick poller chain at_cursor net s).1
        ≡ max (reached start s) (min (reached start s + poller.chunk_size) next)
unfolding tick
tick_reaches poller chain fine net next m s c size fits newest h =
    let start = poller.start_block in
    let run = λ (o : Option ℕ). tick_to poller net chain.redemptions (reached start s) o s in
    let ends = subst (λ o. (run o).0 ≡ some m) newest h in
    subst
      (λ o.
        reached start (run o).1
        ≡ max (reached start s) (min (reached start s + poller.chunk_size) next))
      (sym newest) (tick_to_reaches poller net chain.redemptions next m s c size fits ends)
tick_reaches poller chain lost net next m s c size fits newest h = cc
tick_reaches poller chain late net next m s c size fits newest h = cc
