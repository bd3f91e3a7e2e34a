-- ===== src/Lib.antt =====
-- A verification library of the mining pool: what the pool owes its miners, what it signs for them, and
-- what it pays out.
--
-- A miner's connection is a session (crates/stratum-proxy/src/session.rs), which serves it jobs at a
-- difficulty of its own (crates/stratum-proxy/src/vardiff.rs) and takes its shares. A share is accepted
-- once by the job store (crates/stratum-proxy/src/jobs.rs), credited by the
-- accountant (crates/accountant/src/lib.rs) in the Redis store (crates/pool-core/src/store.rs), and
-- turned into a signed voucher by the voucher signer (crates/voucher-signer/src/lib.rs, which asks
-- crates/pool-core/src/voucher.rs for the amount). The miner claims the voucher on the token
-- (contracts/src/MiningPoolToken.sol) and redeems the token later. The redemption watcher queues the
-- redemptions that its poller reads (crates/redemption-watcher/src/events.rs), pays them in Monero
-- (crates/redemption-watcher/src/payouts.rs), and swaps the pool's fee for rent
-- (crates/redemption-watcher/src/fee_swap.rs). Before any of this the process waits until it is the only
-- instance (crates/mining-pool/src/single_active.rs).
--
-- Common: lists, association lists, integers with `i64` bounds, results, the faults of a call.
-- PoolCore/Redemption, Voucher, Store (Queue for the scripts on redemptions): one function for each
--   function of the file of that name; a store is the record `Redis`, and an operation returns its
--   answer and the new store. Laws and Pending hold the lemmas. Lua: the doubles of its scripts; a whole
--   number of 10 ^ 17 or more is taken to be written in digits, which depends on the server.
-- Contracts/MiningPoolToken: the token as a record; a call that reverts is `none`.
-- Accountant, VoucherSigner: `credit`, `state`, `issue`, `restore`. Solvency has the histories.
-- RedemptionWatcher/World: the monad of `drain_once`: an early `continue`, `break` or `?` is an `Exit`,
--   and every call takes a fault from a list: it goes well, is lost, or has its effect and loses its
--   answer. A crash is a list of lost calls. Guards and Pay are the stages of an entry, Payouts the
--   loop, Calls the single commands, Wallet what is asked of the wallet, ProRata the amount.
--   PaysOut has the run in which nothing goes wrong. Preserves and Leads are the rules that carry an
--   invariant through the stages; NoDoublePay uses them.
-- RedemptionWatcher/Events, FeeSwap: one tick each, with what it reads from the chain as input.
-- StratumProxy/Jobs: the ring of jobs and the nonces that were seen. StratumProxy/Share: the check of a
--   share (crates/stratum-proxy/src/share.rs, with crates/pool-core/src/stratum.rs and
--   crates/randomx-verify/src/lib.rs).
-- StratumProxy/Vardiff: the controller of the difficulty; `serve` is what a job boundary does with it.
-- StratumProxy/Session: the ring of served difficulties and the worker byte; Parts the state, the
--   messages and what is shared; Handler handle_request and push_job, one function for each stage, with
--   how the message leaves the session as a `Flow`; Loop one round of handle_one and the guard of the
--   gauge. What a message meets by chance is a `Chance`. Effects and Rule carry facts through the stages;
--   the other children are named for what they prove.
-- PoolCore/Stratum: targets. MiningPool/SingleActive, Bech32: the wait for the only instance, on the list of
--   what its checks give, and the reading of the application's id.
-- PpsRate/Quorum: what the sampled Monero nodes agree on. Tally and Heights read the two hash maps of
--   crates/pps-rate/src/lib.rs as lists of entries.
-- CrossroadsOracle/Source: what a committee of nodes confirms of a block; Tips, Hashes and Fits have the
--   lemmas on the sorted tips, the votes and the numbers that are read.
-- CrossroadsOracle/Ssrf: which addresses are global; CrossroadsOracle/Server: oracle_info and sign_for, the
--   latter up to the report that is signed. Vetted has what the cache keeps.
-- Tests: runs on concrete data.
--
-- Loops: the wait for a confirmation makes `confirm_polls` polls after the first, the loops over entries
-- and ids are structural, and loops that wait recur on the list of what they read, so no fuel is chosen,
-- but for the 12 halvings that find the distance of doubles in PoolCore/Lua, which take any 64-bit number
-- below 2 ^ 53.
--
-- Parameters: the Monero wallet (`WalletRpc`, of which `IsReliable` states what the pool relies on), the
-- signature scheme (`Signer`), the decoding of hexadecimal texts and the RandomX hash, and
-- floating-point products (`Rates`). The operations of `f64`
-- are records without laws (`Floating`, and `Reals`, for which `IsArithmetic` names those that hold
-- up to rounding), CBOR values one too (`Cbor`). Not modelled: the connection to
-- the upstream pool, the rate itself, the oracle's signature and rate limits, the operator API, start-up, and all networking.
pub mod Common
pub mod MiningPool
pub mod PoolCore
pub mod PpsRate
pub mod CrossroadsOracle
pub mod Contracts
pub mod Accountant
pub mod VoucherSigner
pub mod RedemptionWatcher
pub mod StratumProxy
pub mod Tests
