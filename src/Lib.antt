-- ===== src/Lib.antt =====
-- The Go SDK of Soqucoin: the parts of it that decide whether a coin is spent twice, whether a
-- withdrawal is paid twice, what a transaction pays and signs, and which deposits are credited, as definitions translated from the Go code, and what holds of them.
--
-- The program. A withdrawal is an `Intent` that `withdraw/engine.go` drives through Created, Built,
-- Broadcast and Confirmed or Failed. The engine keeps each record in a store (`withdraw/store.go`) and
-- reserves the inputs of each transaction in the spent set (`utxo/selector.go`), and both write their
-- files by `internal/atomicfile`. Around it, `resilience/circuit_breaker.go` stops a caller whose
-- operations keep failing, and `electrumx/refreshpolicy.go`, driven by the loop of
-- `electrumx/subscribe.go`, decides when a client refreshes, waits and reconnects. A withdrawal's
-- transaction is built, signed and verified by `tx`, which reads the script of an output from its address
-- by `address`. `deposit/monitor.go` credits incoming payments on the node's word.
--
-- The files.
--   Prelude, Map: shared names, and Go's map as a list of entries where the first of a key counts.
--   Errors: an `error` is the list of the sentinels that `errors.Is` finds in it; nil is `none`.
--   Types: types.UTXO and utxo.SpentKey.
--   AtomicFile: WriteFile, with the answer of each system call as an argument.
--   SpentSet, SpentSet/Reserving, SpentSet/Methods: utxo.SpentSet, a method as a function from the set
--     to the set and the error.
--   Amount: types.ParseSOQ, on the bytes of the text.
--   CoinSelector: utxo.CoinSelector, with a sum of values as the 64 bits of an int64. Finding is about
--     the selection of an amount, Smallest about a consolidation.
--   Withdraw/Intent, Withdraw/Store: the record of a withdrawal, MemStore and FileStore.
--   Withdraw/Engine: the engine. Building has Submit and Build, Sending has Broadcast and Rebroadcast,
--     Settling has UpdateConfirmations and Abandon, Driving has Process and Recover.
--   Withdraw/Evolution: how records may change, that each transition respects it, and histories;
--     Verdicts has what each transition leaves and on what grounds, and Process and Recover.
--   Text, Address: Go's strings as code points, and address/bech32m.go on them.
--   Result: Go's pair of a value and an error.
--   Tx: tx/builder.go. Wire is its serialization, with a reader of the format in Wire/Reader that is
--     independent of it; Build the functions that build a transaction; Sign its signing, and the
--     verification of tx/verify.go.
--   Deposit: deposit/monitor.go, a pass as a function of a world that each call to the outside may change;
--     Deposit/Outputs has verifyWithNode and the loops of Scan, Deposit/Scan recheckPending and Scan;
--     Deposit/Calls has the calls that lead from one such world to another.
--   Breaker: resilience.CircuitBreaker.
--   RefreshPolicy, RefreshPolicy/Loop: refreshPolicy, and the loop of Client.run.
--
-- How it is modelled. A method that changes an object returns the changed record. What comes from the
-- outside is an argument, one for each question that the code asks: the time that a clock reads, how a
-- write of a file ended, what the node, the selector and the signer answered, whether the context had
-- ended. A transition of the engine holds its lock throughout, so it is one step, and concurrency is
-- the order of the steps; a history may interleave the calls of any number of callers, and changes of
-- the spent set by others; a pass of the deposit monitor holds its lock as well. Each loop of the modelled
-- code goes through a list or handles one event, but for one inside convertBits, whose fuel is the number
-- of bits that it starts with: each round takes some of them off. Amounts, times and counters are natural
-- numbers. The sum of a selection, a fee and an unchecked sum of the transaction builder wrap as an int64
-- does; other arithmetic is the addition of durations to times, counting, comparison, the depth of an
-- output and the doubling of a wait that stays under a minute, far from any bound of a machine
-- word. In the engine and the spent set, the comparison of addresses without case, strings.EqualFold, and
-- the validation of an address are parameters. An error's text is not modelled; `LastError` holds the error that it prints.
--
-- Not modelled: logging; the JSON of the files; the rpc and electrumx clients; the key store; the reconciler and the
-- alerts; the examples and scripts. SHA-256 and ML-DSA are parameters.
pub mod Prelude
pub mod Map
pub mod Errors
pub mod Result
pub mod Text
pub mod Types
pub mod AtomicFile
pub mod SpentSet
pub mod Amount
pub mod CoinSelector
pub mod Address
pub mod Tx
pub mod Deposit
pub mod Withdraw
pub mod Breaker
pub mod RefreshPolicy
