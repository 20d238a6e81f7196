-- ===== src/Lib.antt =====
-- Verification of the services of UNIFIED: the double-entry ledger, the calculations of the risk
-- engine and the coordination of payments and cross-chain messages.
--
-- Base: shared names, integers (`big.Int`), maps, errors, times. Decimal: the decimal texts of
-- integers, `SetString(s, 10)` and `String()` of math/big.
--
-- Ledger models services/foundation-ledger/internal/ledger/ledger.go. A ledger is a record of its
-- three maps; Post, PostBatch, Get, List and Reverse are `post`, `post_batch`, `get`, `list` and
-- `reverse`, and `validate` is the first half of validateAndHash. A method takes the time of the
-- clock and the ledger, and gives its result with the ledger after it. The content hash (SHA-256
-- of the JSON) is the parameter `hash`, of which nothing is assumed. Ledger/Types has the data,
-- Ledger/Totals and Balance what validation means, Invariant the invariant, Posting, Batch and
-- Reversal the methods, Accounts what a list of journals does to an account.
--
-- Calculation models services/risk-engine/internal/calculation/interest.go, with Rates on its
-- promises; Calculation/Schedule models schedule.go, with Rounds, Rest and Conservation on the
-- loop of Generate; Calculation/Power models rayPower and annuityPayment. The loop of rayPower
-- runs on the exponent as fuel, which is enough since each round halves it (ray_power_fuel).
-- uint32 and uint64 sums of the schedule wrap around as in Go.
--
-- Underwriting models services/risk-engine/internal/underwriting/engine.go: `new`, `decide` and
-- authenticated_features, with Approval on what an approval promises. The SHA-256 root of the
-- evidence is a parameter; it is taken over the sorted evidence.
--
-- AllocationMode models services/payment-orchestrator/allocationmode/registry.go over the memory
-- store of store.go: Types, Store and Claims hold the data and the claiming methods, the module
-- itself the transitions, reversals and restores. Steps says what a call may do to the latch,
-- Latch and Reversing that each call does only that, Invariant and Runs what follows for any
-- sequence of calls. A callback is the error text it answers with, or none.
--
-- Allocation models services/payment-orchestrator/allocation/allocation.go on top of it: `allocate`
-- calls `claim_mode` of the latch, as Allocate calls ClaimMode. Types and Checks hold the data and
-- the validations, Waterfall, Failures and Release what Allocate and ReleaseEligible promise. The two
-- SHA-256 digests and the accounting are parameters.
--
-- Payment models services/payment-orchestrator/payment/payment.go. An `Orchestrator` holds the maps
-- and lists of the Go type; the module itself has ResolveCanonicalReversal and ResolveQuarantine,
-- Payment/Types its data, Checks its validations, Consumptions the refresh of consumed reversals,
-- Records what a callback writes and the codec, Callbacks IngestCallback in the parts receive,
-- authenticate, take_callback, move_payment, reverse_payment and advance_payment, Opening New,
-- RestorePayment and CreateIntent. The accounting and the coordinator of canonical settlements are
-- the record `Services` over a state of their own that each call threads through; the coordinator
-- runs the callback it is given on that state. Ed25519, SHA-256 and encoding/json are the record
-- `Codec`. The consumed reversals of a payment are visited in the order in which they came, where Go
-- visits them in any. Moves says what a call may do to a payment, Reaction, Effects, Resolutions and
-- Creation that each call does only that, History and Lives what follows for sequences of calls,
-- Growth, Persistence, Standing and Intake what they leave alone. Events, Replays, Answered and
-- Repeats are about a callback that comes again, Recreation about an intent that does, Rejections
-- about a callback that is not signed, and Outcomes about one that is due and about its encoding.
-- `receive` is IngestCallback after the refresh of the consumptions, `ingest_callback` all of it.
-- The dispositions of the coordinator are the ones that Go names; any other text is left out, and
-- that a callback was committed is what the coordinator says of it.
-- The local coordinator (local_reversal_coordinator.go) and the getters of lists are left out.
--
-- PaymentAccounting models the Poster of
-- services/foundation-ledger/internal/paymentaccounting/accounting.go, which is the accounting of the
-- payments: `apply` is Apply, with `plan` its switch on the status, on top of `post_batch` of Ledger
-- and the transitions of Payment. Journals is about sequences of transitions, Acceptance and
-- Unwinding about the journals, Ingress about the payment ingress with the poster behind it, by what
-- Payment/Keeping and Payment/Accounts say of any accounting. The Reconciler of that file is left out.
--
-- AllocationAccounting models services/foundation-ledger/internal/allocationaccounting/accounting.go,
-- the accounting of Allocation: `apply_allocation` and `reverse_allocation`. Acceptance is about its
-- journals, Booking about the journals of what the engine allocates.
--
-- LoanAccounting models services/foundation-ledger/internal/loanaccounting/accounting.go: PostActivation,
-- PostPrincipalRepayment and PostLiquidationSettlement are `post_activation`,
-- `post_principal_repayment` and `post_liquidation_settlement` over the ledger, which is all that the
-- service holds. Acceptance is about the journals of a liquidation.
--
-- Message models the kernel of services/cross-chain-coordinator/message/registry.go: `execute` is
-- Execute, in the parts execute_serialized, attempt, expire, admit and finish; Message/States is
-- the transition policy CanTransition with its reachability. The checks and the bytes of an
-- envelope (digest.go) and the handler are parameters. Message/Runs and Message/Order are about
-- sequences of calls and the order of a lane. The clock is an argument.
--
-- Not modelled: SQL stores, HTTP servers, signing and JSON-RPC, generated protobuf code, and the
-- Solidity contracts. Times are instants without location; error texts are dropped, their
-- sentinels kept; mutexes make each method one step, and copies of slices are values.
pub mod Base
pub mod Decimal
pub mod Ledger
pub mod Calculation
pub mod Allocation
pub mod AllocationAccounting
pub mod AllocationMode
pub mod LoanAccounting
pub mod Message
pub mod Payment
pub mod PaymentAccounting
pub mod Underwriting
