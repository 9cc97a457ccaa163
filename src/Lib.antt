-- ===== src/Lib.antt =====
-- AVERLOCK's FCC extension (packages/fcc-extension): a server inside a TEE that keeps private guard
-- policies, and decides for an event on chain whether, and how much of its value, a guard protects.
--
-- The parts, and the files that model them:
-- - Uint256: parseUint256 and defaultZero of go/internal/extension/engine.go, over math/big's
--   SetString and String.
-- - Ethereum: what is taken from go-ethereum (Hash, packing of static ABI values, Keccak-256) as
--   the parameter Geth with its laws IsGeth; Words has big-endian words, Static a packing that
--   meets IsGeth.
-- - Text: strings.TrimSpace, on UTF-8.
-- - Decision: go/pkg/decision/codec.go (FCCDecision, Validate, Encode, Decode, ResultHash).
-- - Policy: the policy of engine.go and go/pkg/types/types.go (normalizePolicy, policyCommitment,
--   evaluationResultHash).
-- - Store: the interface stateStore of go/internal/extension/state_store.go. Go passes pointers, so
--   a heap holds the states and a store hands out and keeps pointers. Memory is memoryStore. Redis
--   is redisStore with its sealed envelope, Resp the wire format that redisStore.doConn writes and
--   reads, and Config stateStoreFromEnv with its parsers.
-- - Snapshot: go/internal/extension/consumption.go (guardManagerReader).
-- - Guard: go/internal/extension/extension.go. State has the struct Extension, the messages and
--   buildResult; Create is processCreatePolicy; Evaluate is processEvaluateGuard; Dispatch has
--   processAction, processGuard, stateHandler and readyHandler; Decryptor is
--   go/internal/extension/decryptor.go. Each handler has a module of cases beside it. Trigger and
--   Response are about parts of an evaluation, Outcome, Created and Counters about one action,
--   History and Sound about what sequences of actions keep, Replay and Guarantees about what a
--   client sees. Ledger is an abstract ledger of rules and their decisions, without heap, store or
--   pointers, and Ledger/Refines compares the server on the memory store with it.
-- - Tools: the deployment tools under tools/pkg. Report is validate/report.go, with
--   Report/Json for its JSON form; Registration is fccutils/registration.go (RegisterNode and its
--   resume file), Consistency fccutils/policy_consistency.go, Governance fccutils/governance.go, and
--   Polling pollActionResult of fccutils/tee_calls.go. What the chain, the proxies and the file system
--   answer is a parameter.
-- - Validate: tools/pkg/validate/checks.go and validate.go with tools/cmd/verify-deploy, the
--   checks of a deployment. Addresses, Deploy, Register, Version, Machine and Services have the checks of its steps (each
--   check appends results to the report), EnvFile parses extension.env, and Verify is the command.
-- - Signer: tools/pkg/signer/signer.go, the key that signs the tools' transactions, with the list of
--   the secrets that are overwritten. Signer/Proxy is proxy/keystore/keystore.go.
-- - Live: tools/cmd/run-test, the test of a live deployment. Machines has the checks of the TEE and
--   retireStaleMachines, Answers the reading of a signed result and of the GuardManager contract,
--   Evaluation evaluateExistingSnapshot and sendEvaluation, Restore restoreExistingPolicy, Scenario
--   the scenario of main, and Main its choice of a mode. Accepts and Commitment set it beside the
--   server that it tests.
--
-- An action goes from processAction to one of the two handlers, which call the decryptor or the
-- snapshot reader (the record Calls, one for each action), the policy engine, the store and the
-- codec. The handlers hold a mutex while they read and write the state, so a history of the server
-- is a list of actions, and `run` is its effect. What a theorem says of a store is the interface
-- IsStore (Load leaves existing objects alone) or IsKeeper (it keeps a property of states).
--
-- Numbers are ℕ: a uint64 sum is written with `% 2 ^ 64` where the code adds (add64), a `*big.Int`
-- of a decision is an optional integer, one of a policy or an authorization is a number, since
-- these come from parseUint256 and from an unsigned word. The counters are ints that count actions,
-- below 2 ^ 63. A Go map is an association list in which an insertion replaces the entry. Recursion
-- is on lists of bytes or digits; `digits` has fuel one above the number that it prints, which is
-- enough (RoundTrip).
--
-- Parameters: encoding/json and encoding/gob (Json, Gob), AES-GCM, base64, URL parsing, the network
-- and the random source (Platform), the tee-node's parsing of a message (TeeNode), the answers of
-- the RPC node. The panic of make at the length of a Redis reply is the error make_panics; in the
-- source it ends the request, and leaves the mutex locked if that is a creation. Not modelled: the texts of errors (each is a constructor), logging, the HTTP server
-- around the handlers, the call data of the snapshot reader's two contract calls, config's init, the
-- readiness script of run-test, the other tools, the rest of the proxy, and the programs in other
-- languages.
pub mod Decision
pub mod Ethereum
pub mod Guard
pub mod Live
pub mod Policy
pub mod Prelude
pub mod Signer
pub mod Snapshot
pub mod Store
pub mod Text
pub mod Tools
pub mod Uint256
pub mod Validate
