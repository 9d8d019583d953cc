-- ===== src/Lib.antt =====
-- The ZKas solo stratum bridge: a server between mining rigs that speak stratum and two nodes, the
-- ZKas node and, in merged mining, a Kaspa node whose blocks the rigs solve. This library models
-- the parts that decide what a share is worth and what is sent to the nodes and to the rigs.
--
-- Parts and files. `MiningState` is bridge-src/bridge/src/mining_state.rs, the jobs that a
-- connection was given, in slots (`new`, `add_job`, `get_job`, `get_job_diff`, `latest_job`, the
-- setters; each field's mutex is taken once in a call). `Guard` holds the two memories of recent
-- submissions: `Guard.DuplicateSubmit` is DuplicateSubmitGuard of
-- bridge-src/bridge/src/share_handler.rs, and `Guard.BlockSubmit` is BlockSubmitGuard of
-- bridge-src/bridge/src/kaspaapi.rs. `Merged` is bridge-src/bridge/src/merged.rs: `Merged.Pending`
-- is MergedPending, `Merged.Branch` is coinbase_merkle_branch, and `Merged.FeeWindow` is
-- is_pool_fee_minute. `Chain` has the blocks as the bridge reads them, with calculate_target of
-- bridge-src/bridge/src/hasher.rs, committed_h_fc and assemble_aux_block. `Api` is the part of
-- kaspaapi.rs that a solved block goes through: merged_fc_target, claim_network_solution,
-- submit_merged_parent_if_solved and submit_block. `Submit` is handle_submit of share_handler.rs,
-- from the request to the reply: `Submit.Text` reads the job number and the nonce, `Submit.Walk`
-- is the loop over the jobs, `Submit.Settle` the branch for a solved block, and `Submit.Handle`
-- the whole. `Extranonce` is assign_extranonce_for_miner of
-- bridge-src/bridge/src/client_handler.rs. `AntiAbuse` is AntiAbuseGuard of
-- bridge-src/bridge/src/anti_abuse.rs, with the tickets of the connections. `Domain` has the
-- validators WorkerName::new and WalletAddress::new of bridge-src/crates/katpool-domain/src.
-- `Session` is the record of a connection, bridge-src/bridge/src/stratum_context.rs, with its
-- flags, times and names. `Vardiff` is the part of share_handler.rs that keeps the statistics of
-- the workers over their connections: `Vardiff.Difficulty` is vardiff_compute_next_diff and the
-- tick, and `Vardiff.Sessions` the handlers that connect, log in and disconnect. `Handshake` is
-- handle_subscribe and handle_authorize of bridge-src/bridge/src/default_client.rs, `Wallet` is
-- clean_wallet and parse_kas_payout of that file, and `Miner` the tests on the name of a rig's
-- program. `Rpc` is bridge-src/bridge/src/jsonrpc_event.rs with the messages that the bridge
-- sends. `Hasher` has the three forms of a job, of bridge-src/bridge/src/hasher.rs. `Jobs` is the
-- part of client_handler.rs that gives a connection its work: `Jobs.Handlers` is
-- send_immediate_job_to_client and the task of new_block_available, and `Jobs.Parent` is
-- new_parent_available with the gate of stratum_context.rs. `Clients` is the map of the
-- connections of client_handler.rs. `Listener` is what spawn_client_listener of
-- bridge-src/bridge/src/stratum_listener.rs makes of a connection's reads: the line buffer, its
-- bound, the messages, and the ends at a line of another protocol and at the rate of frames. In
-- `Rpc`, the two tables of method names stand apart, as in the source. `Text` has the operations
-- on texts. `Prelude` has the shared helpers: tests, lists, maps as association lists, and queues
-- of keys.
--
-- How they interact. handle_subscribe names the rig and gives it an extranonce; handle_authorize
-- cleans the wallet, moves the connection from one worker's statistics to another's, and answers.
-- handle_submit looks the job up in the connection's `MiningState`, asks the duplicate guard, and
-- tries the nonce on the job and on the jobs before it. A solved block goes to `Api`, which sends
-- the parent to the Kaspa node, claims the commitment in `MergedPending`, and sends the ZKas block
-- after marking it in the block guard. The outcome is then noted in the duplicate guard.
--
-- A job's task holds the lock of its connection from the template to the notification, so it is
-- one step, with the registration and the difficulty that send_immediate_job_to_client sees to
-- just before it takes the lock; a refresh of a parent asks the node without the lock and is two.
--
-- State is passed explicitly: an operation is a function from a state to a state and an answer. A
-- panic is `none`. A submission is modelled as running alone; what others do to the shared
-- memories between two submissions is a list of calls in the theorems about two of them.
--
-- Bounds and fuel. Numbers are natural numbers. The job counter is a 64-bit one and its overflow
-- is a panic; a nonce and a job number are refused from 2 ^ 64 on; the fee window's mixing wraps
-- at 2 ^ 64. An Instant is a number, and a difference of times stops at 0, as duration_since does.
-- The loop over the jobs has fuel 8, its own bound on attempts, and always ends within it. The
-- levels of the Merkle tree have the number of leaves as fuel, which is more than the depth. The
-- loop over the lines of a buffer has the buffer's length as fuel, one for each character; the
-- decimal text of a number has 20 digits at most, which is enough for 64 bits; and clean_wallet
-- has fuel for the one call that it makes of itself.
--
-- Parameters. The consensus library is the record `Chain.Consensus`: the proof of work, the
-- hashes, the commitment of a coinbase and the header with its proof. The nodes' answers are
-- `Api.Node`, for the time of one submission. Floating-point numbers are a type with an addition,
-- `Submit.Settle.Float`; in the anti-abuse guard they are `AntiAbuse.Bucket`, with the operations
-- of the token bucket and no law, and in `Vardiff` they are `Vardiff.Double`, whose laws a theorem
-- names where it needs them. The decoder of addresses is a Boolean test on texts, from_utf8_lossy
-- a function from bytes to text. The answers of the anti-abuse guard to the frames of a connection
-- are a function of their number, and so are those of a socket to its messages. `Jobs.Sender` has
-- the answers of the node to a request for a template, the serialisation of a header and the texts
-- of hashes; `Jobs.Parent.Parents` has the answers to a request for a parent. The validity of a
-- wallet and a worker as domain values is one flag of the connection, and the text that identifies
-- a submission is a function of the job and the nonce.
--
-- Not modelled: logs and Prometheus metrics (output only); the poll for a block's colour, which is
-- the effect `confirm_blue`; the failure of a reply to a rig that has gone; whether a request has
-- an identifier; the counters of found blocks, which the poll changes. Of the other parts of the
-- bridge, the watchdog for a first job, the dispatch of a message to its handler, and the end that
-- a handler makes of its connection, the PROXY header, the retries of a write, the configuration,
-- the other domain types and the template calls have no model here; set-up, tracing, the dashboard
-- and the CPU miner are glue and I/O.
pub mod Prelude
pub mod MiningState
pub mod Guard
pub mod Merged
pub mod Chain
pub mod Api
pub mod Submit
pub mod Extranonce
pub mod AntiAbuse
pub mod Domain
pub mod Text
pub mod Session
pub mod Vardiff
pub mod Rpc
pub mod Miner
pub mod Wallet
pub mod Handshake
pub mod Hasher
pub mod Jobs
pub mod Listener
pub mod Clients
