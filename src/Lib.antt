-- ===== src/Lib.antt =====
-- Verification of Eggscrambler (anonbcast, masseyomura): an anonymous broadcast protocol whose
-- clients drive a state machine that is replicated by Raft.
--
-- StateMachine models anonbcast/statemachine.go and anonbcast/op.go. Types holds the data, Ops the
-- operations, Round the methods of RoundInfo (participantIndex, the counting loops), Handlers the
-- handlers join, start, message, encrypted, scrambled, decrypted, reveal and abort, each on the
-- current RoundInfo, and Machine the methods of StateMachine (Apply, GetRoundInfo, initRound, ...).
-- Order holds MayPrecede and GuaranteedNoEffect, CheckRep the assertions, Copy the deep copies, Run
-- the application of a log. A method that mutates its receiver returns the new value. A slice index
-- out of range is a panic, an outcome of its own. Round numbers in operations are integers; the
-- machine's own round is a natural number, as it starts at 0 and only grows. The overflow of a
-- 64-bit int is left out.
-- Apply and DeepCopy begin and end with checkRep, which does nothing unless the program runs with
-- DEBUG. Checked holds the two with these calls, for a program that runs with DEBUG or without. The
-- other modules take the two with the assertions off, all but Client/Aborter, which copies the state
-- with them, and the proofs in Debug.
-- The remaining modules below StateMachine hold proofs: Lists, Slots, Invariant, Monotone, Legal,
-- Assertions, Debug, History, Transitions, Oversized, Copied; Tests runs a round of two participants.
--
-- Crypto models anonbcast/crypto.go: Bytes the byte slices of messages and keys, Interface the
-- interface CommutativeCrypto as a record of operations and a record of the laws that the protocol
-- relies on; Layers holds proofs about several layers of encryption.
--
-- MasseyOmura models masseyomura/encrypt.go and the part of anonbcast/crypto.go above it: BigInt what
-- they use of math/big (natural numbers), Padding pad, unPad, PrepareMsg and ExtractMsg, Cipher
-- Encrypt and Decrypt, Messages masseyOmuraCrypto, which fills the interface. Powers holds proofs.
-- The loops of Bytes and BitLen run on fuel, the number itself, which is enough as each step divides
-- it by 256 or by 2. The primality of the modulus enters as Fermat's little theorem for it, a
-- hypothesis. Keys models
-- GenUserKey over the list of what the random source gives, and VerifySysKey, with GCD and
-- ModInverse of math/big; the fuel of gcd is one more than its second number, which each step makes
-- smaller. SysKeys models GenSysKey and newMasseyOmuraCrypto over the list of what rand.Prime gives.
-- Inverse, Generation and Verified hold proofs.
--
-- Queue models anonbcast/eliminationqueue.go: Compare the comparison of operations, Elimination the
-- methods of eliminationQueue, Usage the calls by submitOps in anonbcast/client.go. Order, Newest,
-- Submissions and Finished, which also lists the operations that were finished, hold proofs.
--
-- Client models steps of anonbcast/client.go: Steps the helpers prepare, abort, submit, encrypt,
-- scramble, decrypt and reveal, each as the operation that it adds to the queue; Phases the phases of
-- a round in which each client takes its step on the messages of the one before. Results models
-- sendRoundResult with all its checks, up to the channel that it sends on; LastUpdate
-- models anonbcast/laststatemachine.go. The shuffle, SHA-256 and random bytes are arguments.
-- Updates models readUpdates on updates of the state machine: a turn of its
-- loop takes the local variables and an update to new variables and the goroutines it starts. Aborter
-- models aborter, a turn of it at a given time. Peers models what a client knows of the servers:
-- updateLeader, the updates of the configuration in readUpdates, submitOp, and the loops of
-- anonbcast/clientconfigurationchange.go that ask one server after another (getMembership,
-- attemptProvisional, attemptAddRemove), each a number of calls with given answers: whether the client
-- is killed, and what its other routines do to the shared variables meanwhile, is an argument, the
-- record Surroundings. Membership
-- models the replies of anonbcast/serverconfigurationchange.go to them. Joining and Leaving model
-- BecomeActive and BecomeInactive with the loops inside of them, as the places where the goroutine
-- stands: what the calls return, that a time is over and what else happens to the client are events
-- in any order; Member holds what the two share, and Absent proofs. Commands models
-- Start, the operation of Kill, CreateResCh and DestroyResCh. Work
-- counts what is left to do in a round, and Accepted and Ending put the helpers and the handlers of
-- the state machine together: a turn is an operation of a client that its handler accepts. Verdicts,
-- Success, KeyLists, Turns, EncryptPhase, Rounds, Once, Completion, Timeouts and Polling hold proofs.
--
-- Server models anonbcast/server.go and anonbcast/respchannels.go: RespChannels the nested map of
-- channels, Core the methods of Server, where SubmitOp ends where it waits and a turn of applier takes
-- one message of Raft, and System the server with the calls that wait, as events in any order. What
-- Raft answers to Start is part of the event; that Raft commits a started command at the term and
-- index it gave is a hypothesis. A send that would block forever counts as a panic. Others, Settled,
-- Kept, Answers, Waits, Sends, Owed, Debts, Balance, Balanced, Chains and Updates hold proofs.
--
-- Raft puts a server and a Raft together. Interface is what anonbcast/server.go uses of the interface
-- Raft of libraft/raft.go, a record of operations and a record of the laws that the server relies on.
-- Node is a server with any Raft, where SubmitOp calls Start and applier takes the messages of Raft,
-- one step at a time; Trace, Promises, Whole, Quiet and Answered hold proofs about it. Mock models
-- mockraft/mockraft.go, whose goroutines send in any order, and fills the laws.
--
-- Together puts a client and the servers together: World is a client, whose submitOps takes an
-- operation, asks servers and finishes it when one of them has answered OK, and the servers that it
-- asks, each with its Raft, as a step relation. Kept and Finished hold proofs.
--
-- ElGamal models the package elgamal, which nothing else uses: Cipher its keys, GenUserKey, Encrypt and
-- Decrypt, Padding PrepareMsg, ExtractMsg and pad; ModInverse is that of MasseyOmura. SysKeys
-- models GenSysKey on fuel, a number of calls of the random source: it may draw forever. Layers holds
-- proofs.
--
-- Apps models the programs: Orderer resultOrderer of localconfessions/confessions.go, Confessions the
-- loop of main of confessions/confessions.go over the rounds, with what it sees and receives as
-- events, and Typed the texts that its users type. Placed, Ordered and Printed hold proofs.
--
-- Not modelled: logging and debug dumps, the network layers (network, labrpc, labgob), the Raft
-- implementation (not in this repository), the set-up of the programs.
pub mod Base
pub mod Client
pub mod Crypto
pub mod StateMachine
pub mod Queue
pub mod MasseyOmura
pub mod Server
pub mod ElGamal
pub mod Raft
pub mod Apps
pub mod Together
