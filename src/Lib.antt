-- ===== src/Lib.antt =====
-- comlink is a Go library for replicated conversations: each replica multicasts messages that
-- carry a vector clock, and hands them to its application in causal order. This library models
-- the protocol core, psync, with the stores and trackers that it stands on, and proves what makes
-- them correct.
--
-- Parts and files, with the paths of the code:
-- Messages: the protobuf messages that psync reads (internal/pb/comlink/v1/comlink.pb.go).
-- Psync.Vector: psync/vector.go. Compare says what each comparison decides, Order what they are
--   together.
-- Psync.Membership: psync/membership.go. Slots is about the index and growth, Frozen about
--   freezing.
-- Psync.Graph: psync/graph.go, the context graph. Lookup, Insert, Invariant and Latest are about
--   what it stores, when, in what shape, and how its numbers run.
-- Psync.Stability: psync/stability.go. Acknowledged says what is stable, Waves bounds the
--   complete waves.
-- Psync.Mask: psync/mask.go. Synced is about its copy in storage.
-- Psync.Conversation: psync/conversation.go. Receive has handleEnvelope, deferEnvelope and
--   processNewlyAvailable; Send has handleSend, broadcastEnvelope and the two handlers of
--   requests, with Send.Retransmit about what they answer; Server has HandleCall, HandleCast,
--   handleReplay and the handlers of psync/restart.go. Causal, Send.Accepted, Server.Replayed,
--   Server.Steps and Server.Runs carry causal delivery from one envelope to whole runs.
-- Log: log/log.go and log/memory.go. Append and Truncate are its two changes.
-- Log.File: log/file.go, the log in a file. Frames reads frames back, History says what appends a
--   log stands for, Reopen is about opening after a crash, Writes and Cut about the changes,
--   Errors about files that are refused.
-- Frame: frame/frame.go, what the membership protocol sends inside the payload of an envelope.
--   RoundTrip reads it back.
-- Manager: membership/membership.go. A goroutine is a list of tasks, each of which is a part of a
--   method between two points at which others may run. VoteOut and VoteIn are
--   membership/voteout.go and membership/votein.go, Pump is the dispatch of a delivery and what
--   each task does, and Runs is a system of goroutines that interleave in any way. Elections says
--   what a vote must have behind it; Kept, Sections, Decisions, Joins and Tasks what each part
--   keeps; Later, Steps and Histories carry this to whole runs. Guards is about the answers of a
--   vote, and Trimming about the log.
-- Stable: stable/storage.go and stable/memory.go; the interface is what Psync.Mask takes as an
--   instance, in which a failed put may or may not have stored its value; Durable shows that the
--   memory store fulfils it.
-- Failure: failure/failure.go. Suspicion says whom a tick suspects, and Heard what ticks do to a
--   replica that was heard.
-- Trim: trim/trim.go. Frontier and Advance are about the safe frontier.
-- Order.Total: order/total.go, which emits complete waves. Drain says which ones, and that it
--   ends.
-- Order.Semantic: order/semorder.go, which applies operations of class 1 as soon as their
--   predecessors are applied, and the others wave by wave. Loop has its loops; Causal and Safety
--   are about the order of what is applied, Runs says that no step panics, and Ends, Loop.Fuel
--   and Returns that the loops end.
-- Common: shared names, lists, maps as association lists, and results. Tests: concrete inputs.
--
-- How the code corresponds. A Go map is an association list in which a key stands once; a loop
-- over a map goes over the list, so a statement about the result holds for the order of the list,
-- and the theorems do not depend on which order that is. uint64 values are natural numbers with
-- the wrap-around of additions written out. A nil pointer is `none`; a panic is `none` or a
-- constructor of its own. The genserver of a conversation runs one handler at a time, so a
-- handler is a function from state to state; the delivery channel is the list of what was pushed,
-- and the network the list of what was sent, in order. A run is a list of calls and incoming
-- frames, and nothing is assumed of the frames.
--
-- Fuel. handleEnvelope and processNewlyAvailable call one another; their model takes fuel, of
-- which one more than the number of deferred envelopes is enough, since each call on a deferred
-- envelope first removes it. A drain of waves takes more fuel than there are wave numbers from
-- the next one to the greatest, since a complete wave has messages. The scan of a log file takes
-- one more than the bytes behind the header, since a frame has 16 bytes at least. The eager loop
-- of the semantic order takes more than the envelopes that it visits, since each round but the
-- last executes one, and its loop over the waves more than the greatest wave, since each turn
-- goes to a later wave that has messages. The search for the next wave counts in 64 bits and ends
-- as long as the greatest wave is below 2^64-1. All other loops are structural.
--
-- Parameters. The log in a file takes the protobuf coding of envelopes and the checksum, and what
-- each system call did, as an argument; the frames take their coding with the law that it reads
-- back what it writes. The manager takes the clock's readings, and whether a send succeeds. The
-- semantic order takes its classifier, its sort and the order in which Go visits a map. The mask
-- takes protobuf coding and sorting as functions with their documented laws; the total order
-- takes its sort; the storage takes its laws from an interface.
--
-- Not modelled: the store on disk (stable/file.go) and the transports (I/O), generated code, the
-- channels beyond their order, metrics and configuration, and so far the manual clock, the
-- substrate and the cluster on top, and the example applications.
--
-- A limit of the run theorem: a replay of the log answers its envelopes to the caller, which
-- delivers them beside the genserver; so runs leave replays out, and a replay has a theorem of
-- its own.
pub mod Common
pub mod Messages
pub mod Psync
pub mod Log
pub mod Trim
pub mod Failure
pub mod Frame
pub mod Manager
pub mod Order
pub mod Stable
pub mod Tests
