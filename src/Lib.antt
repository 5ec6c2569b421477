-- ===== src/Lib.antt =====
-- A verification library for goProbe, a network probe that aggregates packets into flows, stores them in
-- a columnar database and answers queries on it.
--
-- The parts of the program that are modelled, and where:
--
--   pkg/types/types.go, keyval.go              Types: Widths, Key, ExtendedKey, Counters, IpVersion
--   pkg/types/direction.go                     Types: Direction
--   pkg/results/sort.go, result.go             Results: Sort, Rows, Merge
--   pkg/goDB/conditions/tokenize.go            Condition: Tokenizer
--   pkg/goDB/conditions/node                   Condition: Node, Parser, Direction,
--                                              Desugar, Normal, Values, Instrument, Pipeline
--   pkg/capture/capturetypes/packet.go         Capture: EpHash, Classify
--   pkg/capture/flow.go                        Capture: Packet, Flow, FlowLog
--   pkg/capture/buffer.go                      Capture: Buffer
--   pkg/capture/capture.go                     Capture: Process
--   pkg/types/hashmap                          Hashmap: Slots, Table, Growth, Access, Iterator,
--                                              Merge, Meta, Aggregate
--   pkg/goDB/storage/storage.go                Storage: Blocks
--   pkg/goDB/storage/gpfile/gpdir.go           Storage: Metadata, Directory
--   pkg/goDB/storage/gpfile/gpfile.go          Storage: Files
--
-- A key is the 5-tuple of a flow in one byte slice; conditions read it, the flow log writes it. A
-- condition of a query is parsed to a tree of comparisons; its direction filter, a condition on the
-- counters, is split off, and the rest is desugared, brought into negation normal form and
-- instrumented with one closure for each comparison (`ParseAndInstrument` of node.go), and the closures
-- are then evaluated on the key of each flow.
--
-- How code corresponds to definitions: a Go function `PutAllV4` is `put_all_v4` in the module of its
-- receiver. A byte slice is a list of numbers whose capacity is its length, which holds for every key
-- that `make` allocates; a method that writes to its receiver returns the new slice. A run-time panic
-- is `none`, or `panic` where the code returns errors too. Errors keep their kind, not their text. A
-- uint64 is a number below 2 ^ 64 with the wrap-around written out, an int64 its bit pattern.
--
-- A captured packet is parsed to an endpoint hash and added to the flow of its conversation; at the end
-- of an interval the flow log is rotated into an aggregation map, which its modules know by the record
-- of operations and laws `Capture.FlowLog.Rotate.AggFlowMap`. The flow log, a Go map, is an association
-- list in the order in which a loop visits it. Loops over lists recurse on the
-- list. The parser recurses on fuel, one more than the number of tokens both for the nesting and for
-- the operands of a chain: each nesting and each operand takes a token.
--
-- `Hashmap.Filled.hash_maps` fills that record with the hash maps of the program. A bucket with the
-- overflow buckets behind it is one list of slots, eight for each bucket; while a table grows, the old
-- buckets stand beside the new ones and each write evacuates two of them. A mask is a remainder, since the
-- number of buckets is a power of two (a field of the invariant `Hashmap.Valid.IsTable`). Set and
-- SetOrUpdate begin anew after the table has grown: they recurse on fuel, three more than the number of
-- entries, and each round makes the table larger. The hash function xxh3.HashSeed and the seeds are
-- parameters. The counts of buckets and overflow buckets are taken to stay below 2 ^ 32; where an
-- overflow bucket and a key lie in memory is not modelled, only the length and the fill of the key data.
-- A loop over an iterator is given fuel too, one for each entry and one for its end, while Next itself
-- has as much as the round over the buckets takes. The two maps of Merge are different ones, and the map
-- of an iterator does not change meanwhile.
--
-- While the lock of a capture is held, its packet loop keeps packets in a local buffer, a byte slice that
-- doubles up to a limit, and adds them to the flow log at the lock's release. The loop is a function of
-- the events that it meets: the goroutines meet only in the channels of the lock, which the events stand
-- for. The flows of an interval become a block in each column of a directory of the database; the
-- metadata of the directory list the blocks of its eight columns and are written to one file. Writing
-- and reading of byte slices goes field by field (Common: Writer, Reader).
--
-- The scanner that the tokenizer reads with is a parameter, known by the tokens that it gives for a text
-- shorter than its buffer; for these the recursion is on fuel, the number of the bytes: each token takes
-- one at least. The tokenizer returns texts of bytes, and the parser takes tokens as strings. The regular
-- expressions that rewrite a condition before are not modelled. A column file that is read has its
-- position and the one that the last read is taken to have left (Storage: Files, FileReader).
--
-- What is not code of the repository is a parameter: net.ParseIP and the generated table of protocol
-- names in `Condition.Values.Platform`, the capture library's constant for outgoing packets and its
-- method `Type` of an IP layer as arguments, the slices of the memory pools as arguments that hold
-- anything, the encoders in `Storage.Files.Encoders`, the scanner of the standard library in
-- `Condition.Tokenizer.Scanner`, the page size and the limit of the local buffer in
-- `Capture.Buffer.Limits`. IP addresses, strings and times of result rows are known by their orders
-- (`Results.Rows.Order`), and the sort orders know rows by `Results.Sort.Rows`, which
-- `Results.Rows.row_interface` fills. The resolution of host names (resolve.go) asks the network and is
-- not modelled, nor are the errors of the file system, the compression libraries, the capture of packets
-- from an interface, the command line tools and the HTTP interfaces.
pub mod Common
pub mod Capture
pub mod Condition
pub mod Hashmap
pub mod Results
pub mod Storage
pub mod Types
pub mod Tests
