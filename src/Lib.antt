-- ===== src/Lib.antt =====
-- setrixdb: a verification library for the engine of SetrixDB, an index of sets of 64-bit IDs.
--
-- The program's core is the package internal/addb: shards of IDs, which are searched by a branchless
-- scan on several workers or by binary search; sorted slices of IDs, which are intersected by a merge;
-- bitsets, whose intersection is counted by a population count; a flat storage of synonyms; a hash
-- of strings; and a ring that routes IDs to nodes. Below it, internal/simd holds the kernels in portable
-- form. The package setrixdb at the root wraps the sorted slices as the type Set, with its algebra and
-- its file format. Three programs stand on it: cmd/setrixdb-capi hands out sets to C by number,
-- cmd/setrixdb-server keeps sets under names, in memory and in files, and answers questions about them
-- over HTTP, and cmd/setrixdb is the command line on set files and on files of terms.
--
-- internal/mphf builds a perfect hash of a set of keys; the root wraps it as the type Index, and as the
-- type Keyer, which gives terms their IDs: it hashes each term, makes the hashes different by a chain of
-- candidates, and compares the term after the lookup. internal/cluster cuts the words of bitsets among
-- nodes, which hold them under names and count intersections for a coordinator; its sharded form assigns
-- ranges of words to nodes by the ring.
--
-- Which file models what:
--   Base, Base/*      lists, tests, digits of a number, 64-bit words, lists of IDs: no code
--   Std/Sort          sort.Slice on a []uint64
--   Std/Search        sort.Search, the bisection of the standard library
--   Std/Endian        encoding/binary, in both orders of the bytes
--   Std/Utf8          range over a string: its runes and their offsets
--   Std/Fnv           hash/fnv: the 64-bit FNV-1a sum
--   Std/Strings       strings: HasPrefix, TrimPrefix, HasSuffix, TrimSuffix, Contains, FieldsFunc
--   Std/Scanner       bufio.Scanner by lines, and strings.TrimSpace
--   Std/Strconv       strconv: ParseUint and FormatUint in base ten
--   Std/Bits          math/bits: OnesCount64, TrailingZeros64, Len32
--   Addb/Kernel       internal/addb/search.go: Shard, Contains, ParallelSearchEngine, mergeUnique
--   Addb/SetOps       internal/addb/setops.go: SortShard, ContainsSorted, SearchSortedBatch,
--                     IntersectSorted, IntersectMany
--   Addb/Agreement    internal/addb/search.go and setops.go: the two batch searches
--   Addb/Sparse       internal/addb/sparseset.go: SparseSet
--   Addb/Bitset       internal/addb/bitset.go: Bitset; internal/simd/simd_generic.go: AndPopcount
--   Addb/Extract      internal/addb/extract.go and internal/simd/extract_generic.go: ExtractSet
--   Addb/Sharded      internal/addb/shard.go: ShardedBitset
--   Addb/Ring         internal/addb/ring.go: Ring
--   Addb/Hash         internal/addb/hash.go: ComputeDeterministicID
--   Addb/Synonyms     internal/addb/synonyms.go: FlatSynonymStorage
--   IdSet             setrixdb.go: Set (Add, Has, Len, IDs), Intersect, Union, Filter
--   Persist           persist.go: WriteFile, ReadFile
--   Mphf              internal/mphf/mphf.go: CHD, Lookup, rank
--   Mphf/Build        internal/mphf/mphf.go: BuildOpts, placeAll, packG, buildRank; below it, what they
--                     leave: Buckets (the grouping), Place (the slots), Pack, Rank, Perfect, Correct
--   Index             setrixdb.go: Index
--   Keyer             keyer.go: Keyer; below it Terms (the vocabulary), Chain (the candidates),
--                     Placing (the term of each ID), Probes, Exact, Hashed, Built, Sets
--   Cluster           internal/cluster/cluster.go: the messages, andCount, Node
--   Cluster/Coordinator
--                     internal/cluster/cluster.go: Dial, LoadSet, gather, IntersectStored, IntersectQuery
--   Cluster/Sharded   internal/cluster/sharded.go: ShardedCluster; below it Slices, Intersect, Loading
--   Capi              cmd/setrixdb-capi/main.go: the registry of sets behind the C interface
--   Server            cmd/setrixdb-server/main.go; below it Maps (the map of sets), Request (requests, answers
--                     and bodies), Disk (the store and its files), Routes and Handler (handle); Catalog
--                     (what the server promises), Meaning, Asking and Saying (what a body and a request say),
--                     Keeping, Steps, Fixed, Refusals and Runs (that it keeps its promise), Storable, Files, Plain,
--                     Loading and Restart (the files), Answers, Changing, Combining and Text (the answers)
--   Command           cmd/setrixdb/main.go; below it Lines (readIDs, readTerms), Sets (normalize, humanBytes, the
--                     commands on set files), Terms (the commands on terms, bench), and what they do: Reading,
--                     Units, Answers, Intersecting, Vocabulary, Bench
--   Examples/*, and Examples below Mphf/Build, Keyer, Cluster and Cluster/Sharded
--                     the theorems at concrete inputs
--
-- How the code is read. A uint64 is a natural number; where the code may wrap around, the model writes
-- `% 2 ^ 64`. An int64 counter is its bit pattern. A slice is a list; an assignment to an element is a
-- write in the list, and an append is an append at the end. A method with a pointer receiver takes the
-- state and returns the new one. A Set is passed by value: a call that finalizes a set returns it
-- finalized, and finalizing twice is finalizing once, so two arguments that are the same set give the
-- same result as two copies of it. An index out of range, a division by zero or a slice expression out
-- of range, on which Go panics, is an outcome of its own where the code can meet it.
--
-- Loops. A loop over a slice is recursion on the list, or on the number of rounds left, which the code
-- fixes before it starts. Four loops take fuel: sort.Search, whose interval of length n shortens in each
-- round, so that n rounds are enough; the loop of the portable ExtractSet, which clears one digit of a 64-bit
-- word in each round, so that 64 rounds are enough; the loop of humanBytes, which divides an int64 by 1000 in
-- each round, so that six rounds are enough; and the loop of a node over what it is sent, with as
-- much fuel as there are bytes, of which every message takes four at least. The 2 ^ 24 - 1 displacements and
-- the 1024 seeds of the perfect hash, and the 17 keys that a term may try, are bounds of the code's own, past
-- which it reports an error. The theorems about them are about the
-- result, and none assumes that the loop ends.
--
-- Goroutines. The workers of ParallelSearchEngine write to slots of their own, and those of
-- IntersectCount add to a total under a lock, so a run is fixed by the order in which the workers come
-- to their write: a parameter `schedule`, of which a theorem assumes that it rearranges the list of the
-- workers. GOMAXPROCS is a parameter.
--
-- A Go map is a function from its keys, or where the code goes over it, the list of its entries; the
-- order in which Go visits them does not matter there, since the code sorts what it collects; the
-- connections of the sharded cluster stand in any order.
--
-- The calls of the C interface are taken one after another: the lock there guards the map of handles,
-- not the sets. The memory behind a pointer is a list. What a call of the registry's client sees is
-- compared with an abstract store, which keeps the lists of the IDs as they were added.
--
-- The server. A request is what net/http hands to the handler; requests are taken one after another: the
-- lock there guards the map, not the sets. A set that a request finalizes is put back into the map, which
-- holds the pointer. encoding/json is the parameter Json: what a body decodes to, where numbers of
-- a []uint64 fit in 64 bits and take a byte each. The calls of os that a request makes are the parameter
-- System: each may fail, and a failed write touches its own file only. A file is known by its path, which
-- filepath.Join has cleaned (Std/FilePath; symbolic links are left out), and what a restart reads is a
-- listing of the directory of the data. An answer is its status
-- and the value that is encoded.
--
-- The command line. A file is what its path holds, as bytes, or nothing where it cannot be opened; a line
-- of 64 MiB or more is an error of the scanner. What a command prints is a value, and the values of package
-- flag are parameters.
--
-- The file system is a parameter, the record FileSystem: every call may fail, and where none does the
-- file holds what was written, in order.
--
-- The perfect hash. The numbers of buckets and slots come from floating point, and the buckets are visited
-- in an order that sort.Slice leaves: both are the parameter Sizes, of which the theorems assume that it
-- rearranges, that there are at most as many buckets as keys, and at most twice as many slots.
--
-- The cluster. A connection is the bytes sent on it; a node that cannot be reached gives an error. Every
-- goroutine of gather has a connection and a slot of its own, so they are taken one after another. A read
-- of an answer that never comes is an error in the model, where the program waits.
--
-- Not modelled: the cgo kernels (internal/simd/simd_cgo.go, extract_cgo.go and the C code), unsafe
-- pointers (UnsafePtr), floating-point figures (BitsPerKey, the decimals of humanBytes), the opening and
-- closing of sockets (Listen, Close), and the listing of a ring's nodes (Nodes in internal/addb/ring.go).
-- Of the server: reading flags and listening (main), what is logged, and requests that run at the same
-- time. Of the command line: main, which picks the command and sets the exit code, package flag, and the
-- measuring of time. Of the other commands under cmd and of examples, nothing: they are demonstrations and
-- benchmarks, which time the engine and print.
pub mod Base
pub mod Std
pub mod Addb
pub mod IdSet
pub mod Persist
pub mod Mphf
pub mod Index
pub mod Keyer
pub mod Cluster
pub mod Capi
pub mod Server
pub mod Command
pub mod Examples
