-- ===== src/Lib.antt =====
-- Logrange keeps log events in partitions (journals of chunks, each a list of records) and finds
-- them by time. The parts modelled here:
--
--   Container/RingBuffer  pkg/container/ring_buffer.go: NewRingBuffer, At, Set, Push and the other
--                         methods, each under its name. Panics are `none`.
--   Container/Timeseries  pkg/container/timeseries.go: the sum of a value over a sliding window.
--   Tmindex/Block         pkg/tmindex/ckindex.go: one block of the time index. A chunk has an index
--                         of points, a point being a timestamp and a position in the chunk;
--                         `add_interval_0` is addInterval on a block of level 0.
--   Tmindex/Tree          pkg/tmindex/ckindex.go: the queries grEq, less, count and traversal on the
--                         tree of blocks. They take fuel; more fuel than the tree has levels is
--                         enough. The block storage (package bstorage, of another repository) is the
--                         function `read`.
--   Model/Iterator        pkg/model/iterator.go, logevent.go: the interface Iterator, and IsIterator,
--                         what an implementation promises of a list of events to come.
--   Model/Field           pkg/model/field/field.go: the fields of an event in one string of bytes.
--   Model/Mixer           pkg/model/mixer.go: Mixer over two iterators with these promises.
--   Cursor/Fiterator      pkg/cursor/fiterator.go: the filter over such an iterator; its Get takes
--                         fuel, and more fuel than events to come is enough. The compiled condition
--                         of the query (package lql) is a parameter.
--   Partition/Selector    pkg/partition/cselector.go: getPosForward and getPosBackward, by which a
--                         reader of a partition moves to the next position in a range of times.
--                         Positions come from the time index (TsIndexer), a record of functions with
--                         the laws `Serves`, which say from which time on its answers bound the
--                         records; Tmindex/Tree/Sound is where such bounds are shown of the tree. A loop over the chunks takes as many rounds as chunks are left.
--   Cursor/Mixing         pkg/cursor/cursor.go, newCursor: the iterators of several partitions are mixed
--                         in pairs (Model/Mixer) until one is left; as many rounds as iterators are
--                         enough.
--   Cursor/Positions      pkg/cursor/cursor.go: collectPos, applyPos, applyStatePos, applyCornerPos and
--                         ApplyState. The text of one position (journal.Pos, of another repository) is
--                         a parameter.
--   Partition/Truncate    pkg/partition/partition.go, truncate: which chunks of one partition go. The
--                         journal (of another repository) is the record `Journals`.
--   Partition/Service     pkg/partition/partition.go: deleteJournal and truncateGlobally over the index
--                         of Tindex/Inmem; the folders given to os.RemoveAll are noted. Service/Visit is
--                         Truncate, its visitor and what it reports.
--   Partition/Listing     pkg/partition/partition.go: Partitions, GetJournals, GetJournal and the loop
--                         of GetParitionInfo. Partition/Ordered is the insertion by sort.Search. Offset
--                         and limit are integers of 64 bits.
--   Partition/Iwrapper    pkg/partition/iwrapper.go: the events of a write as records, with the span of
--                         their times; Iwrapper/Span.
--   Partition/Rebuilder   pkg/partition/tmirebuilder.go: RebuildIndex and the workers; Rebuilder/Steps
--                         is how they interleave. A worker alone takes a round for each chunk at most.
--   Tmindex/Access        pkg/tmindex/ckindex.go: acquireRead, releaseRead, Close, execExclusively as
--                         steps on the counter and the state that they keep under the lock.
--   Tmindex/Cindex        pkg/tmindex/cindex.go: the chunks of each partition with their spans of time
--                         (apply and findChunkIdx on slices ordered by ids, onWrite, rebuildIndex,
--                         syncChunks, the queries). The index files (ckictrlr.go) are the record
--                         `Ctrlr`, whose queries Cindex/Trees has from Tmindex/Tree. Cindex/Queries
--                         shows that the index is a TsIndexer with the laws `Serves` that the selector
--                         takes, for the times later than the one asked for.
--   Lql                   pkg/lql/whereeval.go, tagseval.go: conditions compiled to functions. The
--                         types of expressions and what the two files have in common are in Lql/Conds,
--                         the texts in Lql/Strings. The mapping of cases and path.Match of Go, and
--                         parseLqlDateTime (pkg/lql/datetime.go), are parameters.
--   Tindex/Inmem          pkg/tindex/inmem.go: the partitions by their tags, with counted shared and
--                         exclusive locks; the clients' calls are steps in any order.
--   Utils/Kvstring        pkg/utils/kvstring/kvstring.go: SplitString.
--   Prelude/Assoc         association lists with the laws of Go's maps.
--   Prelude               lists and integers over native numbers, and Prelude/Bisect, the binary
--                         search loop that the index writes out in its methods.
--
-- Not modelled: the file and network code, the insertion into blocks of higher levels of the index,
-- the index files, the parsers, the provider of cursors, Write of the partitions (but for its
-- iterator), what os.RemoveAll and the journals do, pipes and the front ends.
pub mod Prelude
pub mod Container
pub mod Cursor
pub mod Lql
pub mod Model
pub mod Partition
pub mod Tindex
pub mod Tmindex
pub mod Utils
