-- ===== src/Lib.antt =====
-- The storage engine of leveldb-mcpe, in leveldb-mcpe-native/Projects/leveldb-mcpe (paths below are
-- relative to it), modelled component by component.
--
-- How the parts interact. A client's updates are put in a `WriteBatch`, a byte string. The
-- database appends the batch as one record to the write-ahead log, and then hands its updates to
-- the memtable, each with a sequence number, under internal keys. When the set of files changes,
-- a `VersionEdit` is encoded and appended to another log, the manifest. On recovery the logs are
-- read back and the batches and edits are decoded. All of them stand on the integer and string
-- codecs, and all ordering stands on a user comparator. The database iterator walks over the
-- internal keys, which the merging iterator gives in order from several sources, and shows what is
-- visible at one sequence number. The entries of a table stand in
-- blocks, which share the prefixes of their keys. A table carries a filter block, which a filter
-- policy such as the Bloom filter fills. The table builder writes the blocks with their checksums to
-- a file, and behind them the index of their handles and a footer, from which the table is opened.
--
-- Which file models which part:
--   Common         Boolean tests, lists over the native numbers, the bit operations; byte strings
--                  (`Slice`, `std::string`) are lists of numbers
--   Coding         util/coding.cc and util/coding.h
--   Slice          include/leveldb/slice.h
--   Comparator     include/leveldb/comparator.h and util/comparator.cc
--   FilterPolicy   include/leveldb/filter_policy.h
--   Hash           util/hash.cc
--   DbFormat       db/dbformat.cc and db/dbformat.h: internal keys, their comparator and filter
--                  policy, lookup keys
--   Status         include/leveldb/status.h
--   WriteBatch     db/write_batch.cc and include/leveldb/write_batch.h
--   VersionEdit    db/version_edit.cc and db/version_edit.h
--   Crc32c         util/crc32c.h
--   Bloom          util/bloom.cc
--   FilterBlock    table/filter_block.cc and table/filter_block.h
--   Block          table/block_builder.cc, table/block_builder.h, table/block.cc and table/block.h
--                  (Block/Reader)
--   Format         table/format.cc and table/format.h: handles, the footer, the reading of a block
--   Table          table/table_builder.cc (Table and Table/Finish) and the start of Table::Open in
--                  table/table.cc (Table/Open)
--   FileName       db/filename.cc and db/filename.h, ConsumeDecimalNumber and the printing of numbers of
--                  util/logging.cc, and DoWriteStringToFile of util/env.cc
--   Arena          util/arena.cc and util/arena.h
--   Samples        a checksum and files in memory, for the tests
--   Iterator       include/leveldb/iterator.h, with a list as an instance
--   Merger         table/merger.cc, over children of one iterator interface
--   DbIter         db/db_iter.cc, over any internal iterator
--   VersionSet     db/version_set.cc: the searches over the files of a level
--   Log            db/log_format.h, db/log_writer.cc (Log/Writer) and db/log_reader.cc (Log/Reader)
-- In each the definitions stand in the file of the part's name, or in the two files named, and the
-- files below it hold the lemmas, by what they prove. Definitions keep the names of the source in
-- lower case with underscores: `AddRecord` is `add_record`. A method takes the object first and
-- returns it with the result.
--
-- What is left to the surroundings is a parameter: the user comparator and the user filter policy
-- with the contract that their headers document (`IsComparator`, `IsFilterPolicy`; beyond its
-- header, the internal comparator asks a user comparator for `KeepsEqual`), the files of
-- the log with `Accepts` and `Gives` (every write is appended; a read gives the next bytes), the
-- file of a table with `Accepts` and `Serves` (a read gives the bytes at its offset), compressors
-- with `IsCompressor` (decompressing takes back compressing), the checksum with `Checksum`
-- (extending twice is extending by both), the handler of a batch, the memtable, the internal
-- iterator with `IsIterator` and the children of the merging iterator with `IsChildren` (where each
-- method leaves it), and the blocks of an arena with `IsAllocator` (a new block is apart from the
-- others and aligned).
--
-- Bounds and fuel. Integers are the native numbers. Unsigned arithmetic of 8, 32 or 64 bits, the
-- counting up of a sequence number and of the offset in a table among it, is reduced modulo the
-- power of two where it may leave the type, and the `int` count of a batch is taken by its 32 bits.
-- The sizes of what is in memory, positions in it and counts that they bound are not reduced. A
-- read of a block whose size with the trailer leaves 64 bits has no result where the source reads
-- out of bounds. `EncodeVarint64` and `VarintLength` recurse on the number itself. The
-- loops of `Iterate` and `DecodeFrom` take the bytes that are left as fuel, since each round
-- reads one at least. The loop of `AddRecord` takes two rounds more than there are bytes: only a
-- first fragment, at the last seven bytes of a block, can be empty while bytes are left. The loop
-- of `ReadPhysicalRecord` takes three rounds: a block that is read in full holds a header, and
-- after a shorter read the end of the file is known. The loop of `ReadRecord` takes its fuel from
-- the caller; the bytes of the record's fragments are enough. The loops of the database iterator
-- take their fuel from the caller too; the number of entries is enough. `FindFile` takes the
-- number of files, and `GetOverlappingInputs` takes its fuel from the caller: it is quadratic in
-- the files, since each restart leaves fewer files that reach out of the range. `StartBlock` of a
-- filter block takes the number of filters that are missing. The loops of the block iterator over
-- entries take their fuel from the caller, and its binary search takes the number of restarts. A
-- decimal number of 64 bits has at most the twenty digits that its printing takes. A pass over the
-- merging iterator takes a step for each entry and one for the end.
--
-- Not modelled: the memtable's skip list, the reading of tables behind `Open`, caches, the
-- builder of versions and the choice of compactions in the version set, the database, the
-- two-level iterator, the sampling of reads by the database iterator; the tables of the
-- checksum; `DebugString` and other printing; the environment's files and threads; the
-- compressors and the copy of zlib; the C interface and the .NET binding. Memory and the lifetime
-- of the strings behind a `Slice` are not modelled: a slice is its bytes.
pub mod Common
pub mod Coding
pub mod Slice
pub mod Comparator
pub mod FilterPolicy
pub mod Hash
pub mod DbFormat
pub mod Status
pub mod WriteBatch
pub mod VersionEdit
pub mod Crc32c
pub mod Bloom
pub mod FilterBlock
pub mod Iterator
pub mod DbIter
pub mod Log
pub mod VersionSet
pub mod Block
pub mod Format
pub mod Table
pub mod FileName
pub mod Merger
pub mod Arena
pub mod Samples
