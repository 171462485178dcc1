-- ===== src/Lib.antt =====
-- DVB Vulture receives digital television: a server tunes cards, takes transport packets apart,
-- keeps databases of programmes and events, and records; clients talk to it over a socket. This
-- library models the part that turns packets into sections and sections into tables, and the
-- helpers that it stands on.
--
-- How the parts interact. The selector hands each transport packet of a pid to `secExPut`, which
-- gathers packets until a section is whole and gives every packet back to the selector. A section
-- is checked by its CRC and read by the section parsers, which take bit fields from it and guard
-- their read pointer by a stack of nested bounds; `check_enter_sec` then puts it into a table,
-- whose bit field says which sections are there. In the other direction a recorder compiles
-- sections of its own (`sitCompile`) for the packets that it writes, and keeps the pids that it
-- wants in arrays without duplicates. The containers stand below all of these: the self-sorting
-- list calls the doubly linked list, the hash table and the byte streams call the singly linked
-- one.
--
-- Files and the code they model:
--   SizeStack: common/size_stack.c, include/size_stack.h (sizeStackInit, Pop, Push, Advance, Rewind)
--   Bits: common/bits.c (bitsGet, bitsGet48, bitsDecodeBcd8)
--   Bifi: common/bifi.c (bifiGet, bifiSet, bifiClr, bifiInit, bifiIsNonzero, bifiAnd, bifiOr,
--     bifiXor)
--   Utl: common/utl.c (utlSmartMemmove, utlAppend, utlRmv)
--   Packet: stream/trn_strm.c (the fields of a packet's header)
--   Section: stream/sec_common.c (the fields of a section's header, sec_crc32, secCheckCrc)
--   Sit: stream/sit_com.c (sitCompile, ditCompile, sec_to_ts, ts_put_ctr)
--   SecEx: stream/sec_ex.c, stream/sec_ex.h (sec_ex_get_ranges, sec_ex_process_buf, secExPut,
--     secExFlush)
--   Table: stream/table.c, stream/table.h (enter_sec, clear_tbl_sec, check_enter_sec,
--     tbl_is_complete, the iterator), and clear_pas, clear_pms, clear_nis and clear_sds of
--     stream/pas.c, pms.c, nis.c and sds.c
--   PidBuf: stream/pidbuf.c (pidbufContains, AddPid, RmvPid, MergeUniq, Difference, Dup)
--   RsEntry: common/rs_entry.c, include/rs_entry.h, stream/rec_sched.c (the states of an entry of
--     the recording schedule, the place of a new entry, comparisons, copies, and rsDestroy)
--   BTree: common/btre.c, include/btre.h (the balanced tree: find, insert, get or insert, remove,
--     walk, and the tree as a byte stream)
--   DHash: common/dhash.c, include/dhash.h (dhashInit, Get, Put, Remove, ForEach, Clear, the change
--     of the size, and the table as a byte stream)
--   ListStream: common/list.c (slistWrite, slistWriteSize, slistRead; those of the doubly linked list
--     are the same)
--   DList: common/list.c, include/list.h (the doubly linked list: dlistInit, InsertFirst, InsertLast,
--     InsertAfter, InsertBefore, Remove, ForEach, ForEachRev, Count)
--   SList: common/list.c, include/list.h (the singly linked list: slistInit, InsertFirst, InsertLast,
--     InsertAfter, RemoveFirst, RemoveNext)
--   Lru: stream/lru.c, stream/lru.h (LRUInit, Clear, PutMid, GetSize, RemoveLast, Fwd, Remove)
--   Prelude: what these share, from tests on numbers to the laws of the bit operations and of
--     writes to a buffer.
--
-- Conventions. A struct is a record of the fields that the modelled code reads or writes, a byte
-- array is a list of numbers, and an array index past the end of a list reads a default and writes
-- nothing; a theorem about such an access has the bound as a hypothesis or proves it. A function
-- that changes its arguments returns them. A machine integer that can wrap around is reduced where
-- the code does arithmetic on it. A pointer is an `Option`, or an address where its identity
-- counts: in the lists, and in the names of a schedule, whose strings are in a memory of their own.
--
-- Bounds and fuel. Loops over an array recur on the array or on a count that the code has in hand:
-- `rmv_loop` runs for as many rounds as the array has elements, which is enough since the index
-- grows and the count does not; `btree_read` nests its calls at most one deeper than the file has
-- bytes; the loops over a list, and those that read one, make one round more than there are
-- elements, or bytes; `seek_up` has the distance to the number of sections. The CRC table is the
-- 256 words of the source. The section buffer has 4096 bytes, a packet 188.
--
-- What is not modelled: input and output (files, sockets, devices, the user interfaces), the
-- interprocess protocol, threads and locks, the parsers of the single kinds of sections, and the
-- databases. Whether an allocation succeeds is an argument of the functions that allocate, and
-- calendar arithmetic of the C library is a parameter, as is the address that its `strdup` takes.
pub mod Prelude
pub mod SizeStack
pub mod Bits
pub mod Section
pub mod Sit
pub mod Packet
pub mod SecEx
pub mod PidBuf
pub mod Bifi
pub mod Table
pub mod RsEntry
pub mod Utl
pub mod BTree
pub mod DHash
pub mod DList
pub mod Lru
pub mod ListStream
pub mod SList
