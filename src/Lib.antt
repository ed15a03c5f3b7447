-- ===== src/Lib.antt =====
-- A model of the core of the cache server in src/: the data structures that src/CMakeLists.txt
-- builds into it, as far as they are written, with the theorems that make them correct.
--
-- The parts. The server (src/cache.c) keeps its databases in hash tables (src/dict.c), its texts in
-- counted strings (src/sds.c), its clients in doubly linked lists (src/adlist.c), small sets of
-- numbers in integer sets (src/intset.c) and small lists in byte blobs (src/ziplist.c); all of them
-- allocate through src/zmalloc.c, and the last two swap bytes by src/endianconv.c on big-endian
-- machines.
--
-- Dict.antt and the files under Dict/ model src/dict.h and src/dict.c. A bucket is the list of its
-- entries, `table` the list of the buckets, the empty list where the C has NULL. Every operation
-- takes the dict and returns the new one; `none` is a read or write outside the memory of a table,
-- or a failed assert, so that each theorem of the form "there is a result" says that none occurs.
-- The callbacks of a DictType are arguments; `IsLawful` is what the code relies on: the comparison
-- is an equivalence, equal keys hash alike, a copy of a key equals it. What zmalloc leaves in a new
-- entry is an argument. Dict/Rehash is dictRehash, Dict/Expand the growth, Dict/Ops the lookups and
-- updates; Dict/Valid has the invariant and what a key stands for.
-- Dict/Random is dictGetRandomKey: what random() returns is a list, and the theorem asks that some
-- number of it, but not the last one, leads to a bucket with an entry. Dict/Expand/Resize is dictResize.
-- Dict/Iterator is dictNext with the ways to get an iterator; dictFingerPrint, which reads addresses, is
-- an argument. Its loop is on fuel: two rounds more than there are buckets are enough.
-- Fuel: _dictNextPower runs on 62 rounds, which next_power_lem shows to be enough; every other loop
-- of the hash table is a recursion on a bucket or on a counter of the source.
-- The theorems on additions ask for fewer than 2 ^ 29 entries and tables of fewer than 2 ^ 31
-- buckets, since _dictKeyIndex returns an int.
--
-- Endianconv.antt models src/endianconv.c on the bytes behind a pointer. Intset.antt models the reads
-- of src/intset.c on the bytes of the contents, Intset/Search intsetSearch and insertFind, on a
-- little-endian machine. search_loop has fuel of one more than the length, which intset_search_lem
-- shows to be enough.
--
-- Dict/Hash.antt models the hash functions of src/dict.c, Zmalloc.antt the macros of src/zmalloc.c that
-- keep the counter of used memory.
--
-- Sds.antt and the files under Sds/ model src/sds.c on the header and the bytes of the buffer; a read or
-- write behind the buffer is `none`. What zmalloc and realloc leave in a block is an argument. Sds/Range
-- is sdsRange, Sds/Append sdsMakeRoomFor and sdsCatLen, Sds/Create sdsNewLen and what stands on it,
-- Sds/Edit the changes of a string in its buffer and sdsCmp, Sds/Number the printing of numbers: its
-- loop writes at most 20 digits, so 20 rounds are enough. Sds/Args is sdsSplitArgs with sdsCatRepr.
-- Both append to a string through an interface, Appends: a string with room for some bytes takes them.
-- sdsCatLen meets it in two ways: as long as the free space suffices (Sds/Args/Room), and, on a string of
-- sdsEmpty, which has none, for two bytes (Sds/Args/Short). Sds/Args/Split has sdsSplitArgs with the
-- strings of the source. Sds/Printf is sdsCatPrintf with sdsCatVPrintf, through which sdsCatRepr goes:
-- what vsnprintf prints is an argument, the fourth argument that sdsCatPrintf gives to sdsCatVPrintf,
-- which has three parameters, is left out, and the rounds of its loop are one more than the bytes printed.
--
-- Adlist.antt models src/adlist.c on a heap of nodes at addresses; an access through NULL or to an
-- address without a node is `none`. Adlist/Links says that the nodes of a list stand on the heap,
-- linked both ways; the other files under Adlist/ have the theorems of one operation or two each.
-- The loop of listSearchKey is on fuel; one more than the number of nodes is enough, which
-- list_search_key_lem shows.
--
-- The files under Server/ model parts of src/cache.c. Server/Command has the command table,
-- populateCommandTable and the lookups, which stand on the hash table of Dict with the callbacks of
-- Server/Keys; Libc.antt has what the code uses of the C library. Server/Process is processCommand,
-- each test a function with the condition of the source, Server/Propagate is call with propagate and
-- the queued operations; what the pointer that cacheOpArrayFree reads through without setting it points
-- to is an argument. Of the other files of the server, which the repository does not have, the
-- functions that are called are arguments, with laws where a theorem needs them.
-- Server/Cron/Clients is clientsCron, on the list of clients of Adlist, Server/Cron/Databases the
-- resizing in databaseCron, on the tables of Dict, Server/Cron/Metrics and Server/Cron/Stats the rates
-- and resetServerStats. Server/Limits is adjustOpenFilesLimit, whose loop goes down by 16 on fuel: a
-- sixteenth of the files asked for, and one more, is enough.
--
-- Ziplist.antt models the macros of src/ziplist.c and the functions on one entry: a pointer into a blob
-- is the list of the bytes from it on, the machine is little-endian, ZIP_STR_MASK stands without the
-- semicolon that ends it in the source, and string2ll, of a file that is not there, is a parameter.
-- Ziplist/Walk has the walks, forward only; Ziplist/Blob says which entries a blob holds, and
-- Ziplist/Number is the round trip of a number. The loops are on fuel; one more than the number of
-- entries is enough, which the theorems of Ziplist/Blob show.
--
-- Not modelled: in src/dict.c the release of an iterator,
-- dictFingerPrint, dictScan, dictGetSomeKeys, dictRehashMilliseconds and
-- _dictClear, which reads an uninitialised variable; in src/intset.c the updates, since intsetAdd
-- inserts at the place of the encoding; in src/sds.c sdsJoin, sdsSplitLen, sdsCatFmt and
-- the release of a string; in src/ziplist.c the insertion,
-- the deletion, the cascade update, the merge and the walks backward, which do not compile as they
-- stand or read the length in front of an entry, which is stored in the wrong variable; in src/adlist.c
-- listDup, which walks a NULL iterator; of src/cache.c the expire cycle, the rest of databaseCron,
-- serverCron, the initialisation and the shared replies; the allocation functions of src/zmalloc.c;
-- the Kubernetes operator and the upload service around the server, which are not C.
pub mod Prelude
pub mod Adlist
pub mod Dict
pub mod Endianconv
pub mod Intset
pub mod Libc
pub mod Sds
pub mod Server
pub mod Ziplist
pub mod Zmalloc
