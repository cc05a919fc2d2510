-- ===== src/Lib.antt =====
-- Verification of the programs of the CSE 320 repository.
--
-- hw1: images as binary decision diagrams (hw1/src/bdd.c, hw1/src/helpingFunctions.c).
--   Bdd.Store holds the globals (`bdd_nodes`, `bdd_hash_map`, `bdd_index_map`,
--   `free_node_counter`) and a state monad whose `none` is an access outside an array or a level
--   that does not fit a `char`. A pointer into `bdd_nodes` is its index.
--   Bdd.Lookup is `bdd_lookup` with `hashFunction`; its children state the invariant of the table
--   (Invariant), what probing finds (Scan), and the two outcomes (Insert, Correct).
--   Bdd.Image reads a diagram as an image, Bdd.Build composes halves, Bdd.Square relates the levels
--   to coordinate digits, Bdd.Root is the pointer with the special node of level 69.
--   Bdd.Raster is `bdd_min_level` and `bdd_from_raster`; Bdd.Apply is `bdd_apply` and
--   `bdd_to_raster`.
--   Bdd.Transform is `bdd_map`, `bdd_rotate` and `bdd_zoom`; its children draw the images of the
--   first (Map), of an enlargement (Zoom) and of the image turned to the left (Quarters,
--   Rotate).
--   Bdd.Serialize is `bdd_serialize`, whose bytes are part of its result, and Bdd.Deserialize is
--   `bdd_deserialize` over streams by their number; its children have the bytes of a serial number
--   (Bytes), the numbers given out (Numbers), the loop on such bytes (Decode), the recursion that
--   writes them (Written, Recursion), and both calls (RoundTrip).
--   Bdd.Birp is `birp_to_birp` of hw1/src/birp.c between the image read and the one written, and its
--   child Pictures has the images of two of its transformations.
--   Bdd.Options is `validargs` of hw1/src/birp.c with the texts and numbers of
--   hw1/src/helpingFunctions.c. Its children have the uses of the program that the usage message
--   lists and their arguments (Requests), what the loop does on these (Parsed, Requested), the
--   number put together (Number, Encoded), and the request that the flags stand for whatever the
--   arguments are (Kept, Begun, Accepted).
-- hw3: the allocator (hw3/src/sfmm.c, hw3/src/helpingFunction.c).
--   Malloc.Sizes has the sizes and list indices (Bounds: what they are), Malloc.Memory the heap:
--   its words, the links of its blocks and the ends that `sf_mem_start` and `sf_mem_end` return. The
--   two words of a free block that hold its links are kept apart from the words, so what is stated
--   of words that stay is stated of headers, footers and the contents of allocated blocks.
--   Malloc.Allocate is `sf_malloc` in its steps (Place: what becomes of the block found; FirstPage
--   and Growth: pages; Listed: the free lists and the search; Serve: the call as a whole),
--   Malloc.Free is `sf_free` with one function for each case of the neighbours
--   (Branches: the words each writes; Merge: the case chosen; Tiled: the heap left),
--   Malloc.Resize is `sf_realloc` and `sf_memalign` (Shrink and Realloc: blocks with room).
--   Malloc.Tags says what a header means, Malloc.Tiling states that the headers and footers make
--   the heap a row of blocks (FreeEnds: the free blocks beside an address), and Malloc.Spans how
--   such a row changes when a block becomes free.
-- hw4: the printer spooler (hw4/src/cli.c, hw4/src/helpingFunction.c, hw4/include/helpingFunction.h).
--   Spool.State has the arrays of printers and jobs with the other globals, the events that are
--   reported, and the record of what is outside the repository: the library of conversions and the
--   numbers that `fork` returns, which depend on the processes not yet waited for. Spool.Arguments reads the words of a line and job numbers
--   (Numbers); Spool.Tables searches the arrays, adds a job and deletes old ones; Spool.Scan is
--   `scanJobs` (Choice: the printer found; Saturated and Late: what the scan achieves and misses);
--   Spool.Handler is `masterSigHandler` over the results of `waitpid`; Spool.Print and
--   Spool.Commands are the commands of `run_cli` and its loop in batch mode. Spool.Consistent links
--   printers to jobs; its children treat a change of one cell (Changed), a job that starts or ends
--   (Started, Ended), and the calls (Scanned, Reaped, Commanded, Queued). Spool.Reach has runs in
--   which lines, scans, deletions and signals come in any order.
-- hw5: the objects of the chat server (hw5/src), each call under a mutex as one step.
--   Chat.Heap is a heap whose addresses are not given out again, so that a use after free is the
--   result `none`. Chat.User is user.c; Chat.UserRegistry is user_registry.c (Listed: what a
--   registry holds; Correct: its calls); Chat.Mailbox is mailbox.c (Count and Calls: items and
--   entries; Reach: sequences of calls; Queue: the entry taken), where calls of a discard hook are
--   recorded; Chat.Client is client_registry.c with the references of client.c (Slots: its array;
--   Register: a client that comes and goes); Chat.Login is the login and logout of client.c;
--   Chat.Packets has the packets that client.c sends, which are recorded; Chat.Service is the service
--   of a client in server.c, each request as one step (Held: references to a list of clients;
--   Users: the request for the list of users; Recipient, Send and Delivered: a message to another
--   client). The machine keeps the low byte of a word first.
--   Chat.Protocol is protocol.c over the results of its reads and writes (RoundTrip).
-- Fuel: the two recursions of `bdd_from_raster` run on the level, which is the depth for a square
--   of side 2 ^ (level / 2); `bdd_min_level` doubles from 1, so as many rounds as the bound are
--   enough; `bdd_apply` runs on the level of its node plus one, since children have lower levels.
--   A map or a zoom runs on the level of its node plus one, for the same reason; a rotation on
--   the level plus one, which halves the width in each step.
--   `bdd_serialize` runs on the level plus one, and `bdd_deserialize` on one round per byte.
--   The free list of an allocator is walked for at most as many nodes as the heap has bytes; its
--   growth runs on the request plus one, since each page brings the wilderness closer to it; a list
--   index has 7 rounds, and halving an `int` 31.
-- Not modelled: streams, processes, threads (the service of a mailbox in server.c among them) and
--   sockets, hw2 (an existing program), and the parts named as planned.
pub mod Base
pub mod Bdd
pub mod Chat
pub mod Malloc
pub mod Spool
