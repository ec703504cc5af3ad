-- ===== src/Lib.antt =====
-- lighttpd2: chunk queues, the chunked transfer encoding, HTTP and PROXY headers, the queues of jobs
-- and of waiting elements, the interpreter of the configuration, the throttle, the encodings of
-- strings, paths and query strings, the tables of ids and of networks, and the data that workers and
-- the angel exchange.
--
-- A response or a request body travels through lighttpd as the content of chunk queues. A chunk is a
-- piece of memory, a part of a buffer or a range of a file; filters move chunks from queue to queue,
-- and the memory in all queues of a connection counts against a limit that stops reading while it is
-- reached. How a request is answered is decided by the interpreter of the configuration, which runs a
-- tree of actions on a stack; how fast it is answered, by the throttle.
--
-- Parts and files:
--   Prelude       names that all modules share, tests on numbers, lists, signed offsets
--   Chunk         src/main/chunk.c and include/lighttpd/chunk.h
--     Defs        liChunk, liCQLimit, liChunkQueue, li_chunk_length
--     Limit       li_cqlimit_*, cqlimit_lock, cqlimit_unlock, cqlimit_update
--     Queue       li_chunkqueue_append_*, skip, skip_all, reset, set_limit, use_limit, limit_available
--     Steal       li_chunkqueue_steal_len, steal_all, steal_chunk
--     Content     the octets that a queue stands for
--     Account     the counters of one queue against its chunks
--     World       all queues under a set of limits
--   Chunked       src/main/filter_chunked.c
--     Encode      http_chunk_append_len, li_filter_chunked_encode on bytes
--     Queues      li_filter_chunked_encode on its chunk queues
--     Decode      li_filter_chunked_decode, its loop and its states
--     Feed        the decoder as a machine fed byte by byte
--     Resume, Wire, Hex, RoundTrip, Wrap   what follows for streams of bytes
--   Ids           src/common/idlist.c
--     IdList      li_idlist_get, put, is_used, new, on the bits of the words
--     Laws, Stuck   what is handed out and taken back, and an id that is not found
--   Path          src/common/utils.c, li_path_simplify
--     Simplify    the walk in the memory of the path
--     Segments    a path as segments
--     Memory      the written part of the memory, and the way back to a slash
--     Walk        the invariant of the walk: which token ends how, and what is left then
--   Query         src/common/utils.c, li_querystring_find
--     Find        the search for a key and the end of its value
--     Laws        which value is found
--   Radix         src/common/radix.c
--     Word        rdxBase, the masks, rdx_get_input
--     Tree        li_radixtree_insert, remove, lookup, lookup_exact, foreach
--     Insert, Split, Exact, Others, Update, Longest, Remove   the laws of insertion, lookup and removal
--   Actions       src/main/actions.c, and what it uses of src/main/virtualrequest.c
--     Defs        liAction, action_stack_element, liActionStack, the callbacks
--     Stack       li_action_enter, action_stack_pop, the release of elements, li_action_stack_reset
--     Execute     li_action_execute, one round of its loop at a time, li_vrequest_backend_finished
--     Meaning     what actions do to a request, without a stack, and the interpreter against it
--     Failure, Release   failed backends; failed callbacks and what they leave to release
--   Throttle      src/main/throttle.c
--     Gint        gint and guint of 32 bits
--     Defs        liThrottleState, liThrottlePool and their parts
--     Rearm       S_throttle_pool_rearm_workers, throttle_pool_rearm, throttle_register, deregister
--     Query       li_throttle_query, li_throttle_update
--     Pools       li_throttle_add_pool, remove_pool, new, set, free, throttle_prepare, pool_new
--     Shares, Answer, Single, Registered   the laws of filling, of the answer, of the magazine of a
--                 request, and of the queues
--   Headers       src/main/http_headers.c
--     Defs        liHttpHeader, _http_header_sanitize, _http_header_new
--     Find        li_http_header_find_*, append, overwrite, remove, lookup, get_all, is
--     Sanitize, Clean   the value of a new header
--     Remove, Lookup    the loops over all headers with a key, and the last of them
--   Proxy         src/main/proxy_protocol.c
--     Defs        liProxyProtocolData, proxy_prot_parse_v2
--     Parse       proxy_prot_parse_v1, li_proxy_protocol_parse
--     RoundTrip, Text, Fields   headers of both versions as a proxy writes them
--   Jobs          src/common/jobqueue.c
--     Defs        liJobQueue, job_queue_run, li_job_later, now, stop, reset
--     Liveness    which jobs are run
--   Wait          src/common/waitqueue.c
--     Defs        liWaitQueue, liWaitQueueElem, li_waitqueue_*
--     Chain, Unlink   elements linked to each other, and one that leaves its neighbours
--     Push, Pop, Remove, Ready   the operations against a list
--   Angel         src/common/angel_data.c
--     Defs        liAngelBuffer, li_angel_data_write_*
--     Read        li_angel_data_read_*
--     Errors, RoundTrip   what a read leaves behind, and what is written read again
--   Encoding      src/common/encoding.c and li_url_decode of src/common/utils.c
--     Encode      the tables and the characters written
--     Append      li_string_encode_append, li_string_encode on the memory of the result
--     Decode      hex2int, li_url_decode
--     Laws        decoding what was encoded, and what decoding leaves
--
-- The encoder appends to one chunk queue what it steals from another; the round trip with the decoder
-- is on the bytes that the queues stand for. The radix tree, which holds address ranges for access
-- rules, the ids, the headers, the queues of jobs and of waiting elements, the data for the angel, the
-- interpreter and the throttle stand alone. The decoder of paths and the encoder
-- for an URI meet in a round trip; a path is simplified after it has been decoded.
--
-- A limit and a file are named by numbers. The limits are a function from names, so that queues share
-- them as they share pointers in the code; the two queues of a move are different objects. A goffset
-- that the code lets fall below zero is a ℤ, and one that is asserted or counted not to is a ℕ, a
-- failed LI_FORCE_ASSERT being `none`. Lengths are not bounded by 2^63: no queue in memory gets there. A
-- single string chunk in memory is taken to be shorter than 2^32 bytes: where a chunk is cut, the code
-- hands its length to g_byte_array_append, which takes a guint.
-- The encoder's length line keeps its eight rounds. The decoder's loop runs on fuel: two rounds for
-- each byte of the input and three more, which are always enough. A word of the radix tree is the list
-- of its 32 bits, since the code applies bitwise operations only, and its loops recur on the tree; a
-- key is taken to have the bytes that its number of bits asks for, and that number not to overflow
-- when it is rounded up.
--
-- The interpreter runs on fuel, one for each round; `size` of an action without balancers gives a
-- number that is enough. The code behind the function pointers of actions is a record of functions
-- from the request; a callback reads and writes the slot of its own element. The cleanup of a
-- function and the finished callback of a balancer get the request too, and are taken to change
-- nothing of it but what only the callbacks know. The pools, the links
-- and the workers of the throttle are functions from names, its time is an argument, and the numbers
-- keep their 32 bits: a signed one stands as itself plus 2^31. The queues of other workers are not
-- changed by a query, and the atomic operations are taken one after the other. The bits of an id
-- list are a function, its words are counted, and g_bit_nth_lsf is an argument. The elements of a
-- wait queue are a function from names, and an operation that would follow a null pointer is `none`.
-- A job is a number, and its callback any function on the queue of jobs. A link of a queue of
-- headers is its position; a link moves up when one before it goes. The loops over headers run on
-- fuel, at most two more than there are headers, and li_waitqueue_pop_ready on one more than there
-- are elements, which is always enough. What a PROXY line says of addresses and ports is left to
-- parsers that are arguments. The memory that GLib allocates for a string is a function of its size,
-- with no more known than that it has that size.
--
-- Not modelled: the files behind chunks (open, mmap, read), the reference counts of buffers and
-- limits, the release of memory, the event loop that starts timers and calls back, the streams
-- behind a response, and all other parts of the server. GLib's queues are lists.
pub mod Prelude
pub mod Chunk
pub mod Chunked
pub mod Radix
pub mod Ids
pub mod Encoding
pub mod Path
pub mod Query
pub mod Angel
pub mod Headers
pub mod Throttle
pub mod Jobs
pub mod Wait
pub mod Proxy
pub mod Actions
