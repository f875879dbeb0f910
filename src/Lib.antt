-- ===== src/Lib.antt =====
-- A verification library for libbgp, a BGP-4 library in C.
--
-- The program. Bytes from a peer are framed into packets (src/sink.c, src/packet.c), whose bodies are OPEN,
-- UPDATE, NOTIFICATION and KEEPALIVE messages (src/open.c with src/capability.c, src/update.c with
-- src/pattr.c, src/notification.c, src/keepalive.c). A session (src/fsm.c) answers them, keeps the routes in
-- tables (src/rib4.c, src/rib6.c) that look addresses up in radix trees (src/radix4.c, src/radix6.c), asks a
-- filter (src/filter.c) about every route and tells other sessions by events (src/event.c). Prefixes
-- (src/prefix4.c, src/prefix6.c) are the common currency.
--
-- What models what.
--   Prelude         native numbers, Boolean tests, lists, bytes, error codes (include/libbgp/types.h), results,
--                   the allocator as seen by its callers, big-endian numbers (src/internal.h)
--   Prefix          what both prefix files share: octets, masks, memcmp
--   Prefix4         src/prefix4.c: parse, write, eq, includes, cmp, and the netmask table
--   Prefix6         src/prefix6.c: the same, with the mask of an address
--   Radix           the trie that src/radix4.c and src/radix6.c both are; Radix4 and Radix6 fix the width
--   Notification    src/notification.c
--   Keepalive       src/keepalive.c
--   Capability      src/capability.c: objects with reference counts, parse, write
--   Open            src/open.c: parse with its two loops, write, queries
--   Pattr           src/pattr.c: the data of a path attribute, its types and flags; Pattr.Read parses,
--                   Pattr.Write measures and writes
--   AttrView        src/attr_view.h
--   Sink            src/sink.c: the buffer, the ring of packets and the operations (Sink.Ops); Sink.Frames is
--                   what the framing promises, a function on lists of bytes
--   Filter          src/filter.c: the tests on attributes; Filter.Ops has the rules and the operations
--   Event           src/event.c; the calls of callbacks are a list of effects; Event.Runs has the runs of the
--                   operations, with the deliveries of publications in between
--   Packet          src/packet.c: the header, the body by its type; Packet.Kinds has the bodies by kind
--   Hashmap         src/hashmap.c: buckets and resizing; Hashmap.Ops has the operations
--   Tests           concrete runs
-- A function libbgp_x_y or bgp_x_y is called x_y here; where a static function of the filter has the name
-- of a match, or a loop is a function of its own, a comment names the code.
--
-- How the code is read.
--   A pointer and a length are one list of bytes; a writer takes the room in its buffer and gives the bytes
--   that it writes, whose number is the length that the code stores. NULL arguments are excluded by the
--   types, except where the code goes on with NULL: a pointer in a tree, an attribute in an array.
--   A function that stores its results on success only and returns an error code gives a Result.
--   The outcomes of the coming calls of malloc, calloc and realloc are a list of Booleans that a function
--   takes and passes on; behind its end every call succeeds. Freeing memory changes no value.
--   What happens under a lock is a function of the state that the lock protects. A publication gives up its
--   lock before it calls the subscribers, so that its deliveries are steps of their own (Event.Runs); of the
--   callbacks that retain and release a context it is assumed that they do not call the bus.
--   A union with its type tag is a data type; an array with its count is a list.
--   IPv4 addresses are the four bytes that the code keeps in network order.
--
-- Fuel. The parsing loops of Open and Pattr recurse on fuel, which is the number of bytes given to them: each
-- round consumes at least one byte, and out of fuel the answer is LIBBGP_ERR, which the code never gives.
-- Framing takes at least 19 bytes off the buffer in each round; its fuel is the number of bytes that wait.
-- The doubling loop of the growing arrays takes 65 rounds at most, and a capacity of 64 bits cannot be
-- doubled more often.
--
-- Not modelled: the codec of UPDATE messages, the printed form of attributes, the routing
-- tables, the state machine and the output handler; allocation hooks, logging and the names of
-- error codes, which are I/O and glue.
pub mod Prelude
pub mod Prefix
pub mod Prefix4
pub mod Prefix6
pub mod Radix
pub mod Radix4
pub mod Radix6
pub mod Notification
pub mod Keepalive
pub mod Capability
pub mod Open
pub mod Pattr
pub mod AttrView
pub mod Filter
pub mod Sink
pub mod Hashmap
pub mod Packet
pub mod Event
pub mod Tests
