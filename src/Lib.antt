-- ===== src/Lib.antt =====
-- The BIRD routing daemon as the measurement set-up of this repository runs it
-- (peering/bird-1.6.4): the parts that decide what an announcement looks like and which route
-- wins.
--
-- How the parts interact. A BGP route carries an AS path (peering/bird-1.6.4/nest/a-path.c) and
-- sets of communities (peering/bird-1.6.4/nest/a-set.c) as buffers in its attributes. Filters
-- test and change them by sets that are balanced search trees (peering/bird-1.6.4/filter/tree.c)
-- of values ordered by `val_compare` (peering/bird-1.6.4/filter/filter.c): `as_path_filter`,
-- `as_path_match_set` and the `clist_filter` family call `find_tree` for every element. The
-- decision process (peering/bird-1.6.4/proto/bgp/attrs.c) compares two routes by their
-- attributes, the length of the AS path and the neighbour at its front among them, and the
-- routing table (peering/bird-1.6.4/nest/rt-table.c) calls it through `rte_better` to keep the
-- best route of a network in front. The networks themselves are in a hash table
-- (peering/bird-1.6.4/nest/rt-fib.c). Filters check origins against tables of route origin
-- authorizations (peering/bird-1.6.4/nest/rt-roa.c). The instances of protocols
-- (peering/bird-1.6.4/nest/proto.c), which announce the routes, go through three coupled state
-- machines.
--
-- Files.
--   Base: numbers, lists, options and the outcome `Res` of a C function: a value, `bug` for a call
--     of `bug()` or an `ASSERT` that fails, `fault` for an access out of bounds, `out_of_fuel` for a
--     loop that was cut off.
--   AsPath: peering/bird-1.6.4/nest/a-path.c. A path is the list of its bytes. AsPath.Wire has the
--     segments and the buffer of a list of segments (`encode`), to which the theorems relate every
--     operation; AsPath.Length, Prepend, Ends, Contains, Filter, Convert and Match have the
--     functions of these names. AsPath.Match is `as_path_match`: an automaton on the positions of
--     the path (Steps, StepLoop, Loop, Bounds), the language of a mask (Language), and that the
--     one decides the other (Decides, Mask, Correct).
--   CommunitySet: peering/bird-1.6.4/nest/a-set.c. A set is the list of its words, `none` the null
--     pointer. CommunitySet.Spec has the operations on lists of values, Int, Ec and Lc the three
--     kinds.
--   FilterTree: peering/bird-1.6.4/filter/tree.c and `val_compare`; Find is the search, Build the
--     construction, Sets both on a set of ranges.
--   Trie: peering/bird-1.6.4/filter/trie.c and the prefix sets made of it. Bits has the laws of the
--     operations on addresses and Walk the path of a query; Masks, Place and Split are about what the
--     new nodes accept, Shape, Along and Ahead about where they stand, Correct and Add about
--     `trie_add_prefix`, PrefixSet and Pattern about a whole set, Same about `trie_same`; Network has IPv4
--     addresses to run them on.
--   CommunityFilter: the filters of community sets in peering/bird-1.6.4/filter/filter.c; MatchSet is
--     about the tests for a match, Correct about what a filter leaves, and Ranges about filters by
--     the trees that FilterTree builds.
--   Decision: `bgp_rte_better` and `bgp_rte_mergable`; Order, Merge and Prepending are about them.
--   RouteTable: `rte_better` and the list work of `rte_recalculate`: Walk is the search for the
--     old route, Best the table with the best route in front, Sorted the sorted table, Contents
--     and Sources which routes are in the list, and Bgp makes `bgp_rte_better` the hook that the
--     table calls, and follows a table through updates.
--   Fib: peering/bird-1.6.4/nest/rt-fib.c, the hash table of networks under every routing table.
--     Chain and Unlink are about one bucket, Invariant says what holds of a table, Rehash and Resize
--     are about `fib_rehash`, Lookup, Get, Delete and Route about the operations.
--   Protocol: the states of one protocol instance in peering/bird-1.6.4/nest/proto.c, which are in
--     the record `Proto` with the variables of the file that they share. Machine has
--     `proto_notify_state`, `proto_rethink_goal`, which call each other, and what leads to them;
--     Notify says which states go together and what a notification does to them, Steps lists the
--     events of an instance, Safety and Run are about single events and sequences of them, After,
--     Down, Wind and End about how an instance ends.
--   Roa: peering/bird-1.6.4/nest/rt-roa.c; Check is `roa_check`, Update the operations that change
--     a table.
--   The Tests modules run the definitions on concrete data.
--
-- Conventions. A loop `while (p < q)` over a buffer runs on fuel, the length of the buffer in
-- bytes: every round takes one byte at least. An output parameter is part of the result. What a
-- condition leaves unevaluated in C is left out of the result here too. `proto_rethink_goal` and
-- `proto_notify_state` call each other; their bound is the number of nested calls of
-- `proto_rethink_goal`, and two are enough. A byte that is read behind the end of a buffer is
-- `fault`; the daemon would read on.
--
-- Parameters. The directory lib of the daemon is not in the repository: the unaligned reads and
-- writes (`Unaligned`, with the law that what is put is got), the allocator (`Alloc`), the
-- comparison of addresses and strings (`Comparisons`, `ip_less`), masking of addresses
-- (`network`), their bits (`IpOps`, with the laws `IpLaws`), the hash of addresses (`ipa_hash`), the test
-- for a prefix (`ip_is_prefix`), and
-- `qsort`. The `start` and `shutdown` hooks of a protocol are functions from an instance to the
-- state that they return (`HookLaws` has what peering/bird-1.6.4/nest/protocol.h says of it); what
-- else they change, the marks of a graceful restart in the instance among it, is left out.
--
-- Not modelled: printing (as_path_format, the int_set_format family, trie_format), the
-- deterministic MED of bgp_rte_recalculate, the statistics, limits and announcements of the
-- routing table, the readers of the hash table of networks, reconfiguration of an instance in
-- place, its announce hooks, the lists of instances, the cache of attributes, the messages and
-- sessions of BGP, the other protocols, and everything that talks to sockets, timers and the
-- kernel.
pub mod Base
pub mod AsPath
pub mod FilterTree
pub mod CommunitySet
pub mod CommunityFilter
pub mod Decision
pub mod RouteTable
pub mod Roa
pub mod Fib
pub mod Trie
pub mod Protocol
