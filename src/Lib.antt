-- ===== src/Lib.antt =====
-- faststore: a verification library for the storage server of FastStore.
--
-- A FastStore server keeps files as slices of blocks. A block, named by an object id and an
-- offset, has an index of slices; each slice lies in a trunk file of a store path. Updates go
-- through the index, which keeps slices free of overlaps, and from a master on to the other
-- servers of a data group, whose answers are awaited in a ring.
--
-- Which file models which part (paths from the repository's root):
--
-- Types          src/common/fs_types.h and src/server/storage/storage_types.h: FSBlockKey,
--                FSSliceSize, FSTrunkSpaceInfo, OBSliceEntry as records with the same fields.
-- Errno          the error numbers that the code returns.
-- Skiplist       the container `uniq_skiplist`, of another library, as a record of operations and
--                laws. It stays a parameter; Skiplist.Sorted is a concrete list that has the laws.
-- Trunk          src/server/storage/trunk_allocator.c and storage_allocator.h: the accounts of used
--                bytes and slices of a trunk file, with the events that ask for its reclaim.
-- ObIndex        src/server/storage/object_block_index.c: add_slice, delete_slices and get_slices of
--                one block. Defs has the shared helpers, Add, Delete and Get one operation each, with
--                the code's collecting loops. Carve, Bytes, Overlap, Plan and Apply describe what such
--                an operation means: a place for each byte of the block, and the list that results
--                when a range is carved out. The Behaviour modules state the results.
-- ObTable        the hash table of blocks in object_block_index.c: chains of entries by key, the lock that
--                a reclaim takes on a block, and the functions that delete and read slices or delete a
--                block. A call that has to wait for a reclaim has no result.
-- Reclaim        src/server/storage/trunk_reclaim.c: the slices of a trunk in the order of their blocks, gathered
--                into one locked entry and a chain of ranges for each block. Its fuel is the number of
--                slices, which is enough.
-- Freelist       src/server/storage/trunk_freelist.c: the trunks of a store path with room, and how space
--                is taken from them. A wait for a trunk is a sequence of rounds, in each of which other
--                threads may have added trunks; ten rounds, as in the code. The statistics of the path
--                count the room of its trunks in the freelist for reclaims too, which is a number here.
--                The room of a trunk is kept in an int at one place, and wraps there.
-- RpcRing        src/server/replication/rpc_result_ring.c: the results that a replication channel
--                waits for, in a ring by data version with a sorted list for what does not fit.
--
-- Sort           the order of qsort for comparison functions that decide by one key after the other.
-- DataStatus     the status of a data server and its lowering: fs_downgrade_data_server_status in
--                src/server/server_group_info.c, downgrade_data_server_status in cluster_topology.c.
-- Groups         src/server/server_types.h: the servers of one data group.
-- Election       src/server/master_election.c: select_master in the stages in which it decides. Change
--                has the changes of status and master of a group in src/server/cluster_relationship.c
--                and cluster_topology.c, Rounds the queues and the thread of the elections.
-- ServerPairs    src/server/server_group_info.c: the array of the first channels of all pairs of servers,
--                and the search in it.
-- Leader         src/server/cluster_relationship.c: the candidate for the cluster's leader among the answers
--                of the servers; Office has the announcement, the commit and the end of a leader, Inactive the
--                array of the servers that are watched for a split brain.
--
-- How state and errors are modelled. A function that changes a struct takes the record and returns
-- the new one. Numbers are natural numbers; counters of a fixed width wrap (`% 2 ^ 64`). Slices end
-- below 2 ^ 31 in the code, so sums of offset and length are exact. An allocation that may
-- fail is counted: a function takes the number of allocations that still succeed, and ENOMEM is
-- the result when it reaches zero; `length chain + 7` allocations are always enough for add_slice and
-- delete_slices, `2 * length chain + 2` for get_slices, and the theorems have that bound as a
-- hypothesis. On ENOMEM the counts that the code reports through pointers are given as 0; no caller
-- reads them. Loops over a list are recursions on it; loops over the ring have the size of the ring
-- as fuel, and what they reach is proved.
--
-- Not modelled: reference counts and the release of memory, the locks around the operations (each
-- operation runs alone), logging, and all input and output. The statistics of threads that the
-- replication waits on are a count per task and the list of tasks that were notified.
pub mod Prelude
pub mod Errno
pub mod Types
pub mod Skiplist
pub mod Trunk
pub mod ObIndex
pub mod ObTable
pub mod Freelist
pub mod RpcRing
pub mod Sort
pub mod Reclaim
pub mod DataStatus
pub mod Groups
pub mod ServerPairs
pub mod Election
pub mod Leader
