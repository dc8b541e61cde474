-- ===== src/Lib.antt =====
-- A verification library for peos2, a small operating system: its containers, its network stack, and its
-- memory, processes and file systems.
--
-- The program. The kernel and its programs share the containers of libraries/support, which live in
-- fixed arrays. The network stack of libraries/net is built on them: ethernet takes frames from the
-- device and hands their data to IPv4, IPv4 checks and reassembles datagrams and hands them to TCP,
-- and TCP finds the connection of a segment in its table. A connection has a receive queue, a send
-- queue and a state; the state decides what is sequenced, sent and when the connection ends. The
-- kernel keeps address spaces with areas and page tables, schedules processes from two linked queues, and
-- keeps a tree of nodes with drivers, contexts and open files. A process has an address space and a
-- context, forking copies both, and a page fault reads a mapped file through its descriptor. Devices and
-- the machine itself are not modelled.
--
-- The files, by the code that they are about:
--   Prelude and its children: names of the libraries passed on, Boolean tests, lists over the native
--     numbers, signed integers (Int), code that can fault (Fault), C arrays (Array).
--   Support.Queue: libraries/support/queue.h (p2::queue). Window, Fifo and Pad relate its two indices
--     to the list of its values.
--   Support.RingBuffer: libraries/support/ring_buffer.h. Bytes is about write, Reads about the reads.
--   Support.Pool: libraries/support/pool.h. FreeList and Inv are the invariant of the free list, the
--     others an operation each; Indices is about iteration, Store about assignment to a slot.
--   Support.FlipBuffer: libraries/support/flip_buffer.h.
--   Support.PageAlloc: libraries/support/page_alloc.h.
--   Support.UnorderedMap: libraries/support/unordered_map.h.
--   Support.FragBuffer: libraries/support/frag_buffer.h.
--   Support.String: libraries/support/string.h and string.cc. Text is about appending and copying, Number
--     about numbers, Search about comparison and search.
--   Support.Format: libraries/support/format.h.
--   Support.Utils: libraries/support/utils.cc. Copies is about what is written, Finds about what is read.
--   Support.Keyvalue: libraries/support/keyvalue.h.
--   Net.Bytes: libraries/net/utils.cc and utils.h, byte order and sums of words.
--   Net.Retryable: libraries/net/retryable.h, without its listeners.
--   Net.Arp: libraries/net/arp/protocol.cc, the mapping table only.
--   Net.Ethernet: libraries/net/ethernet/protocol.cc.
--   Net.Ipv4: libraries/net/ipv4. Datagram has the data, Receive on_receive (Refused is about
--     the packets that it drops), Tick tick, Send what is built to be sent.
--   Net.Tcp: libraries/net/tcp. Definitions (definitions.h), SendQueue (send_queue.cc), ReceiveQueue
--     (receive_queue.cc), Checksum (utils.cc), Env (the state that connections share), Connection and
--     Step (connection.cc), State (connection_state.cc), Lookup and Table (connection_table.cc) and
--     Protocol (protocol.cc).
--   Kernel.Memory: kernel/memory.cc, memory.h, memory_private.h. The module itself has the page tables,
--     Translate and MapPage are about map_page; State has the state of the whole, Areas the areas, Spaces
--     making, unmapping and forking, PageFault the faults (Dispatch is about the whole handler), writes
--     and portals, Layout the segments of the kernel and the region for pages.
--   Kernel.Process: kernel/process.cc and process_private.h. Links and Move are about doubly linked lists,
--     Queues, Queued, Moving and Suspend about the queues, Choice about the scheduler.
--   Kernel.Filesystem: kernel/filesystem.cc, filesystem.h and filesystem_private.h. Names is about directory
--     entries, Paths about lookup, Files has contexts and open files, Closing is about vfs_close.
-- The children named Tests hold the examples.
--
-- How code is modelled. A class is a record of its fields, a method a function that takes the record
-- and gives it back; an array is a function from indices to contents. Option is the result where the
-- code can fault: none is a failed assertion, an access outside an object, a variable that is read
-- but was never written, or a loop that does not end. Numbers are the native ones; the wrap of 16-
-- and 32-bit words is written out, and an int is an integer of Prelude.Int. Connections refer to one
-- another by their handles in the shared table: an operation on them is a function from Env to Env.
-- The kernel's parts are written likewise in the actions of Prelude.Stateful over their state. A switch
-- to another process ends an operation: what the code does when the process runs again is a definition of
-- its own. A pointer is the handle or the address of what it points to; the memory behind virtual
-- addresses is the list of the writes, each with the entry that its address is translated to. The answers
-- of other drivers, of the file system to a page fault, and of the linker are parameters.
-- The application's callback is a parameter, and what is given to IPv4 is appended to a list.
--
-- Bounds and fuel. Loops over an array recurse on what is left. The loop of ack takes a segment off
-- in each round and gets one round more than there are segments; the two loops of step get one round
-- more than there are segments in the queue at their start, since nothing that they call adds one
-- before they end. The fold of a sum gets five rounds, which are enough for 64 bits. The loop over
-- holes gets one round more than there are slots. An iterator of the pool gets 2^16 steps, as many
-- as it has indices. The tick of IPv4 is given its fuel from outside, since it may not end.
--
-- A loop over pages gets 2^20 rounds, as many as there are pages; loops over the queues and directory lists
-- get 2^16, as many as there are handles; a path gets a round for each character and one more.
-- The number of the digits of a number is found with as many rounds as its value, since a division lowers
-- it. The parser of attributes gets one round more than there are characters.
--
-- Not modelled: logging, the processor's registers and caches, context switches, the stacks of processes, the
-- system calls that only check pointers, the overflow of an int in retryable.h, IPv4's send with its wait
-- for ARP, ARP's messages and probes, and all that PROJECT.json lists as such with the reason.
pub mod Prelude
pub mod Support
pub mod Net
pub mod Kernel
