-- ===== src/Lib.antt =====
-- ccRPC, a small RPC runtime in C: a client calls a method by name through a transport, the other
-- node parses the parameters, runs the method's handler and sends the result back.
--
-- How the parts interact. The stubs that the macros of ccrpc/source/rpc_gen.c make write their
-- parameters as TLV fields (ccrpc/source/rpc_tlv.c) and call `rpc_call_with_tlv` of
-- ccrpc/source/rpc.c. It looks the transport up in a hash map (lib/source/hashmap.c), takes a new
-- sequence number, allocates a pending call, sends a request and waits. `rpc_on_data` gets bytes
-- from a transport, puts them together to messages and dispatches each: `rpc_handle_request` runs a
-- registered method and sends a response, `rpc_handle_response` fills in the pending call and wakes
-- its thread, which then removes the call. The pools and regions of mg/ stand beside this.
--
-- Which file models what:
--   Base: names of the libraries, list and number lemmas, and `Outcome`: a C function returns
--     (`done`), reports failure or blocks (`refuse`), or has undefined behaviour (`fault`).
--   Tlv: ccrpc/source/rpc_tlv.c, one function each; a buffer is the list of its bytes.
--   Gen: the macro bodies of ccrpc/source/rpc_gen.c, over a list of fields.
--   Wire: ccrpc/include/common.h and the header of ccrpc/include/rpc.h.
--   Reasm: `rpc_reasm_*` and the loop of `rpc_on_data`; Reasm/Frames is the specification.
--   HashMap: lib/source/hashmap.c; the key type is an instance (HashMap/Keys).
--   Rpc: the rest of ccrpc/source/rpc.c, and the lock, waiter and clock of
--     ccrpc/source/rpc_port.c. Rpc/State has the static data as one record, with the memory of the
--     pending calls by address and a log of what is sent and freed; Rpc/Invariant says when it is valid,
--     Rpc/Steps makes a step relation of the operations, Rpc/Exchange puts the two nodes together.
--   Heap: mg/source/heap.c; Heap/Blocks says when the blocks are in order and which bytes they cover,
--     Heap/Laws when the heap is valid, and Heap/Steps takes any sequence of calls.
--   Rbtree: lib/source/rbtree.c. A subtree is a value, and a node with its parent pointers is a
--     subtree with the way up from it; Rbtree/Order has the entries in order, Rbtree/Balance the rules.
--   Radix: lib/source/radix.c, with the 4 bits a level of lib/include/radix.h; whether there is memory for a
--     node is a function of the number of nodes. Radix/Valid says when a tree is valid and which map it
--     stands for, Radix/Steps takes any sequence of calls.
--   Memalloc: mg/source/memalloc.c, over Rbtree; the ring of blocks is a list. The value of a tree node is
--     kept in the tree and in the block; mem_free raises it just before the node leaves the tree.
--   Membit: mg/source/membit.c. Region: mg/source/mg_alloc.c and what it uses of lib/include/math.h.
--   Tests: the theorems at concrete inputs.
--
-- Memory. In the runtime `heap_malloc` is an argument: a function of the number of the call
-- and the size, or a Bool, that says whether memory is granted. Sizes of structs are those of
-- a 64-bit platform. Callbacks of a method are functions from bytes to a result code and
-- bytes. One that leaves more than the 4096 bytes of its static buffer, a method name that
-- overflows its own, a read past a message and a wrapped size in the second heap are faults.
-- Names, which the tables keep as pointers, are values: the model assumes that a name stays as
-- it is once it is registered.
--
-- Fuel. The loop of `rpc_on_data` gets one round more than the buffer has bytes, since a round takes
-- twelve bytes at least; the search for a sequence number gets one try more than there are pending
-- calls; the fold of the checksum gets three rounds, as a 32-bit sum needs no more. That these are
-- enough is part of the theorems.
--
-- Concurrency. `rpc_call_with_tlv` is modelled in two parts, before and after its wait, and the
-- lock is a flag: what other threads do comes between the parts. A handler that calls back into the
-- runtime is not modelled, nor is a spurious error of pthread.
--
-- Not modelled: the linked pools, the list, queue and stack
-- of lib/, lib/include/compare.h, the debug dumps, the TCP transport and the
-- example nodes, which are input and output; the free and register macros of rpc_gen.c.
-- `tlv_write_i32`, which rpc_gen.c calls and no file defines, is an argument that is assumed to
-- write like `tlv_write_u32`.
pub mod Base
pub mod Tlv
pub mod Gen
pub mod Wire
pub mod Reasm
pub mod HashMap
pub mod Rpc
pub mod Membit
pub mod Region
pub mod Heap
pub mod Rbtree
pub mod Radix
pub mod Memalloc
pub mod Tests
