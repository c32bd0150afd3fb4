-- ===== src/Lib.antt =====
-- The model of c-embedded-utils, a C library of containers, allocators, a state machine, an event
-- publisher and packing functions for embedded systems that allocate nothing at run time. Every
-- component keeps its data in storage that the caller declares.
--
-- The parts and their files (paths from the repository's root; each header include/cemb/X.h goes
-- with its X.c):
--   Common               list, bit and `size_t` helpers; it models no file
--   ErrorCode            include/cemb/error_codes.h, the codes that every other part returns
--   PtrStack             src/collections/ptr_stack.c
--   PoolAllocator        src/mem_alloc/i_pool_allocator.c, the interface as a record of functions, and
--                        the contract that its implementations keep and its clients use
--   StaticPool           src/mem_alloc/static_pool.c: the free blocks are kept on a PtrStack, and
--                        `as_i_pool_allocator` fills the record of PoolAllocator
--   CircularBuffer       src/collections/circular_buffer.c
--   NumericOps           src/operations/numeric_ops.c
--   FastCircularBuffer   src/collections/fast_circular_buffer.c, whose check of the configuration
--                        calls NumericOps
--   CopyQueue            src/collections/copy_queue.c
--   BoundedHeap          src/collections/bounded_heap.c
--   BsearchIter          src/search_algos/bsearch_iter.c
--   BitOps               src/operations/bit_ops.c
--   Pack                 src/struct_pack/pack.c
--   LePack               src/struct_pack/le_pack.c: every function asks Pack whether the value fits;
--                        its Fields is a client that packs several values behind each other, or
--                        unpacks them
--   SimpleFsm            src/simple_fsm/simple_fsm.c
--   EventPublisher       src/events/static_event_publisher.c
-- A file that carries a component's name holds its struct as a record with the source's fields, and
-- one function for each C function under its name without the prefix (`ptr_stack_push` is
-- `PtrStack.push`). Its children hold the proofs (Refine: the refinement of an abstract container;
-- Run: whole sequences of calls) and its Tests the runs on concrete values. Clients are written where
-- a component is meant for a loop of calls: StaticPool.Client, LePack.Fields, BsearchIter.Loop and, for
-- the array of integers of include/cemb/bsearch_iter.h, BsearchIter.Array, and BoundedHeap.Serve.
-- SimpleFsm.Trace wraps the callbacks of any machine so that each call leaves a mark with the place of
-- its callback set in the array, and
-- SimpleFsm.Session runs the starts, events and forced stops of a machine with such callbacks.
--
-- Conventions. `size_t` has 64 bits and its sums wrap (`add_size`, `sub_size`, `mul_size`). An array
-- is a list inside the struct that points to it, so two structs never share one, and a copied struct
-- would not share it either. An access outside of an array is undefined behaviour in C: the access,
-- and the run that makes it, is `none`. A function takes the struct and returns the changed one; an
-- out-parameter is returned as an option, `none` where the C function does not write it. Pointers to
-- structs and out-parameters are not NULL, as the asserts of the source demand. `memcpy` works
-- between arrays that do not overlap. Signed integers are ℤ with the wrap written out, also for a
-- shift into the sign bit, as compilers for the two's complement have it.
--
-- An `int32_t` of the binary search is a ℤ, and a result outside its range is `none`, since a signed
-- overflow is undefined in C.
--
-- Loops. The loop of `simple_fsm_resolve_transitions` runs on fuel, two more than
-- `max_transition_count`: each round but the last makes a transition, and the limit on transitions
-- ends the loop, so this is enough. The two loops of the bounded heap run on fuel too: one more than
-- the index of the new element, which falls with each round, and one more than the number of
-- elements, below which the index rises with each round. The loop of a client of the binary search
-- has one more round than there are indices. The other loops count down from the bound of the C loop. The
-- callbacks of the state machine and of the event publisher are arbitrary functions on a state that
-- the caller chooses; they do not call the object that calls them.
--
-- The comparison of a heap is a function of the two elements. What is said of the heap order supposes
-- that it asks for no pair to be swapped both ways, and that what it keeps is transitive.
--
-- A configuration of a pool is sized if its blocks have a size and are at least one, their sizes
-- together do not overflow and fit the buffer, the buffer is inside the address space and not at NULL,
-- and the stack has a slot for each block. A machine is valid if its limit on transitions is above 0, its
-- initial state and its state exist, and the array has a callback set for each state.
--
-- The clients of the pool (StaticPool.Client, PoolAllocator.Contract) give back only blocks that they
-- hold: the code takes back any pointer but NULL while not all its blocks are free, also one that has
-- been given back before, which it then hands out twice. The client of a binary search passes a last
-- index below INT32_MAX: one more than the last index has to be an `int32_t`.
--
-- Not modelled: the unit tests under tests, and the build, documentation and third-party files, which
-- hold no logic of the library.
pub mod Common
pub mod ErrorCode
pub mod PtrStack
pub mod PoolAllocator
pub mod StaticPool
pub mod CircularBuffer
pub mod FastCircularBuffer
pub mod NumericOps
pub mod Pack
pub mod LePack
pub mod SimpleFsm
pub mod EventPublisher
pub mod CopyQueue
pub mod BoundedHeap
pub mod BsearchIter
pub mod BitOps
