-- ===== src/Lib.antt =====
-- Verification of modern-cpp-ds: concurrent data structures, locks, containers and small routines,
-- each written from scratch. The parts of the program do not call each other, so each has a module
-- of its own; Common holds what they share.
--
-- Files and what they model (paths from the root of the repository):
--   Peterson       peterson.cpp: enter and exit (access), enter_region and leave_region
--                  (region_access), two processes, one shared access at a time.
--   Spsc           concurrent_structures/spsc_lockfree.cpp: SPSC::push, SPSC::pop and ~SPSC
--                  (destroy). The state is the ring with raw and live slots, head_, tail_, the place
--                  of both threads, and a history of the values sent and received.
--   Stack          concurrent_structures/stack_lockfree.cpp, namespaces exception and mem_leak: push
--                  and pop on a heap of nodes (move), for any number of threads. compare_exchange_weak
--                  may fail without reason. The abstract stack is a list (Stack/Refine).
--   Stack/LowContention  the same file, namespace low_contention: push, pop and try_reclaim (move), one
--                  access at a time for any number of threads, with the count of threads in pop and the list
--                  of nodes to be deleted. Inv has the place of every node: in the stack, on the list, held
--                  by a thread while others may read it, or claimed by one that nobody else may read; Change
--                  says how a move may change the place of a node.
--   Deferred       the same namespace: try_reclaim by itself, run by one thread; what other threads do
--                  between its accesses is a parameter.
--   Hazard         the same file, namespace hazard_ptr: the table of hazard pointers, the reclaim list
--                  and the end of pop, run by one thread while the others stand still.
--   Stack/HazardStack  the same namespace: push and pop over the hazard pointers (move), one access at a
--                  time, from any number of slots and of threads without a slot. Inv says who owns, guards and
--                  scans which node, Change what a move must show to keep it. Threads has the threads
--                  (thread_move): hp_owner() at the first pop, and ~hp_owner() at the exit, one store at a
--                  time; Orderly says that no thread comes to a slot between these two stores. calls are
--                  the accesses that the threads make to the stack.
--   MpmcLock       concurrent_structures/mpmc_lock.cpp: each function runs under the mutex and is one
--                  step; a condition variable holds the threads that sleep and those it has woken.
--   MpmcLockfree   concurrent_structures/mpmc_lockfree.cpp: enqueue and dequeue with their sequence
--                  numbers (move), for any number of threads and the capacity 2048. The abstract queue is
--                  a list (MpmcLockfree/Refine).
--   Mutex          concurrent_structures/mutex.cpp: prat::mutex (Flag), fairlock::mutex (Fair) and
--                  optimised_spinlock::mutex (Spin), for any number of threads.
--   Mmu            memory_management_unit.cpp: Address_Lookup (address_lookup) and what it calls. The
--                  memory, the sizes of the two structs and CR3 are a parameter (Machine).
--   Vector         dsa_from_scratch/data_structures/vector.cpp: prat::vector on a heap of blocks; an
--                  access to freed or raw memory is the result fault, and the heap counts the objects that
--                  stand in a block when it is given back (leaked). Life has a client that makes a
--                  vector, calls it and destroys it (lives).
--   ThreadPool     c++_features_experiment/threadpools.cpp: submit_job (push_job, notify_one), do_work and
--                  ~threadpool (destroy); what runs under the mutex is one step.
--   TsQueue        c++_features_experiment/threadsafe_queue.cpp: add_elem, wait_and_pop and empty.
--   SmallString    dsa_from_scratch/data_structures/string.cpp: the four constructors (empty, create, copy,
--                  move) on the union buffer and a heap of arrays.
--   Mempool        c++_features_experiment/mempool.cpp: Pool with its free list; an access outside of the
--                  array or to the wrong member of the union is undefined.
--   Arena          c++_features_experiment/arena_allocator.cpp: malloc; std::align is a parameter, with its
--                  documented behaviour as the record Aligns.
--   TmpSort        c++_features_experiment/template_metaprogramming.cpp: inbubsort; Reference has an insertion
--                  sort to compare it with.
--   Find           dsa_from_scratch/stl_algorithms/single_pass.cpp: find.
--   Search         c++_features_experiment/branchless_binary_search.cpp: the loop of main.
--   Memmove        prac.cpp: memmove.
--
-- Numbers: size_t and the 32-bit types keep their wrap-around, written % 2 ^ 64 and % 2 ^ 32. What is
-- said of the single-producer queue and of the stack that counts its threads in pop is about fewer than
-- 2 ^ 64 accesses, what is said of the lock-free queue for any number of threads about fewer than
-- 2 ^ 62, and what is said of the ticket lock about fewer than 2 ^ 31, so that no counter wraps. What is
-- said of the vector is about fewer than 2 ^ 62 calls, so that its capacity, which doubles, does not wrap;
-- its other sizes count slots of blocks that are there, and the byte counts of its allocations are not
-- modelled. Memory is sequentially consistent: the weaker orders that the code asks for are not
-- modelled.
--
-- Fuel: the loop of ~SPSC has 1025, one more than a full ring needs. The binary search has the number of
-- elements. Address_Lookup takes any amount, which bounds the depth of its retries. inbubsort has the
-- number of its instantiations, which TmpSort/Sort computes from its first argument.
--
-- Not modelled: exceptions of element types and of jobs, and failing allocation; unique_ptr.cpp, whose
-- class cannot be instantiated as it is written, and reader_writer.cpp, where a thread unlocks a
-- std::mutex that another one has locked, which is undefined; trace.h,
-- the iterator traits, jthread_impl.cpp and the other experiments, which have no state of their own;
-- what the programs print; the system call in futex_wait.
pub mod Common
pub mod Hazard
pub mod Search
pub mod Deferred
pub mod Memmove
pub mod Peterson
pub mod MpmcLockfree
pub mod Mutex
pub mod MpmcLock
pub mod Vector
pub mod Stack
pub mod ThreadPool
pub mod Find
pub mod TsQueue
pub mod Arena
pub mod TmpSort
pub mod SmallString
pub mod Mempool
pub mod Spsc
pub mod Mmu
