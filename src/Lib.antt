-- ===== src/Lib.antt =====
-- csp_proc: procedures that are stored on the nodes of a CSP network and run there.
--
-- A client builds a procedure (a list of at most 255 instructions) in a shell, packs it into a CSP packet
-- and asks a server to store it in one of 256 slots, to return it, to delete it, to list the occupied
-- slots or to run one. A run first analyses the procedure and all that it calls, and then executes it.
--
-- Files and code:
--   Types          include/csp_proc/proc_types.h: the instruction union is `Payload`, `proc_t` is `Proc`
--   Pack           src/proc_pack.c; its children: the wire format (Format), packing (Pack), unpacking
--                  (Unpack, Inverse, Failure), deep copies (Copy)
--   Store          src/store/proc_store_static.c. Map sees the store as a finite map, Slots the list of the
--                  occupied slots. Dynamic is src/store/proc_store_dynamic.c, with its pointers, and
--                  Refinement relates it to the static store. Sections are the operations access by
--                  access, Interleaving threads that call them at the same time; Exclusion is about who
--                  holds the mutex then, and Serial compares them with one call after another
--   Server         src/proc_server.c: `proc_serve` and a handler for each request. A handler gives the new
--                  store and what becomes of the packet (`Reaction`). Startup is `proc_server_init`, with the
--                  initialisers of the dynamic store and of the runtime
--   Client         src/proc_client.c: `proc_transaction` and the five requests, over any network. EndToEnd
--                  and Slots put a serving node behind it, Runs one with the threads of Threads
--   Analyze        src/proc_analyze.c: `analyze_tail_call` and `proc_analyze`; Freeing is `free_proc_analysis`, Collect
--                  is `collect_proc_slots`
--   Runtime        src/runtime/proc_runtime_instructions_POSIX.c: `proc_instructions_exec`, and
--                  `proc_runtime_call` of src/runtime/proc_runtime_instructions_common.c. Storage is
--                  `proc_instructions_exec` of src/runtime/proc_runtime_instructions_FreeRTOS.c
--   Slash          src/slash/slash_csp_proc.c: the commands that build the current procedure, and (Requests)
--                  those that send it, fetch one, or ask for a deletion, a run or a list. Context puts a
--                  serving node behind `proc pull`; Listing is `proc list`
--   Params         src/runtime/proc_runtime_instructions_common.c, first half: how a parameter is found by its
--                  name and index (Parsing), read as an operand (Operands) and written
--   Instructions   the second half: the if-else, set, unary and binary instructions, with their operators in
--                  Comparing and Operators; Block is
--                  `proc_runtime_block` of src/runtime/proc_runtime_instructions_POSIX.c, Ticks is that of
--                  proc_runtime_instructions_FreeRTOS.c, and Execution puts the handlers into the
--                  execution loop
--   Threads        src/runtime/proc_runtime_POSIX.c: `running_threads` under runs, beginnings, ends and stops of threads;
--                  Tasks is src/runtime/proc_runtime_FreeRTOS.c
--   Mutex          src/platform/proc_mutex_POSIX.c and proc_mutex_FreeRTOS.c
--   Memory         src/platform/proc_memory_FreeRTOS.c: the allocator, over blocks of bytes. Malloc, Realloc and
--                  Strings are its operations, Reach any sequence of them
--   Common         numbers, lists and bytes that the other files share
-- Tests in each directory run the code on small data and apply the theorems to it.
--
-- State: the store is a function from slots to procedures with its mutex, a packet a buffer and a length,
-- the runtime a world that its handlers change, the shell its current procedure. Every operation takes
-- the state and returns it; an error code is a value. Undefined behaviour (a read past a buffer, a
-- pointer that was never written, NULL) is a value of its own: `fault`, `undefined`, `wild`, or `none` where
-- the file says so.
--
-- Fuel: `proc_analyze` recurses through calls. Each nested analysis marks one more of 256 slots, so a
-- depth of 257 is enough for every store. `exec_loop` has a unit for each round, since a procedure that
-- calls itself may run forever; `out_of_fuel` is no outcome of the code.
-- `proc_runtime_block` has one for each round, and 20001 are enough if a sleep lasts as long as it says.
-- `collect_proc_slots` has one for each level of its recursion, which has no bound of its own.
-- Loops with a guard in the code (1000 stops, 10000 parameters) count the rounds that are left.
--
-- Outside: libcsp, slash and optparse are parameters (`Network`, `Shell`, `Net`), as are libparam
-- (`Libparam`), the operations on `double` (`Doubles`), the clock (`Clock`) and what pthread and
-- FreeRTOS answer (`RunEnv`, `ThreadEnv`, `Allocator`). The execution loop takes the handlers as an
-- interface (`Handlers`), the server the start of a run (`Run`). Not modelled: a memory that runs out
-- elsewhere than in the push handler, in `proc new`, in the start of a run, in the initialisers and in
-- the allocator of FreeRTOS; the freeing of what is used no more, but for that of an analysis; the
-- sharing of a stored procedure with a running one or with a caller of `get_proc`, which here gets the
-- procedure for its address; simultaneous requests to run a procedure, between the test of the count
-- of `proc_runtime_run` and its critical section; a size of a procedure that no `int` holds; the state
-- behind undefined behaviour, for which the value that is written beside it
-- means nothing; the wrappers of the C library's allocator; a node with ten interfaces or more; what is
-- printed, but for the lines of `proc list`.
pub mod Common
pub mod Types
pub mod Pack
pub mod Store
pub mod Server
pub mod Client
pub mod Analyze
pub mod Runtime
pub mod Slash
pub mod Params
pub mod Instructions
pub mod Threads
pub mod Memory
pub mod Mutex
