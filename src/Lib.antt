-- ===== src/Lib.antt =====
-- A model of atrace, a tracer that patches break instructions into a running program and sees its threads trap on them.
--
-- The repository holds two designs. signal_test/ is a library that is loaded into the traced program: it reads
-- /proc/self/maps, patches code, and runs the replaced instruction in a slot, where a second break instruction brings the
-- thread back. src/ is an earlier tracer over ptrace.
--
--   Prelude    what the modules share: tests, lists, the outcomes of a C function (a value or a fault), bits of words
--   Linux      the interface of the kernel's list code (signal_test/list.h, include/list.h)
--   ThreadMap  signal_test/thread.c: the hash map from thread ids to threads
--   BpTree     signal_test/breakpoint.c: search, insertion and removal in the tree of breakpoint entries; the
--              rebalancing of signal_test/rbtree.c is the interface `RbOps`
--   Slot       signal_test/breakpoint.c: the sets of instruction slots with their bit maps
--   Object     signal_test/object.c: the parser of /proc/self/maps, the list of objects, the entry point
--   Breakpoint signal_test/breakpoint.c: breakpoints, which join an object, the tree, a slot and the patched code;
--              Breakpoint.Code has the patched code, with object_memory_lock and object_memory_unlock of
--              signal_test/object.c, and Breakpoint.Calls any sequence of calls
--   ErrorCode  include/error.h and src/error.c: error codes and their messages
--   Hook       signal_test/hook_main.c: the handlers of SIGTRAP and the setup of the library; Hook.Schedule has the traps
--              of several threads in any order, as a step relation
--   Tracer     src/breakpoint.c and src/arch-x86/breakpoint.c: the breakpoints of the ptrace design; Tracer.Maps is
--              src/object.c, its list of objects
--   TracedThreads src/thread.c and src/arch-x86/thread.c: the threads of the ptrace design, stopped, run and waited for
--   Profiler   src/atrace.c: `run_profiler`, which joins the parts of the ptrace design
--
-- A function of the source has its name here. State is passed on explicitly; `Run` tells a value from a fault (an
-- assertion, an abort, a NULL pointer that is followed, a read or write out of bounds); the `int` results 0 and -n are
-- `success` and `minus n`. Each function takes its locks and releases them before it returns, so a call is one step.
-- Pointers to breakpoints and to objects are positions in their lists, which only grow; a slot set has its address, and a
-- thread its id.
-- Memory is a function: from the address of an instruction to its word of 32 bits in Breakpoint, and from an address to
-- its byte in Tracer.
--
-- Loops are structural where the source walks a list or an array. Two have fuel: `parse_loop` gets one round more than
-- the text has bytes, which is enough as each turn takes a byte; `slot_alloc` tries again once after adding a set, which
-- has room. The loops over `read` and over an interrupted `waitpid` go through a list of results, which stands for as many as
-- there are; a run out of results is a fault of the model's own.
--
-- Parameters of the model, as their code is not the program's: the list and tree code of the kernel, calloc, malloc,
-- strndup, realloc, mmap, mprotect, readlink, the results of read and of opening files, kill, waitpid, and what ptrace
-- does with a thread.
--
-- Not modelled: printing, the time of day, a `sigaction` that fails (for SIGTRAP it does not), the loop of
-- `run_profiler` behind its first wait (it is never reached, and its end names variables that do not exist; it is a
-- parameter), the state that the step over the entry point stores in the thread (a stop, as before it), `main` of
-- src/atrace.c, which forks and calls `run_profiler`, `arch_get_return_pc`, which has no body to speak of, the test
-- programs, and the empty files src/context.c and src/dwarf_parser.c. `thread_wait` of src/thread.c is modelled with
-- the pid that its body and its callers name.
pub mod Prelude
pub mod Linux
pub mod ThreadMap
pub mod BpTree
pub mod Slot
pub mod Object
pub mod Breakpoint
pub mod ErrorCode
pub mod Hook
pub mod Tracer
pub mod TracedThreads
pub mod Profiler
