-- ===== src/Hook.antt =====
-- signal_test/hook_main.c: the two handlers of SIGTRAP and the setup of the library. A handler gets the id of
-- the thread and the program counter of its context, and gives the counter that the thread goes on with. Each takes its
-- locks and releases them, so a trap is one step.
pub mod Placing
pub mod Store
pub mod Cycle
pub mod Traps
pub mod Schedule
pub mod EntryPoint
pub mod Setup
mod Examples
use atrace.Prelude.{
  ℕ, zero, suc, ◌+◌, ◌%◌, ◌^◌, ◌≡◌, Bool, true, false, Option, none, some, List, [], ◌∷◌, ◌==◌,
  if◌then◌else◌, get_or, set, Run, ok, fault, Fault, check, ◌>>=◌, ◌>>◌, Status, success, minus,
}
use atrace.Linux.{ListOps}
use atrace.ThreadMap.{
  Thread, Chain, ThreadMap, bucket_of, thread_map_init, thread_new, thread_map_find, thread_map_add,
}
use atrace.Object.{Object}
use atrace.Object.Maps.{Memory, ReadResult, object_load}
use atrace.Object.Entry.{Files, object_get_self_entrypoint}
use atrace.Slot.{bp_get_slot_offset}
use atrace.Breakpoint.{
  Breakpoint, World, Machine, breakpoint_new, breakpoint_find, breakpoint_add, deref, slot_of,
}
use atrace.Breakpoint.Code.{breakpoint_enable}

-- The function that `sigaction` was last given.
pub data Handler : Type 0 where
  entrypoint_trap sigtrap : Handler

pub record Process : Type 0 where
  pub world : World
  pub threads : ThreadMap
  pub handler : Handler
  pub entry_bp : Option ℕ
  pub entry_hit : Bool

-- What a handler calls outside the source: the list code, and whether `calloc` finds memory.
pub record Runtime : Type 0 where
  pub thread_lists : ListOps Thread
  pub calloc : Bool

-- What loading the objects calls outside the source: the list code, memory, whether the maps can be opened, what is read
-- of them, and the address of the parser.
pub record Loader : Type 0 where
  pub object_lists : ListOps Object
  pub memory : Memory
  pub opened : Bool
  pub reads : List ReadResult
  pub self : ℕ

-- A store through a pointer to a thread object: the object in the chain changes.
unfoldable pub replace : Thread → Chain → Chain
replace t [] = []
replace t (u ∷ c) = let rest = replace t c in if u.tid == t.tid then t ∷ c else u ∷ rest

abbrev pub store_thread : Thread → ThreadMap → ThreadMap
store_thread t m = set m (bucket_of t.tid) (replace t (get_or m (bucket_of t.tid) []))

-- The object that was added, as its pointer shows it afterwards.
abbrev pub behind_add : Thread → ThreadMap × Status → ThreadMap × Thread
behind_add t (m, success) = (m, record t { list_empty = false })
behind_add t (m, minus n) = (m, t)

module _ (runtime : Runtime) where
  -- The start of both handlers: the thread object, made if there is none.
  abbrev pub found_or_new : ℕ → ThreadMap → Option Thread → Run (ThreadMap × Thread)
  found_or_new thread_id m (some thread) = ok (m, thread)
  found_or_new thread_id m none = do
    thread ← thread_new runtime.calloc
    let named : Thread = record thread { tid = thread_id }
    added ← thread_map_add runtime.thread_lists m named
    ok (behind_add named added)

  unfoldable pub current_thread : ℕ → ThreadMap → Run (ThreadMap × Thread)
  current_thread thread_id m = thread_map_find m thread_id >>= found_or_new thread_id m

-- Is this the second trap of the breakpoint, behind its slot?
abbrev pub single_step : ℕ → Breakpoint → Process → Thread → Option ℕ → Run (Process × ℕ)
single_step bp bkpt s thread (some stepped) = check (stepped == bp) >>= λ _. ok (
  record s { threads = store_thread (record thread { singlestep_bp = none }) s.threads },
  (bkpt.bp_enter.address + 4) % 2 ^ 64,
)
single_step bp bkpt s thread none = slot_of bkpt.slot_set s.world.slot_sets >>= λ slots. ok (
  record s { threads = store_thread (record thread { singlestep_bp = some bp }) s.threads },
  bp_get_slot_offset slots bkpt.slot_index,
)

-- `breakpoint_find`, whose result the handler asserts.
abbrev pub asserted : Option ℕ → Run ℕ
asserted none = fault Fault.assertion
asserted (some p) = ok p

module _ (runtime : Runtime) where
  unfoldable pub sigtrap_handler : ℕ → ℕ → Process → Run (Process × ℕ)
  sigtrap_handler thread_id pc s = do
    current ← current_thread runtime thread_id s.threads
    bp ← asserted (breakpoint_find s.world pc)
    bkpt ← deref s.world.breakpoints bp
    single_step bp bkpt (record s { threads = current.0 }) current.1 current.1.singlestep_bp

  -- The part of `entrypoint_trap_handler` behind `assert(entry_bp != NULL)`.
  abbrev pub entry_step : Loader → ℕ → Breakpoint → Process → Thread → Bool → Run (Process × ℕ)
  entry_step loader entry bkpt s thread true = ok (
    record s {
      handler = sigtrap;
      threads = store_thread (record thread { singlestep_bp = none }) s.threads;
    },
    (bkpt.bp_enter.address + 4) % 2 ^ 64,
  )
  entry_step loader entry bkpt s thread false = do
    objects ←
        object_load loader.object_lists loader.memory loader.self loader.opened loader.reads
          s.world.objects
    slots ← slot_of bkpt.slot_set s.world.slot_sets
    ok (
      record s {
        world = record s.world { objects = objects };
        entry_hit = true;
        threads = store_thread (record thread { singlestep_bp = some entry }) s.threads;
      },
      bp_get_slot_offset slots bkpt.slot_index,
    )

  unfoldable pub entrypoint_trap_handler : Loader → ℕ → ℕ → Process → Run (Process × ℕ)
  entrypoint_trap_handler loader thread_id pc s = do
    current ← current_thread runtime thread_id s.threads
    entry ← asserted s.entry_bp
    bkpt ← deref s.world.breakpoints entry
    entry_step loader entry bkpt (record s { threads = current.0 }) current.1 s.entry_hit

  -- A SIGTRAP goes to the handler that is set.
  unfoldable pub deliver : Handler → Loader → ℕ → ℕ → Process → Run (Process × ℕ)
  deliver entrypoint_trap loader thread_id pc s = entrypoint_trap_handler loader thread_id pc s
  deliver sigtrap loader thread_id pc s = sigtrap_handler thread_id pc s

-- A status other than 0 makes `lib_init` abort.
abbrev pub or_abort {ℓ} : {A : Type ℓ} → A × Status → Run A
or_abort (a, success) = ok a
or_abort (a, minus n) = fault Fault.aborted

abbrev pub at_address : ℕ → Breakpoint → Breakpoint
at_address addr bkpt = record bkpt { bp_enter = record bkpt.bp_enter { address = addr } }

-- A breakpoint is made, its address set, and it is added and enabled.
unfoldable pub place : Machine → Bool → ℕ → World → Run (World × ℕ)
place m calloc addr w = do
  made ← breakpoint_new calloc w
  bkpt ← deref made.0.breakpoints made.1
  let aimed : World = record made.0 {
    breakpoints = set made.0.breakpoints made.1 (at_address addr bkpt);
  }
  added ← breakpoint_add m made.1 aimed >>= or_abort
  enabled ← breakpoint_enable m made.1 added >>= or_abort
  ok (enabled, made.1)

-- `entry_bp->obj->text_start`
unfoldable pub start_of_object : Option ℕ → List Object → Run ℕ
start_of_object none objects = fault Fault.null_deref
start_of_object (some i) objects = deref objects i >>= λ obj. ok obj.text_start

-- `lib_init`. It sets the handler of the entry point first; the second breakpoint is at a fixed offset in the object of the
-- first.
unfoldable pub lib_init : Machine → Bool → Loader → Files → Process → Run Process
lib_init m calloc loader files s = do
  objects ←
      object_load loader.object_lists loader.memory loader.self loader.opened loader.reads
        s.world.objects
  entry_point ← object_get_self_entrypoint files objects
  first ← place m calloc entry_point (record s.world { objects = objects })
  bkpt ← deref first.0.breakpoints first.1
  text_start ← start_of_object bkpt.obj first.0.objects
  second ← place m calloc ((text_start + 0xdac) % 2 ^ 64) first.0
  ok (record s {
    world = second.0;
    threads = thread_map_init s.threads;
    handler = entrypoint_trap;
    entry_bp = some first.1;
  })
