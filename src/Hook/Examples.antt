-- ===== src/Hook/Examples.antt =====
-- Runs of the handlers, and their theorem at a concrete input.
use atrace.Prelude.{
  ℕ, set, sym, ap, ◌∙◌, arith, ok_inj, ◌≡◌, refl, true, false, none, some, [], ◌∷◌, replicate, ok,
  fault, Fault,
}
use atrace.Linux.{plain_lists}
use atrace.ThreadMap.{Thread, ThreadMap, thread_map_init}
use atrace.ThreadMap.Find.{view, find-view}
use atrace.Hook.Store.{new_thread}
use atrace.ThreadMap.Laws.{thread_map_init-IsValid}
use atrace.Object.{Object}
use atrace.Object.Maps.{bytes, eof, object_load}
use atrace.BpTree.{node, red, null, breakpoint_rb_find, breakpoint_rb_find_internal}
use atrace.Slot.{new_set}
use atrace.Breakpoint.{Breakpoint, World, breakpoint_find, find_set, slot_of}
use atrace.Hook.{
  Process, Runtime, Loader, Handler, entrypoint_trap, sigtrap, sigtrap_handler,
  entrypoint_trap_handler, deliver,
}
use atrace.Hook.Cycle.{Trapped, sigtrap_handler-cycle, stepping_of}
use atrace.Hook.Schedule.{trap, start, behind, Inv, Traps-Inv, stepping_thread_returns}
use atrace.Hook.EntryPoint.{Stores, entrypoint_trap_handler-cycle}
use mathlib.Core.Option.{get_or as or_else}

abbrev runtime : Runtime
runtime = record { thread_lists = plain_lists; calloc = true }

-- A breakpoint at 1500 with its slot at 0x10000.
abbrev bkpt : Breakpoint
bkpt = record {
  attr = 1;
  bp_enter = record { address = 1500; bkpt = 0; rb_empty = false };
  bp_return = record { address = 0x10004; bkpt = 0; rb_empty = false };
  slot_set = some 100;
  slot_index = 0;
  obj = some 0;
  chained = true;
}

abbrev world : World
world = record {
  objects = [];
  breakpoints = bkpt ∷ [];
  tree = node red null bkpt.bp_enter (node red null bkpt.bp_return null);
  slot_sets = new_set 100 0x10000 ∷ [];
  memory = λ a. 0;
  writable = λ a. false;
  cleared = [];
}

abbrev heads : ThreadMap
heads = replicate 64 []

abbrev process : Process
process = record {
  world = world;
  threads = thread_map_init heads;
  handler = sigtrap;
  entry_bp = none;
  entry_hit = false;
}

-- A trap where no breakpoint stands stops the program.
stray : sigtrap_handler runtime 7 1501 process ≡ fault Fault.assertion
unfolding sigtrap_handler thread_map_init atrace.Hook.current_thread
    atrace.ThreadMap.thread_map_find atrace.ThreadMap.thread_map_find_internal
    atrace.ThreadMap.chain_at atrace.ThreadMap.scan atrace.ThreadMap.thread_new
    atrace.ThreadMap.thread_map_add breakpoint_find breakpoint_rb_find breakpoint_rb_find_internal
stray = refl

sigtrap_handler-cycle_example :
    (s' : Process) × (s'' : Process) × (sigtrap_handler runtime 7 1500 process ≡ ok (s', 0x10000))
    × (sigtrap_handler runtime 7 0x10004 s' ≡ ok (s'', 1504))
    × Trapped 7 (some 0) process s'
    × Trapped 7 none s' s''
unfolding breakpoint_find breakpoint_rb_find breakpoint_rb_find_internal slot_of find_set
    atrace.ThreadMap.scan thread_map_init
sigtrap_handler-cycle_example =
    sigtrap_handler-cycle runtime refl 7 1500 0x10004 0 bkpt (new_set 100 0x10000) process
      (thread_map_init-IsValid heads refl).0 (record { found = refl; held = refl; slots = refl })
      (record { found = refl; held = refl; slots = refl }) refl

-- The threads 7 and then 8 reach the breakpoint.
abbrev stepper : ℕ → Thread
stepper thread_id = record { tid = thread_id; singlestep_bp = some 0; list_empty = false }

abbrev one_in_slot : Process
one_in_slot = record process { threads = set heads 7 (stepper 7 ∷ []) }

abbrev two_in_slot : Process
two_in_slot = record process { threads = set (set heads 7 (stepper 7 ∷ [])) 8 (stepper 8 ∷ []) }

process-Inv : Inv process
process-Inv = record {
  valid = (thread_map_init-IsValid heads refl).0;
  stepping = λ j p e.
      let none_found : view process.threads j ≡ none = ok_inj (
        sym (find-view process.threads j (thread_map_init-IsValid heads refl).0.width)
        ∙ (thread_map_init-IsValid heads refl).1 j) in
      let idle : stepping_of process.threads j ≡ none =
        ap (λ u. (or_else u (new_thread j)).singlestep_bp) none_found in
      absurd (ground arith);
}

first : sigtrap_handler runtime 7 1500 process ≡ ok (one_in_slot, 0x10000)
unfolding sigtrap_handler atrace.Hook.current_thread atrace.ThreadMap.thread_map_find
    atrace.ThreadMap.thread_map_find_internal atrace.ThreadMap.chain_at thread_map_init
    atrace.ThreadMap.scan atrace.ThreadMap.thread_new atrace.ThreadMap.thread_map_add
    breakpoint_find breakpoint_rb_find breakpoint_rb_find_internal slot_of find_set
    atrace.Hook.replace
first = refl

second : sigtrap_handler runtime 8 1500 one_in_slot ≡ ok (two_in_slot, 0x10000)
unfolding sigtrap_handler atrace.Hook.current_thread atrace.ThreadMap.thread_map_find
    atrace.ThreadMap.thread_map_find_internal atrace.ThreadMap.chain_at atrace.ThreadMap.scan
    atrace.ThreadMap.thread_new atrace.ThreadMap.thread_map_add breakpoint_find breakpoint_rb_find
    breakpoint_rb_find_internal slot_of find_set atrace.Hook.replace
second = refl

Traps-Inv_example : Inv two_in_slot × (two_in_slot.world ≡ process.world)
Traps-Inv_example =
    Traps-Inv runtime refl {P = λ k. Unit {0}} process-Inv
      (behind (behind start tt (trap 7 1500 0x10000 first)) tt (trap 8 1500 0x10000 second))

stepping_thread_returns_example :
    (t : Process) × (sigtrap_handler runtime 7 0x10004 two_in_slot ≡ ok (t, 1504))
    × (stepping_of t.threads 7 ≡ none)
    × (t.world ≡ process.world)
unfolding breakpoint_find breakpoint_rb_find breakpoint_rb_find_internal slot_of find_set
    atrace.ThreadMap.scan thread_map_init
stepping_thread_returns_example =
    stepping_thread_returns runtime refl 7 1500 0x10004 0 bkpt (new_set 100 0x10000) process
      one_in_slot two_in_slot process-Inv (record { found = refl; held = refl; slots = refl })
      (record { found = refl; held = refl; slots = refl }) refl first
      (behind start (omega arith) (trap 8 1500 0x10000 second))

-- `ab0-ac0 r-xp 0 8 12 /l`
abbrev loader : Loader
loader = record {
  object_lists = plain_lists;
  memory = record { strndup = λ p. true; calloc = λ n. true; realloc = λ n. true };
  opened = true;
  reads =
      bytes b'a' (
        b'b' ∷ b'0' ∷ b'-' ∷ b'a' ∷ b'c' ∷ b'0' ∷ b' ' ∷ b'r' ∷ b'-' ∷ b'x' ∷ b'p' ∷ b' ' ∷ b'0'
        ∷ b' ' ∷ b'8' ∷ b' ' ∷ b'1' ∷ b'2' ∷ b' ' ∷ b'/' ∷ b'l' ∷ b'\n' ∷ [])
      ∷ eof
      ∷ [];
  self = 0;
}

abbrev loaded : Object
loaded = record {
  file_name = b'/' ∷ b'l' ∷ [];
  text_start = 0xab0;
  text_end = 0xac0;
  text_attr = 11;
  breakpoint_chain = [];
}

abbrev before_entry : Process
before_entry = record process { handler = entrypoint_trap; entry_bp = some 0 }

loads :
    object_load loader.object_lists loader.memory loader.self loader.opened loader.reads []
    ≡ ok (loaded ∷ [])
unfolding object_load atrace.Object.Maps.object_get_mmap atrace.Object.Maps.read_loop
    atrace.Object.Maps.object_parse_mmap atrace.Object.Maps.parse_loop atrace.Object.Line.parse_line
    atrace.Object.Line.parse_mmap_range atrace.Object.Parse.until atrace.Object.Parse.strndup
    atrace.Object.Line.hex_or_null atrace.Object.Hex.hex_to_int atrace.Object.Line.split_dash
    atrace.Object.Hex.hex_loop atrace.Object.Hex.digit_of atrace.Object.Line.parse_mmap_attr
    atrace.Object.Line.parse_mmap_inode atrace.Object.Line.parse_file_part atrace.Object.Line.atoi
    atrace.Object.Line.decimal atrace.Object.Line.parse_mmap_file atrace.Object.Parse.skip_spaces
    atrace.Object.Maps.add_region atrace.Object.Line.attr_loop atrace.Object.Maps.exists
    atrace.Object.object_new
loads = refl

entrypoint_trap_handler-cycle_example :
    (s' : Process) × (s'' : Process) × (deliver runtime before_entry.handler loader 7 1500
        before_entry
      ≡ ok (s', 0x10000))
    × (deliver runtime s'.handler loader 7 0x10004 s' ≡ ok (s'', 1504))
    × Stores 7 (some 0) before_entry.threads s'.threads
    × Stores 7 none s'.threads s''.threads
    × (s''.world ≡ record world { objects = loaded ∷ [] })
    × (s''.handler ≡ sigtrap)
unfolding slot_of find_set
entrypoint_trap_handler-cycle_example =
    entrypoint_trap_handler-cycle runtime refl loader 7 1500 7 0x10004 0 bkpt (new_set 100 0x10000)
      (loaded ∷ []) before_entry (thread_map_init-IsValid heads refl).0
      (record { entry = refl; held = refl; slots = refl }) refl refl loads
