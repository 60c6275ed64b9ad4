-- ===== src/Profiler/Examples.antt =====
-- Runs of `run_profiler`, and its theorem at a concrete input.
use atrace.Prelude.{
  ◌≡◌, refl, true, false, none, some, [], ◌∷◌, ◌==◌, if◌then◌else◌, replicate, ok, fault, Fault,
  leb,
}
use atrace.Linux.{plain_lists}
use atrace.Object.Maps.{bytes, eof}
use atrace.Object.Entry.Elf64.{elf64}
use atrace.Tracer.{Tracer}
use atrace.Tracer.Maps.{object_get_exe}
use atrace.TracedThreads.{TracedThread, Kernel, waited, wcontinued, thread_get_by_pid}
use atrace.Profiler.{Profilee, run_profiler}

-- The system lets a thread go on, and its next stop is by SIGTRAP.
abbrev kernel : Kernel
kernel = record {
  kill = λ pid. none;
  cont = λ pid signal. none;
  singlestep = λ pid. true;
  waitpid = λ pid option. if option == wcontinued then waited 0xffff ∷ [] else waited 0x57f ∷ [];
}

-- `ab0-ac0 r-xp 0 8 12 /l`, with an entry point 8 bytes behind its start.
abbrev env : Profilee
env = record {
  object_lists = plain_lists;
  breakpoint_lists = plain_lists;
  list_del = λ p chain. [];
  memory = record { strndup = λ p. true; calloc = λ n. true; realloc = λ n. true };
  calloc = true;
  opened = true;
  reads =
      bytes b'a' (
        b'b' ∷ b'0' ∷ b'-' ∷ b'a' ∷ b'c' ∷ b'0' ∷ b' ' ∷ b'r' ∷ b'-' ∷ b'x' ∷ b'p' ∷ b' ' ∷ b'0'
        ∷ b' ' ∷ b'8' ∷ b' ' ∷ b'1' ∷ b'2' ∷ b' ' ∷ b'/' ∷ b'l' ∷ b'\n' ∷ [])
      ∷ eof
      ∷ [];
  opened_again = false;
  reads_again = [];
  files = record {
    readlink = some (b'/' ∷ b'l' ∷ []);
    malloc_path = some (replicate 8 0);
    strdup = true;
    contents = λ name. some (elf64 8 (replicate 20 1) []);
    malloc_header = true;
  };
  to_entry = kernel;
  at_entry = kernel;
  behind_entry = kernel;
  ran = λ memory a. memory a;
  stepper = record { arch_set_thread_pc = λ pc. true; thread_single_step = λ memory. some memory };
}

-- Code of no-ops, with nothing in the first page.
abbrev tracer : Tracer
tracer = record { memory = λ a. 0x90; mapped = λ a. leb 0xab0 a; breakpoints = []; objects = [] }

abbrev leader : TracedThread
leader = record { pid = 4; code = 0; status = 0; state = 0x57f; signal = 0 }

-- The breakpoint at the entry point is not in the code, so that its removal makes an assertion fail.
not_patched :
    run_profiler env kernel (λ t s threads. ok t) 4 tracer (leader ∷ []) ≡ fault Fault.assertion
unfolding run_profiler atrace.Profiler.first_turn atrace.Profiler.start_profile
    atrace.Profiler.break_at_entry atrace.Profiler.run_to_entry atrace.Profiler.pass_entry
    atrace.Tracer.Maps.object_load atrace.Tracer.Maps.object_get_mmap atrace.Object.Maps.read_loop
    atrace.Tracer.Maps.object_parse_mmap atrace.Tracer.Maps.parse_loop atrace.Tracer.Maps.add_region
    atrace.Tracer.Maps.exists atrace.Object.Line.parse_line atrace.Object.Line.parse_mmap_range
    atrace.Object.Line.parse_mmap_attr atrace.Object.Line.parse_mmap_inode
    atrace.Object.Line.parse_mmap_file atrace.Object.Line.parse_file_part
    atrace.Object.Line.attr_loop atrace.Object.Line.atoi atrace.Object.Line.decimal
    atrace.Object.Parse.until atrace.Object.Parse.strndup atrace.Object.Parse.skip_spaces
    atrace.Object.Line.hex_or_null atrace.Object.Hex.hex_to_int atrace.Object.Line.split_dash
    atrace.Object.Hex.hex_loop atrace.Object.Hex.digit_of atrace.Object.Entry.little_endian
    atrace.Object.Entry.skip atrace.Object.Entry.terminated object_get_exe
    atrace.Tracer.Maps.object_get_exe_entry_point atrace.Tracer.Maps.object_get_by_file
    atrace.Tracer.breakpoint_create atrace.Tracer.breakpoint_enable atrace.Tracer.breakpoint_disable
    atrace.Tracer.breakpoint_resume atrace.Tracer.breakpoint_delete atrace.Tracer.peektext
    atrace.Tracer.poketext atrace.Tracer.word atrace.Tracer.write_word
    atrace.Tracer.arch_make_breakpoint atrace.Tracer.arch_remove_breakpoint thread_get_by_pid
    atrace.TracedThreads.put atrace.TracedThreads.thread_run atrace.TracedThreads.thread_wait
    atrace.TracedThreads.wait_loop atrace.TracedThreads.wifexited atrace.TracedThreads.wifstopped
    atrace.TracedThreads.wifcontinued
not_patched = refl

-- Where the code at the entry point is a break instruction from the start, the loop is reached, and left.
exits :
    run_profiler env kernel
      (λ t s threads. ok t)
      4
      (record tracer { memory = λ a. 0xCC })
      (leader ∷ [])
    ≡ fault Fault.aborted
unfolding run_profiler atrace.Profiler.first_turn atrace.Profiler.start_profile
    atrace.Profiler.break_at_entry atrace.Profiler.run_to_entry atrace.Profiler.pass_entry
    atrace.Tracer.Maps.object_load atrace.Tracer.Maps.object_get_mmap atrace.Object.Maps.read_loop
    atrace.Tracer.Maps.object_parse_mmap atrace.Tracer.Maps.parse_loop atrace.Tracer.Maps.add_region
    atrace.Tracer.Maps.exists atrace.Object.Line.parse_line atrace.Object.Line.parse_mmap_range
    atrace.Object.Line.parse_mmap_attr atrace.Object.Line.parse_mmap_inode
    atrace.Object.Line.parse_mmap_file atrace.Object.Line.parse_file_part
    atrace.Object.Line.attr_loop atrace.Object.Line.atoi atrace.Object.Line.decimal
    atrace.Object.Parse.until atrace.Object.Parse.strndup atrace.Object.Parse.skip_spaces
    atrace.Object.Line.hex_or_null atrace.Object.Hex.hex_to_int atrace.Object.Line.split_dash
    atrace.Object.Hex.hex_loop atrace.Object.Hex.digit_of atrace.Object.Entry.little_endian
    atrace.Object.Entry.skip atrace.Object.Entry.terminated object_get_exe
    atrace.Tracer.Maps.object_get_exe_entry_point atrace.Tracer.Maps.object_get_by_file
    atrace.Tracer.breakpoint_create atrace.Tracer.breakpoint_enable atrace.Tracer.breakpoint_disable
    atrace.Tracer.breakpoint_resume atrace.Tracer.breakpoint_delete atrace.Tracer.peektext
    atrace.Tracer.poketext atrace.Tracer.word atrace.Tracer.write_word
    atrace.Tracer.arch_make_breakpoint atrace.Tracer.arch_remove_breakpoint thread_get_by_pid
    atrace.TracedThreads.put atrace.TracedThreads.thread_run atrace.TracedThreads.thread_wait
    atrace.TracedThreads.wait_loop atrace.TracedThreads.wifexited atrace.TracedThreads.wifstopped
    atrace.TracedThreads.wifcontinued
exits = refl

-- What malloc left in the buffer is taken for the end of the path.
abbrev junk_env : Profilee
junk_env = record env {
  files = record env.files { malloc_path = some (b'x' ∷ b'y' ∷ b'z' ∷ replicate 8 0) };
}

junk_path : object_get_exe junk_env.files ≡ ok (some (b'/' ∷ b'l' ∷ b'z' ∷ []))
unfolding object_get_exe atrace.Object.Entry.terminated
junk_path = refl

junk_exits :
    run_profiler junk_env kernel (λ t s threads. ok t) 4 tracer (leader ∷ []) ≡ fault Fault.aborted
unfolding run_profiler atrace.Profiler.first_turn atrace.Profiler.start_profile
    atrace.Profiler.break_at_entry atrace.Profiler.run_to_entry atrace.Profiler.pass_entry
    atrace.Tracer.Maps.object_load atrace.Tracer.Maps.object_get_mmap atrace.Object.Maps.read_loop
    atrace.Tracer.Maps.object_parse_mmap atrace.Tracer.Maps.parse_loop atrace.Tracer.Maps.add_region
    atrace.Tracer.Maps.exists atrace.Object.Line.parse_line atrace.Object.Line.parse_mmap_range
    atrace.Object.Line.parse_mmap_attr atrace.Object.Line.parse_mmap_inode
    atrace.Object.Line.parse_mmap_file atrace.Object.Line.parse_file_part
    atrace.Object.Line.attr_loop atrace.Object.Line.atoi atrace.Object.Line.decimal
    atrace.Object.Parse.until atrace.Object.Parse.strndup atrace.Object.Parse.skip_spaces
    atrace.Object.Line.hex_or_null atrace.Object.Hex.hex_to_int atrace.Object.Line.split_dash
    atrace.Object.Hex.hex_loop atrace.Object.Hex.digit_of atrace.Object.Entry.little_endian
    atrace.Object.Entry.skip atrace.Object.Entry.terminated object_get_exe
    atrace.Tracer.Maps.object_get_exe_entry_point atrace.Tracer.Maps.object_get_by_file
    atrace.Tracer.breakpoint_create atrace.Tracer.breakpoint_enable atrace.Tracer.breakpoint_disable
    atrace.Tracer.breakpoint_resume atrace.Tracer.breakpoint_delete atrace.Tracer.peektext
    atrace.Tracer.poketext atrace.Tracer.word atrace.Tracer.write_word
    atrace.Tracer.arch_make_breakpoint atrace.Tracer.arch_remove_breakpoint thread_get_by_pid
    atrace.TracedThreads.put atrace.TracedThreads.thread_run atrace.TracedThreads.thread_wait
    atrace.TracedThreads.wait_loop atrace.TracedThreads.wifexited atrace.TracedThreads.wifstopped
    atrace.TracedThreads.wifcontinued
junk_exits = refl
