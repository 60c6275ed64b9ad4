-- ===== src/Hook/Setup/Examples.antt =====
-- A run of `lib_init`, and its theorem at a concrete input.
use atrace.Prelude.{◌+◌, ◌*◌, true, false, none, some, [], ◌∷◌, replicate, Run, ok, fault}
use atrace.Linux.{plain_lists}
use atrace.BpTree.{null}
use atrace.BpTree.Plain.{plain_rb}
use atrace.Object.{Object}
use atrace.Object.Maps.{bytes, eof}
use atrace.Object.Entry.{Files}
use atrace.Object.Entry.Elf64.{elf64}
use atrace.Breakpoint.{Breakpoint, Machine}
use atrace.Hook.{Process, Runtime, Loader, sigtrap, lib_init}

abbrev machine : Machine
machine = record {
  rb = plain_rb;
  set_lists = plain_lists;
  chain_lists = plain_lists;
  source = record { calloc = λ n. some (n + 100); mmap = λ n len. some (n * 0x10000 + 0x10000) };
  mprotect = λ allow start len. true;
}

abbrev runtime : Runtime
runtime = record { thread_lists = plain_lists; calloc = true }

-- `1000-3000 r-xp 0 8 12 /l`, with an entry point 8 bytes behind its start.
abbrev loader : Loader
loader = record {
  object_lists = plain_lists;
  memory = record { strndup = λ p. true; calloc = λ n. true; realloc = λ n. true };
  opened = true;
  reads =
      bytes b'1' (
        b'0' ∷ b'0' ∷ b'0' ∷ b'-' ∷ b'3' ∷ b'0' ∷ b'0' ∷ b'0' ∷ b' ' ∷ b'r' ∷ b'-' ∷ b'x' ∷ b'p'
        ∷ b' ' ∷ b'0' ∷ b' ' ∷ b'8' ∷ b' ' ∷ b'1' ∷ b'2' ∷ b' ' ∷ b'/' ∷ b'l' ∷ b'\n' ∷ [])
      ∷ eof
      ∷ [];
  self = 0;
}

abbrev files : Files
files = record {
  readlink = some (b'/' ∷ b'l' ∷ []);
  contents = λ name. some (elf64 8 (replicate 20 1) []);
  malloc_path = true;
  malloc_header = true;
  strdup = true;
}

-- The process before the constructor of the library runs.
abbrev process : Process
process = record {
  world = record {
    objects = [];
    breakpoints = [];
    tree = null;
    slot_sets = [];
    memory = λ a. a + 7;
    writable = λ a. false;
    cleared = [];
  };
  threads = replicate 64 [];
  handler = sigtrap;
  entry_bp = none;
  entry_hit = false;
}

abbrev of_run : Run Process → Process
of_run (ok s) = s
of_run (fault e) = process

abbrev ready : Process
ready = of_run (lib_init machine true loader files process)
