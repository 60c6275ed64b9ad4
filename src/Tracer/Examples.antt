-- ===== src/Tracer/Examples.antt =====
-- Runs of the ptrace breakpoints, and their theorems at concrete inputs.
use atrace.Prelude.{ℕ, ◌≡◌, refl, arith, true, none, some, [], ◌∷◌, leb, ok, fault, Fault, success}
use atrace.Linux.{plain_lists}
use atrace.Breakpoint.{deref}
use atrace.Tracer.{
  TracedBreakpoint, TracedObject, Tracer, Stepper, arch_make_breakpoint, arch_remove_breakpoint,
  arch_get_breakpoint_pc, breakpoint_enable, breakpoint_disable, breakpoint_create,
  breakpoint_delete, breakpoint_resume, breakpoint_find,
}
use atrace.Tracer.Resume.{IsPatched, breakpoint_resume-IsPatched}
use atrace.Tracer.Patch.{with_break, breakpoint_enable-disable, breakpoint_create_misses}

abbrev bp : TracedBreakpoint
bp = record { address = 1500; ori_instrction = 0; attr = 0 }

abbrev code : TracedObject
code = record {
  file_name = b'/' ∷ b'l' ∷ [];
  text_start = 1000;
  text_end = 2000;
  breakpoint_chain = 0 ∷ [];
}

abbrev process : Tracer
process = record {
  memory = λ a. 7;
  mapped = λ a. leb 1000 a;
  breakpoints = bp ∷ [];
  objects = code ∷ [];
}

make : arch_make_breakpoint 0x1122 ≡ 0x11CC
unfolding arch_make_breakpoint
make = refl

found : breakpoint_find 1501 process ≡ ok (some 0)
unfolding breakpoint_find atrace.Tracer.find_in_objects arch_get_breakpoint_pc
    atrace.Tracer.find_in_chain
found = refl

not_found : breakpoint_find 1503 process ≡ ok none
unfolding breakpoint_find atrace.Tracer.find_in_objects arch_get_breakpoint_pc
    atrace.Tracer.find_in_chain
not_found = refl

breakpoint_enable-disable_example :
    ((breakpoint_enable bp process).0 ≡ record process { memory = with_break 1500 process.memory })
    × ((off : TracedBreakpoint) × (breakpoint_disable
            (breakpoint_enable bp process).1
            (breakpoint_enable bp process).0
          ≡ ok (process, off)))
breakpoint_enable-disable_example =
    breakpoint_enable-disable bp process (λ a. omega arith) refl refl

breakpoint_create_misses_example :
    (s' : Tracer) × (p : ℕ) × (made : TracedBreakpoint) × (breakpoint_create plain_lists true 0 600
        2 process
      ≡ ok (s', some p))
    × (deref s'.breakpoints p ≡ ok made)
    × (made.address ≡ 1600)
    × (s'.memory ≡ process.memory)
    × (breakpoint_disable made s' ≡ fault Fault.assertion)
breakpoint_create_misses_example =
    breakpoint_create_misses plain_lists 0 600 2 code process refl refl refl refl refl
      (λ a. omega arith) refl (omega arith)

-- The breakpoint in the code, and a step that writes one byte.
abbrev on : TracedBreakpoint
on = record { address = 1500; ori_instrction = 0x0707070707070707; attr = 2 }

abbrev patched : Tracer
patched = record process { memory = with_break 1500 (λ a. 7); breakpoints = on ∷ [] }

abbrev stepper : Stepper
stepper = record { arch_set_thread_pc = λ pc. true; thread_single_step = λ memory. some (λ a. 9) }

on-IsPatched : IsPatched on (λ a. 7) patched
unfolding atrace.Tracer.word
on-IsPatched = record {
  bytes = λ a. omega arith;
  on = refl;
  patched = refl;
  saved = refl;
  mapped = refl;
}

breakpoint_resume-IsPatched_example :
    (s' : Tracer) × (b : TracedBreakpoint) × (breakpoint_resume stepper 0 patched
      ≡ ok (s', success))
    × (b.address ≡ 1500)
    × (s'.breakpoints ≡ b ∷ [])
    × IsPatched b (λ a. 9) s'
breakpoint_resume-IsPatched_example =
    breakpoint_resume-IsPatched stepper 0 on (λ a. 7) (λ a. 9) patched refl on-IsPatched refl refl
      (λ a. omega arith)
