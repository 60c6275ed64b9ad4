-- ===== src/Tracer/Resume.antt =====
-- `breakpoint_resume`: one step of a thread over an enabled breakpoint.
use atrace.Prelude.{
  ℕ, zero, suc, ◌+◌, ◌*◌, ◌^◌, ◌<◌, ◌≡◌, refl, ap, fun_ext, ◌∙◌, arith, true, false, ◌&&◌, some,
  List, [], ◌∷◌, set, ok, success,
}
use atrace.Prelude.Bits.{test_bit-bit, bit-clear_bit, clear_bit}
use atrace.Breakpoint.{deref}
use atrace.Tracer.{
  TracedBreakpoint, Tracer, Stepper, is_enabled, arch_remove_breakpoint, word, peektext, poketext,
  breakpoint_disable, breakpoint_resume,
}
use atrace.Tracer.Bytes.{IsBytes, remove-bytes, word-lt}
use atrace.Tracer.Patch.{with_break, word_broken, restore, flag_on, enabled, enable_run}

-- An enabled breakpoint over the memory `original`.
pub record IsPatched (bp : TracedBreakpoint) (original : ℕ → ℕ) (s : Tracer) : Type 0 where
  pub bytes : IsBytes original
  pub on : is_enabled bp.attr ≡ true
  pub patched : s.memory ≡ with_break bp.address original
  pub saved : bp.ori_instrction ≡ word 8 original bp.address
  pub mapped : s.mapped bp.address && s.mapped (bp.address + 7) ≡ true

abbrev switched_off : TracedBreakpoint → TracedBreakpoint
switched_off bp = record bp { attr = clear_bit bp.attr 1 }

off_attr : (bp : TracedBreakpoint) → is_enabled (switched_off bp).attr ≡ false
off_attr bp =
    test_bit-bit (clear_bit bp.attr 1) 1 (omega arith)
    ∙ bit-clear_bit bp.attr 1 1 (omega arith) (omega arith)

set-set :
    (xs : List TracedBreakpoint) (p : ℕ) (v u : TracedBreakpoint)
    → set (set xs p v) p u ≡ set xs p u
set-set [] p v u = refl
set-set (x ∷ xs) zero v u = refl
set-set (x ∷ xs) (suc p) v u = ap (λ ys. x ∷ ys) (set-set xs p v u)

disable_patched :
    (bp : TracedBreakpoint) (original : ℕ → ℕ) (s : Tracer)
    → IsPatched bp original s
    → breakpoint_disable bp s ≡ ok (record s { memory = original }, switched_off bp)
unfolding breakpoint_disable peektext poketext word
disable_patched bp original s h =
    let w = word 7 original (suc bp.address) in
    let lt : 0xCC + 256 * w < 2 ^ 64 = omega (arith, word-lt 7 (suc bp.address) original h.bytes) in
    let removed : arch_remove_breakpoint (0xCC + 256 * w) bp.ori_instrction
        ≡ ok (word 8 original bp.address) =
      ap (arch_remove_breakpoint (0xCC + 256 * w)) h.saved
      ∙ remove-bytes (original bp.address) w w (h.bytes bp.address) lt in
    rw
      (
        breakpoint_disable,
        h.on,
        peektext,
        poketext,
        h.mapped,
        h.patched,
        word_broken bp.address original,
        removed,
      )
      (ap (λ (memory : ℕ → ℕ). ok (record s { memory = memory }, switched_off bp))
        (fun_ext (λ a. restore bp.address a original h.bytes)))

-- Where the program counter of the thread can be set, and the thread can step from the unpatched memory to a memory of
-- bytes, resuming over an enabled breakpoint returns 0: the step has run on the original instruction, and the
-- breakpoint is in the code of the memory behind the step, enabled.
pub breakpoint_resume-IsPatched :
    (stepper : Stepper) (p : ℕ) (bp : TracedBreakpoint) (original behind : ℕ → ℕ) (s : Tracer)
    → deref s.breakpoints p ≡ ok bp
    → IsPatched bp original s
    → stepper.arch_set_thread_pc bp.address ≡ true
    → stepper.thread_single_step original ≡ some behind
    → IsBytes behind
    → (s' : Tracer) × (bp' : TracedBreakpoint) × (breakpoint_resume stepper p s ≡ ok (s', success))
      × (bp'.address ≡ bp.address)
      × (s'.breakpoints ≡ set s.breakpoints p bp')
      × IsPatched bp' behind s'
unfolding breakpoint_resume
breakpoint_resume-IsPatched stepper p bp original behind s held h counter step bytes =
    let bp' = switched_off bp in
    let off : Tracer = record s { memory = original; breakpoints = set s.breakpoints p bp' } in
    let after : Tracer = record off { memory = behind } in
    let again = enable_run bp' after bytes h.mapped (off_attr bp) in
    (
      record (enabled bp' after).0 {
        breakpoints = set (set s.breakpoints p bp') p (enabled bp' after).1;
      },
      (enabled bp' after).1,
      rw (breakpoint_resume, held, counter, disable_patched bp original s h, step, again) refl,
      refl,
      set-set s.breakpoints p bp' (enabled bp' after).1,
      record {
        bytes = bytes;
        on = flag_on bp'.attr;
        patched = refl;
        saved = refl;
        mapped = h.mapped;
      },
    )
