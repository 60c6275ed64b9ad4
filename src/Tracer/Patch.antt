-- ===== src/Tracer/Patch.antt =====
-- Breakpoints of the ptrace design: what enabling, disabling, creating and resuming do to the traced process.
use atrace.Prelude.{
  ℕ, suc, ◌+◌, ◌-◌, ◌*◌, ◌/◌, ◌%◌, ◌^◌, ◌<◌, ◌≡◌, refl, ◌≢◌, ap, fun_ext, ◌∙◌, arith, true, false,
  ◌&&◌, some, List, [], ◌∷◌, ◌++◌, ◌==◌, ltb, if◌then◌else◌, Bool-cases, inl, inr, bit_and, bit_or,
  length, set, ok, fault, Fault,
}
use atrace.Prelude.Bits.{bit-bit_or, test_bit-bit}
use atrace.Linux.{ListOps}
use atrace.Breakpoint.{deref}
use atrace.Tracer.{
  TracedBreakpoint, TracedObject, Tracer, bkpt_f_enable, is_enabled, arch_make_breakpoint,
  arch_remove_breakpoint, word, write_word, peektext, poketext, breakpoint_enable,
  breakpoint_disable, breakpoint_create,
}
use atrace.Tracer.Bytes.{
  IsBytes, make-bytes, remove-bytes, word-lt, write_word-word, word-same, word-lowest,
}

-- Memory with the break instruction at an address.
abbrev pub with_break : ℕ → (ℕ → ℕ) → ℕ → ℕ
with_break addr memory a = if addr == a then 0xCC else memory a

write_break :
    (addr a : ℕ) (memory : ℕ → ℕ)
    → IsBytes memory
    → write_word 8 addr (arch_make_breakpoint (word 8 memory addr)) memory a
      ≡ with_break addr memory a
unfolding write_word word
write_break addr a memory h =
    let w = word 7 memory (suc addr) in
    let lt : memory addr + 256 * w < 2 ^ 64 =
      omega (arith, word-lt 7 (suc addr) memory h, h addr) in
    let made = make-bytes (memory addr) w (h addr) lt in
    let high : (0xCC + 256 * w) / 256 ≡ w = omega arith in
    let first : (0xCC + 256 * w) % 256 ≡ 0xCC = omega arith in
    rw (made, high, first)
      (elim (Bool-cases (addr == a)) [
        | inl here ↦ rw here refl
        | inr there ↦
            rw there (write_word-word 7 (suc addr) a memory memory h (λ lt. refl) (λ le. refl))
      ])

-- The other bytes of the word are as before.
pub word_broken :
    (addr : ℕ) (memory : ℕ → ℕ)
    → word 8 (with_break addr memory) addr ≡ 0xCC + 256 * word 7 memory (suc addr)
unfolding word
word_broken addr memory =
    let rest = word-same 7 (suc addr) memory (with_break addr memory) (λ a le. ground arith) in
    rw rest (ground arith)

pub restore :
    (addr a : ℕ) (memory : ℕ → ℕ)
    → IsBytes memory
    → write_word 8 addr (word 8 memory addr) (with_break addr memory) a ≡ memory a
restore addr a memory h =
    write_word-word 8 addr a memory (with_break addr memory) h (λ lt. ground arith)
      (λ le. ground arith)

pub flag_on : (attr : ℕ) → is_enabled (bit_or attr bkpt_f_enable) ≡ true
flag_on attr = test_bit-bit (bit_or attr 2) 1 (omega arith) ∙ bit-bit_or 1 attr 2 ∙ ground arith

-- The breakpoint and the process once the breakpoint is enabled.
abbrev pub enabled : TracedBreakpoint → Tracer → Tracer × TracedBreakpoint
enabled bp s = (
  record s { memory = with_break bp.address s.memory },
  record bp { ori_instrction = word 8 s.memory bp.address; attr = bit_or bp.attr bkpt_f_enable },
)

pub enable_run :
    (bp : TracedBreakpoint) (s : Tracer)
    → IsBytes s.memory
    → s.mapped bp.address && s.mapped (bp.address + 7) ≡ true
    → is_enabled bp.attr ≡ false
    → breakpoint_enable bp s ≡ enabled bp s
unfolding breakpoint_enable peektext poketext
enable_run bp s h mapped off =
    rw (breakpoint_enable, off, peektext, poketext, mapped)
      (ap
        (λ (memory : ℕ → ℕ). (
          record s { memory = memory },
          record bp {
            ori_instrction = word 8 s.memory bp.address;
            attr = bit_or bp.attr bkpt_f_enable;
          },
        ))
        (fun_ext (λ a. write_break bp.address a s.memory h)))

-- Disabling it again.
disable_run :
    (bp : TracedBreakpoint) (s : Tracer)
    → IsBytes s.memory
    → s.mapped bp.address && s.mapped (bp.address + 7) ≡ true
    → (off : TracedBreakpoint) × (breakpoint_disable (enabled bp s).1 (enabled bp s).0
        ≡ ok (s, off))
unfolding breakpoint_disable peektext poketext word
disable_run bp s h mapped =
    let w = word 7 s.memory (suc bp.address) in
    let lt : 0xCC + 256 * w < 2 ^ 64 = omega (arith, word-lt 7 (suc bp.address) s.memory h) in
    let removed = remove-bytes (s.memory bp.address) w w (h bp.address) lt in
    (
      record (enabled bp s).1 {
        attr = bit_and (bit_or bp.attr bkpt_f_enable) (2 ^ 32 - 1 - bkpt_f_enable);
      },
      rw
          (
            breakpoint_disable,
            flag_on bp.attr,
            peektext,
            poketext,
            mapped,
            word_broken bp.address s.memory,
            removed,
          )
          (ap
            (λ (memory : ℕ → ℕ). ok (
              record s { memory = memory },
              record (enabled bp s).1 {
                attr = bit_and (bit_or bp.attr bkpt_f_enable) (2 ^ 32 - 1 - bkpt_f_enable);
              },
            ))
            (fun_ext (λ a. restore bp.address a s.memory h))),
    )

-- In a process whose memory holds bytes, enabling a breakpoint that is off, at an address whose word ptrace
-- can reach, changes one byte of memory, the one at the address, to 0xCC; disabling it then succeeds and
-- leaves the process as it was.
pub breakpoint_enable-disable :
    (bp : TracedBreakpoint) (s : Tracer)
    → IsBytes s.memory
    → s.mapped bp.address && s.mapped (bp.address + 7) ≡ true
    → is_enabled bp.attr ≡ false
    → ((breakpoint_enable bp s).0 ≡ record s { memory = with_break bp.address s.memory })
      × ((off : TracedBreakpoint) × (breakpoint_disable
              (breakpoint_enable bp s).1
              (breakpoint_enable bp s).0
            ≡ ok (s, off)))
breakpoint_enable-disable bp s h mapped off =
    let run = enable_run bp s h mapped off in
    let (bp', back) = disable_run bp s h mapped in
    (ap (λ r. r.0) run, (bp', ap (λ r. breakpoint_disable r.1 r.0) run ∙ back))

deref-snoc :
    (xs : List TracedBreakpoint) (y : TracedBreakpoint) → deref (xs ++ y ∷ []) (length xs) ≡ ok y
deref-snoc [] y = refl
deref-snoc (x ∷ xs) y = deref-snoc xs y

-- Where ptrace cannot reach address 0 but can reach the word at the address of a new breakpoint, whose lowest byte is
-- not 0xCC, `breakpoint_create` with the flag ENABLE makes a breakpoint that is not in the code: memory
-- is as before, and disabling the breakpoint fails the assertion of `arch_remove_breakpoint`.
pub breakpoint_create_misses :
    (lists : ListOps ℕ) (i offset attr : ℕ) (obj : TracedObject) (s : Tracer)
    → s.mapped 0 ≡ false
    → deref s.objects i ≡ ok obj
    → (offset == 0) ≡ false
    → ltb obj.text_end ((obj.text_start + offset) % 2 ^ 64) ≡ false
    → is_enabled attr ≡ true
    → IsBytes s.memory
    → s.mapped ((obj.text_start + offset) % 2 ^ 64)
        && s.mapped ((obj.text_start + offset) % 2 ^ 64 + 7)
      ≡ true
    → s.memory ((obj.text_start + offset) % 2 ^ 64) ≢ 0xCC
    → (s' : Tracer) × (p : ℕ) × (bp : TracedBreakpoint) × (breakpoint_create lists true i offset
          attr s
        ≡ ok (s', some p))
      × (deref s'.breakpoints p ≡ ok bp)
      × (bp.address ≡ (obj.text_start + offset) % 2 ^ 64)
      × (s'.memory ≡ s.memory)
      × (breakpoint_disable bp s' ≡ fault Fault.assertion)
unfolding breakpoint_create breakpoint_enable breakpoint_disable poketext peektext
    arch_remove_breakpoint
breakpoint_create_misses lists i offset attr obj s zero_page held nonzero inside on h mapped other =
    let addr = (obj.text_start + offset) % 2 ^ 64 in
    let p = length s.breakpoints in
    let bp : TracedBreakpoint = record {
      address = addr;
      ori_instrction = 2 ^ 64 - 1;
      attr = attr;
    } in
    let no_break : (bit_and (word 8 s.memory addr) 0xFF == 0xCC) ≡ false =
      ground (arith, word-lowest addr s.memory h) in
    (
      record s {
        breakpoints = s.breakpoints ++ bp ∷ [];
        objects =
            set s.objects i
              (record obj { breakpoint_chain = lists.list_add_tail p obj.breakpoint_chain });
      },
      p,
      bp,
      rw
          (
            breakpoint_create, held, nonzero, inside, on, breakpoint_enable, poketext, peektext,
            zero_page,
          )
          refl,
      deref-snoc s.breakpoints bp,
      refl,
      refl,
      rw (breakpoint_disable, on, peektext, mapped, arch_remove_breakpoint, no_break) refl,
    )
