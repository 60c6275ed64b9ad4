-- ===== src/Tracer.antt =====
-- src/breakpoint.c, include/breakpoint.h and src/arch-x86/breakpoint.c: breakpoints that are patched into another process
-- by ptrace. The words that ptrace moves have 8 bytes, the lowest first.
pub mod Found
pub mod Bytes
pub mod Patch
pub mod Resume
pub mod Maps
mod Examples
use atrace.Prelude.{
  ℕ, zero, suc, ◌+◌, ◌-◌, ◌*◌, ◌/◌, ◌%◌, ◌^◌, ◌≡◌, Bool, true, false, not, ◌&&◌, ◌||◌, Option, none,
  some, List, [], ◌∷◌, ◌++◌, map, ◌==◌, ltb, if◌then◌else◌, bit_and, bit_or, length, set, Run, ok,
  fault, Fault, check, ◌>>=◌, ◌>>◌, Status, success, minus,
}
use atrace.Linux.{ListOps}
use atrace.Object.{Text}
use atrace.Breakpoint.{deref}

abbrev pub bkpt_f_enter_ctx : ℕ
bkpt_f_enter_ctx = 1

abbrev pub bkpt_f_enable : ℕ
bkpt_f_enable = 2

-- `(ori_instr & ~(0xFF)) | 0xCC`, on 64 bits.
unfoldable pub arch_make_breakpoint : ℕ → ℕ
arch_make_breakpoint ori_instr = bit_or (bit_and ori_instr (2 ^ 64 - 256)) 0xCC

unfoldable pub arch_remove_breakpoint : ℕ → ℕ → Run ℕ
arch_remove_breakpoint instr ori_instr = do
  check (bit_and instr 0xFF == 0xCC)
  ok (bit_or (bit_and instr (2 ^ 64 - 256)) (bit_and ori_instr 0xFF))

unfoldable pub arch_get_breakpoint_pc : ℕ → ℕ
arch_get_breakpoint_pc addr = (addr + (2 ^ 64 - 1)) % 2 ^ 64

-- `struct breakpoint`
pub record TracedBreakpoint : Type 0 where
  pub address : ℕ
  pub ori_instrction : ℕ
  pub attr : ℕ

-- `struct object`; a chain holds pointers to breakpoints, which are positions in the list of all that were made.
pub record TracedObject : Type 0 where
  pub file_name : Text
  pub text_start : ℕ
  pub text_end : ℕ
  pub breakpoint_chain : List ℕ

-- The traced process, with the addresses that ptrace can reach, and what the tracer keeps.
pub record Tracer : Type 0 where
  pub memory : ℕ → ℕ
  pub mapped : ℕ → Bool
  pub breakpoints : List TracedBreakpoint
  pub objects : List TracedObject

-- `n` bytes from an address on.
unfoldable pub word : ℕ → (ℕ → ℕ) → ℕ → ℕ
word zero memory addr = 0
word (suc n) memory addr = memory addr + 256 * word n memory (suc addr)

unfoldable pub write_word : ℕ → ℕ → ℕ → (ℕ → ℕ) → ℕ → ℕ
write_word zero addr v memory a = memory a
write_word (suc n) addr v memory a =
    let rest = write_word n (suc addr) (v / 256) memory a in if addr == a then v % 256 else rest

-- `ptrace(PTRACE_PEEKTEXT, …)`, which gives -1 where it fails.
unfoldable pub peektext : Tracer → ℕ → ℕ
peektext s addr = if s.mapped addr && s.mapped (addr + 7) then word 8 s.memory addr else 2 ^ 64 - 1

-- `ptrace(PTRACE_POKETEXT, …)`, whose failure nobody asks for.
unfoldable pub poketext : ℕ → ℕ → Tracer → Tracer
poketext addr v s =
    if s.mapped addr && s.mapped (addr + 7)
    then record s { memory = write_word 8 addr v s.memory }
    else s

abbrev pub is_enabled : ℕ → Bool
is_enabled attr = not (bit_and attr bkpt_f_enable == 0)

unfoldable pub breakpoint_enable : TracedBreakpoint → Tracer → Tracer × TracedBreakpoint
breakpoint_enable bp s = if is_enabled bp.attr then (s, bp) else (
  poketext bp.address (arch_make_breakpoint (peektext s bp.address)) s,
  record bp { ori_instrction = peektext s bp.address; attr = bit_or bp.attr bkpt_f_enable },
)

unfoldable pub breakpoint_disable : TracedBreakpoint → Tracer → Run (Tracer × TracedBreakpoint)
breakpoint_disable bp s =
    if not (is_enabled bp.attr)
    then ok (s, bp)
    else (arch_remove_breakpoint (peektext s bp.address) bp.ori_instrction >>= λ instr. ok (
      poketext bp.address instr s,
      record bp { attr = bit_and bp.attr (2 ^ 32 - 1 - bkpt_f_enable) },
    ))

-- A breakpoint as `calloc` clears it.
abbrev pub cleared : TracedBreakpoint
cleared = record { address = 0; ori_instrction = 0; attr = 0 }

module _ (lists : ListOps ℕ) where
  -- Behind `calloc`: the breakpoint is enabled first and gets its address then.
  abbrev pub created : ℕ → TracedObject → ℕ → ℕ → Tracer → Tracer × Option ℕ
  created i obj addr attr s =
      let made : Tracer × TracedBreakpoint =
        if is_enabled attr then breakpoint_enable cleared s else (s, cleared) in
      let bp : TracedBreakpoint = record made.1 { address = addr; attr = attr } in
      let p = length s.breakpoints in
      (
        record made.0 {
          breakpoints = s.breakpoints ++ bp ∷ [];
          objects =
              set s.objects i
                (record obj { breakpoint_chain = lists.list_add_tail p obj.breakpoint_chain });
        },
        some p,
      )

  -- `calloc` finds memory or not.
  unfoldable pub breakpoint_create : Bool → ℕ → ℕ → ℕ → Tracer → Run (Tracer × Option ℕ)
  breakpoint_create calloc i offset attr s = do
    obj ← deref s.objects i
    check (not (offset == 0))
    let addr = (obj.text_start + offset) % 2 ^ 64
    ok (
        if ltb obj.text_end addr
        then (s, none)
        else if not calloc
        then (s, none)
        else created i obj addr attr s)

-- `list_del` takes the breakpoint out of the chain that it is in.
abbrev pub unlinked : (ℕ → List ℕ → List ℕ) → ℕ → TracedObject → TracedObject
unlinked list_del p o = record o { breakpoint_chain = list_del p o.breakpoint_chain }

unfoldable pub breakpoint_delete : (ℕ → List ℕ → List ℕ) → ℕ → Tracer → Run Tracer
breakpoint_delete list_del p s = do
  bp ← deref s.breakpoints p
  disabled ← breakpoint_disable bp s
  ok (record disabled.0 {
    breakpoints = set s.breakpoints p disabled.1;
    objects = map (unlinked list_del p) s.objects;
  })

-- What the thread does, in src/thread.c and src/arch-x86/thread.c: the program counter can be set or not, and a
-- step gives the memory behind it, or fails.
pub record Stepper : Type 0 where
  pub arch_set_thread_pc : ℕ → Bool
  pub thread_single_step : (ℕ → ℕ) → Option (ℕ → ℕ)

-- Behind the step: the breakpoint is enabled again.
abbrev pub stepped : ℕ → TracedBreakpoint → Tracer → Option (ℕ → ℕ) → Tracer × Status
stepped p bp s none = (s, minus 1)
stepped p bp s (some memory) =
    let (s', bp') = breakpoint_enable bp (record s { memory = memory }) in
    (record s' { breakpoints = set s.breakpoints p bp' }, success)

unfoldable pub breakpoint_resume : Stepper → ℕ → Tracer → Run (Tracer × Status)
breakpoint_resume stepper p s = do
  bp ← deref s.breakpoints p
  if not (stepper.arch_set_thread_pc bp.address)
      then ok (s, minus 1)
      else (breakpoint_disable bp s >>= λ disabled.
          let off : Tracer = record disabled.0 { breakpoints = set s.breakpoints p disabled.1 } in
          ok (stepped p disabled.1 off (stepper.thread_single_step off.memory)))

-- The inner loop of `breakpoint_find`.
unfoldable pub find_in_chain : ℕ → List TracedBreakpoint → List ℕ → Run (Option ℕ)
find_in_chain bp_pc breakpoints [] = ok none
find_in_chain bp_pc breakpoints (p ∷ rest) =
    let behind = find_in_chain bp_pc breakpoints rest in
    deref breakpoints p >>= λ bp. if bp.address == bp_pc then ok (some p) else behind

abbrev pub or_next : Option ℕ → Run (Option ℕ) → Run (Option ℕ)
or_next none next = next
or_next (some p) next = ok (some p)

-- The outer loop.
unfoldable pub find_in_objects : ℕ → List TracedBreakpoint → List TracedObject → Run (Option ℕ)
find_in_objects bp_pc breakpoints [] = ok none
find_in_objects bp_pc breakpoints (curr ∷ rest) =
    let next = find_in_objects bp_pc breakpoints rest in
    if ltb bp_pc curr.text_start || ltb curr.text_end bp_pc
    then next
    else (find_in_chain bp_pc breakpoints curr.breakpoint_chain >>= λ found. or_next found next)

-- `breakpoint_find`, at what `arch_get_thread_pc` gives, which is 0 where it fails.
unfoldable pub breakpoint_find : ℕ → Tracer → Run (Option ℕ)
breakpoint_find curr_pc s =
    if curr_pc == 0
    then ok none
    else find_in_objects (arch_get_breakpoint_pc curr_pc) s.breakpoints s.objects
