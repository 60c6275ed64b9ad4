-- ===== src/Breakpoint/Patch.antt =====
-- `breakpoint_enable` and `breakpoint_disable`: what they do to the code of the program.
use atrace.Prelude.{
  ℕ, zero, suc, ◌-◌, ◌^◌, ◌<◌, ◌≡◌, refl, ◌≢◌, sym, ap, ◌∙◌, arith, true, false, not, some, List,
  [], ◌∷◌, if◌then◌else◌, set, ok, check, success,
}
use atrace.Prelude.Bits.{test_bit-bit, clear_bit, set_bit, bit-set_bit}
use atrace.Object.{Object}
use atrace.Slot.{SlotSet, bp_get_slot_offset}
use atrace.Breakpoint.{
  Breakpoint, World, Machine, brk, bkpt_attr_flag_enable, breakpoint_attr_flag, breakpoint_attr_set,
  breakpoint_attr_clr, in_text, deref, write, slot_of,
}
use atrace.Breakpoint.Code.{
  object_memory_lock, object_memory_unlock, patch_object, breakpoint_enable, breakpoint_disable,
}
use atrace.Breakpoint.Undo.{off_again, write-write, set-back}

pub deref-set :
    (xs : List Breakpoint) (p : ℕ) {x : Breakpoint} (v : Breakpoint)
    → deref xs p ≡ ok x
    → deref (set xs p v) p ≡ ok v
deref-set [] p v h = absurd (ground arith)
deref-set (x ∷ xs) zero v h = refl
deref-set (x ∷ xs) (suc p) v h = deref-set xs p v h

module _ (m : Machine) where
  -- A breakpoint `p` that was added to the object `i`, with its address in the code there, whose pages the system can
  -- protect.
  pub record IsPlaced (p i : ℕ) (bkpt : Breakpoint) (obj : Object) (w : World) : Type 0 where
    pub held : deref w.breakpoints p ≡ ok bkpt
    pub linked : bkpt.bp_enter.rb_empty ≡ false
    pub owner : bkpt.obj ≡ some i
    pub object : deref w.objects i ≡ ok obj
    pub inside : in_text obj bkpt.bp_enter.address ≡ true
    pub can_unlock : m.mprotect true obj.text_start (obj.text_end - obj.text_start) ≡ true
    pub can_lock : m.mprotect false obj.text_start (obj.text_end - obj.text_start) ≡ true

  -- The code with one word replaced, locked.
  abbrev pub patched : ℕ → Breakpoint → Object → ℕ → World → World
  patched p bkpt obj v w = record w {
    breakpoints = set w.breakpoints p bkpt;
    memory = write bkpt.bp_enter.address v w.memory;
    writable = λ a. if in_text obj a then false else if in_text obj a then true else w.writable a;
    cleared = (obj.text_start, obj.text_end) ∷ w.cleared;
  }

  patch_object_run :
      (p i v attr : ℕ) (bkpt : Breakpoint) (obj : Object) (w : World)
      → IsPlaced p i bkpt obj w
      → patch_object m bkpt.obj
          (record bkpt { attr = attr })
          v
          (record w { breakpoints = set w.breakpoints p (record bkpt { attr = attr }) })
        ≡ ok (patched p (record bkpt { attr = attr }) obj v w)
  unfolding patch_object object_memory_lock object_memory_unlock
  patch_object_run p i v attr bkpt obj w h =
      let b : Breakpoint = record bkpt { attr = attr } in
      ap (λ o. patch_object m o b v (record w { breakpoints = set w.breakpoints p b })) h.owner
      ∙ rw (h.object, object_memory_unlock, h.can_unlock, h.inside, object_memory_lock, h.can_lock)
          refl

  -- The placed breakpoint stays placed when its code is patched.
  patched-IsPlaced :
      (p i v attr : ℕ) (bkpt : Breakpoint) (obj : Object) (w : World)
      → IsPlaced p i bkpt obj w
      → IsPlaced p i
          (record bkpt { attr = attr })
          obj
          (patched p (record bkpt { attr = attr }) obj v w)
  patched-IsPlaced p i v attr bkpt obj w h = record {
    held = deref-set w.breakpoints p (record bkpt { attr = attr }) h.held;
    linked = h.linked;
    owner = h.owner;
    object = h.object;
    inside = h.inside;
    can_unlock = h.can_unlock;
    can_lock = h.can_lock;
  }

  -- What an enabled breakpoint is: its code is a break instruction, no other word has changed, and the code of the
  -- object is locked.
  pub record Enabled (p : ℕ) (bkpt : Breakpoint) (obj : Object) (w w' : World) : Type 0 where
    pub broken : w'.memory bkpt.bp_enter.address ≡ brk
    pub same_memory : (a : ℕ) → a ≢ bkpt.bp_enter.address → w'.memory a ≡ w.memory a
    pub locked : (a : ℕ) → in_text obj a ≡ true → w'.writable a ≡ false
    pub flushed : w'.cleared ≡ (obj.text_start, obj.text_end) ∷ w.cleared
    pub again : breakpoint_enable m p w' ≡ ok (w', success)

  enable_run :
      (p i : ℕ) (bkpt : Breakpoint) (obj : Object) (w : World)
      → IsPlaced p i bkpt obj w
      → breakpoint_attr_flag bkpt_attr_flag_enable bkpt ≡ false
      → breakpoint_enable m p w
        ≡ ok (patched p (record bkpt { attr = set_bit bkpt.attr 0 }) obj brk w, success)
  unfolding breakpoint_enable breakpoint_attr_set
  enable_run p i bkpt obj w h off =
      rw
        (
          breakpoint_enable,
          h.held,
          ap (λ b. check (not b)) h.linked,
          off,
          breakpoint_attr_set,
          patch_object_run p i brk (set_bit bkpt.attr 0) bkpt obj w h,
        )
        refl

  enable_on :
      (p i : ℕ) (bkpt : Breakpoint) (obj : Object) (w : World)
      → IsPlaced p i bkpt obj w
      → breakpoint_attr_flag bkpt_attr_flag_enable bkpt ≡ true
      → breakpoint_enable m p w ≡ ok (w, success)
  unfolding breakpoint_enable
  enable_on p i bkpt obj w h on =
      rw (breakpoint_enable, h.held, ap (λ b. check (not b)) h.linked, on) refl

  flag_on :
      (bkpt : Breakpoint)
      → breakpoint_attr_flag bkpt_attr_flag_enable (record bkpt { attr = set_bit bkpt.attr 0 })
        ≡ true
  unfolding breakpoint_attr_flag
  flag_on bkpt =
      test_bit-bit (set_bit bkpt.attr 0) 0 (omega arith) ∙ bit-set_bit bkpt.attr 0 0 (omega arith)

  -- Enabling a placed breakpoint that is off returns 0 and leaves a break instruction at its address,
  -- every other word of memory as it was, and the code of its object locked and flushed; enabling it
  -- once more changes nothing.
  pub breakpoint_enable-Enabled :
      (p i : ℕ) (bkpt : Breakpoint) (obj : Object) (w : World)
      → IsPlaced p i bkpt obj w
      → breakpoint_attr_flag bkpt_attr_flag_enable bkpt ≡ false
      → (w' : World) × (breakpoint_enable m p w ≡ ok (w', success)) × Enabled p bkpt obj w w'
  breakpoint_enable-Enabled p i bkpt obj w h off =
      let attr = set_bit bkpt.attr 0 in
      let w' = patched p (record bkpt { attr = attr }) obj brk w in
      (
        w',
        enable_run p i bkpt obj w h off,
        record {
          broken = ground arith;
          same_memory = λ a ne. ground arith;
          locked = λ a inside. rw inside refl;
          flushed = refl;
          again =
              enable_on p i (record bkpt { attr = attr }) obj w'
                (patched-IsPlaced p i brk attr bkpt obj w h) (flag_on bkpt);
        },
      )

  -- The slot of a placed breakpoint still holds the instruction that stands at its address.
  pub record HoldsInstruction (s : SlotSet) (bkpt : Breakpoint) (w : World) : Type 0 where
    pub slot : slot_of bkpt.slot_set w.slot_sets ≡ ok s
    pub saved : w.memory (bp_get_slot_offset s bkpt.slot_index) ≡ w.memory bkpt.bp_enter.address
    pub elsewhere : bp_get_slot_offset s bkpt.slot_index ≢ bkpt.bp_enter.address

  disable_run :
      (p i : ℕ) (s : SlotSet) (bkpt : Breakpoint) (obj : Object) (w : World)
      → IsPlaced p i bkpt obj w
      → breakpoint_attr_flag bkpt_attr_flag_enable bkpt ≡ true
      → slot_of bkpt.slot_set w.slot_sets ≡ ok s
      → breakpoint_disable m p w
        ≡ ok (
          patched p
              (record bkpt { attr = clear_bit bkpt.attr 0 })
              obj
              (w.memory (bp_get_slot_offset s bkpt.slot_index))
              w,
          success,
        )
  unfolding breakpoint_disable breakpoint_attr_clr
  disable_run p i s bkpt obj w h on e =
      rw
        (
          breakpoint_disable,
          h.held,
          ap (λ b. check (not b)) h.linked,
          on,
          breakpoint_attr_clr,
          e,
          patch_object_run p i (w.memory (bp_get_slot_offset s bkpt.slot_index))
              (clear_bit bkpt.attr 0) bkpt obj w h,
        )
        refl

  -- Where the slot of a placed breakpoint that is off holds the instruction at its address, enabling
  -- and then disabling it return 0, and memory and breakpoints are again what they were.
  pub disable-enable :
      (p i : ℕ) (s : SlotSet) (bkpt : Breakpoint) (obj : Object) (w : World)
      → IsPlaced p i bkpt obj w
      → HoldsInstruction s bkpt w
      → bkpt.attr < 2 ^ 32
      → breakpoint_attr_flag bkpt_attr_flag_enable bkpt ≡ false
      → (on : World) × (off : World) × (breakpoint_enable m p w ≡ ok (on, success))
        × (breakpoint_disable m p on ≡ ok (off, success))
        × (off.memory ≡ w.memory)
        × (off.breakpoints ≡ w.breakpoints)
  unfolding breakpoint_attr_flag
  disable-enable p i s bkpt obj w h slot lt off =
      let attr = set_bit bkpt.attr 0 in
      let b : Breakpoint = record bkpt { attr = attr } in
      let on = patched p b obj brk w in
      let kept : on.memory (bp_get_slot_offset s bkpt.slot_index) ≡ w.memory bkpt.bp_enter.address =
        ground (arith, slot.saved, slot.elsewhere) in
      let back : clear_bit attr 0 ≡ bkpt.attr = off_again bkpt.attr lt off in
      (
        on,
        _,
        enable_run p i bkpt obj w h off,
        disable_run p i s b obj on (patched-IsPlaced p i brk attr bkpt obj w h) (flag_on bkpt)
            slot.slot,
        write-write bkpt.bp_enter.address brk _ w.memory (sym kept),
        ap (λ (x : ℕ). set (set w.breakpoints p b) p (record bkpt { attr = x })) back
            ∙ set-back w.breakpoints p bkpt b h.held,
      )
