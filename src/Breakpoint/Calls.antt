-- ===== src/Breakpoint/Calls.antt =====
-- Calls of signal_test/breakpoint.c one after the other, with the stores that a caller makes into a breakpoint that is in no
-- tree yet.
use atrace.Prelude.{
  ℕ, ◌≡◌, refl, sym, ap, subst, inl, inr, arith, Bool, true, false, not, none, [], ◌∷◌, then_eq,
  else_eq, Bool-cases, length, length-append, set, ok, check, ◌>>=◌, bind-eq-ok, ok_inj, Status,
  success,
}
use atrace.BpTree.{BpEntry}
use atrace.Slot.{bp_get_slot_offset}
use atrace.Breakpoint.{
  Breakpoint, World, Machine, bkpt_attr_flag_enable, breakpoint_attr_flag, breakpoint_attr_set,
  breakpoint_attr_clr, breakpoint_new, deref, brk, slot_of, breakpoint_add,
}
use atrace.Breakpoint.Code.{patch_object, breakpoint_enable, breakpoint_disable}
use atrace.Breakpoint.Consistent.{BkptInv, Consistent, deref-snoc, Consistent-set}
use atrace.Breakpoint.Keeps.{patch_object-Of}
use atrace.Breakpoint.AddInv.{Inv, Inv-returned, breakpoint_add-Inv}

module _ (m : Machine) where
  -- A call that returns, or a store of the address or the flags before the breakpoint is added.
  pub data Call : World → World → Type 0 where
    new : (calloc : Bool) (p : ℕ) {w w' : World} → breakpoint_new calloc w ≡ ok (w', p) → Call w w'
    aim :
        (p addr attr : ℕ) (b : Breakpoint) {w : World}
        → deref w.breakpoints p ≡ ok b
        → b.bp_enter.rb_empty ≡ true
        → Call w (record w {
          breakpoints =
              set w.breakpoints p
                (record b { bp_enter = record b.bp_enter { address = addr }; attr = attr });
        })
    add :
        (p : ℕ) (status : Status) {w w' : World}
        → breakpoint_add m p w ≡ ok (w', status)
        → Call w w'
    enable :
        (p : ℕ) (status : Status) {w w' : World}
        → breakpoint_enable m p w ≡ ok (w', status)
        → Call w w'
    disable :
        (p : ℕ) (status : Status) {w w' : World}
        → breakpoint_disable m p w ≡ ok (w', status)
        → Call w w'

  pub data Calls (w : World) : World → Type 0 where
    start : Calls w w
    behind : {v u : World} → Calls w v → Call v u → Calls w u

  -- Other flags of a breakpoint, and then its code.
  patched-Inv :
      (p v attr : ℕ) (old b : Breakpoint) (w w' : World) (status : Status)
      → Inv w
      → deref w.breakpoints p ≡ ok old
      → b ≡ record old { attr = attr }
      → ◌>>=◌ {B = World × Status}
          (patch_object m old.obj b v (record w { breakpoints = set w.breakpoints p b }))
          (λ u. ok (u, success))
        ≡ ok (w', status)
      → Inv w'
  patched-Inv p v attr old b w w' status i held e h =
      let its = i.each p old held in
      let good : BkptInv w.slot_sets p (record old { attr = attr }) = record {
        enter = its.enter;
        return = its.return;
        slots = its.slots;
      } in
      let stored =
        Consistent-set w.tree w.breakpoints w.slot_sets i p old b held
          (subst (BkptInv w.slot_sets p) (sym e) good) in
      let (u, patched, k) =
        bind-eq-ok (patch_object m old.obj b v (record w { breakpoints = set w.breakpoints p b })) _
          h in
      Inv-returned u w' success status (patch_object-Of m Consistent old.obj b v _ u stored patched)
        k

  breakpoint_enable-Inv :
      (p : ℕ) (w w' : World) (status : Status)
      → Inv w
      → breakpoint_enable m p w ≡ ok (w', status)
      → Inv w'
  unfolding breakpoint_enable breakpoint_attr_set
  breakpoint_enable-Inv p w w' status i h =
      let (b, d, k) = bind-eq-ok (deref w.breakpoints p) _ h in
      let (_, _, l) = bind-eq-ok (check (not b.bp_enter.rb_empty)) _ k in
      elim (Bool-cases (breakpoint_attr_flag bkpt_attr_flag_enable b)) [
        | inl on ↦
            Inv-returned w w' success status i
              (then_eq (breakpoint_attr_flag bkpt_attr_flag_enable b) _ on l)
        | inr off ↦
            patched-Inv p brk _ b (breakpoint_attr_set bkpt_attr_flag_enable b) w w' status i d refl
              (else_eq (breakpoint_attr_flag bkpt_attr_flag_enable b) _ off l)
      ]

  breakpoint_disable-Inv :
      (p : ℕ) (w w' : World) (status : Status)
      → Inv w
      → breakpoint_disable m p w ≡ ok (w', status)
      → Inv w'
  unfolding breakpoint_disable breakpoint_attr_clr
  breakpoint_disable-Inv p w w' status i h =
      let (b, d, k) = bind-eq-ok (deref w.breakpoints p) _ h in
      let (_, _, l) = bind-eq-ok (check (not b.bp_enter.rb_empty)) _ k in
      elim (Bool-cases (not (breakpoint_attr_flag bkpt_attr_flag_enable b))) [
        | inl off ↦
            Inv-returned w w' success status i
              (then_eq (not (breakpoint_attr_flag bkpt_attr_flag_enable b)) _ off l)
        | inr on ↦
            let (s, _, n) =
              bind-eq-ok (slot_of b.slot_set w.slot_sets) _
                (else_eq (not (breakpoint_attr_flag bkpt_attr_flag_enable b)) _ on l) in
            patched-Inv p (w.memory (bp_get_slot_offset s b.slot_index)) _ b
              (breakpoint_attr_clr bkpt_attr_flag_enable b) w w' status i d refl n
      ]

  breakpoint_new-Inv :
      (calloc : Bool) (p : ℕ) (w w' : World) → Inv w → breakpoint_new calloc w ≡ ok (w', p) → Inv w'
  unfolding breakpoint_new
  breakpoint_new-Inv false p w w' i h = absurd (ground arith)
  breakpoint_new-Inv true p w w' i h = subst Inv (ap (λ r. r.0) (ok_inj h)) (record {
    tree = record {
      sorted = i.tree.sorted;
      back =
          λ addr f e. omega (arith, i.tree.back addr f e, length-append w.breakpoints (fresh ∷ []));
    };
    each = λ j b e. elim (deref-snoc w.breakpoints fresh b j e) [
      | inl there ↦ i.each j b there
      | inr (at, same) ↦ subst (BkptInv w.slot_sets j) (sym same) (record {
        enter = sym at;
        return = sym at;
        slots = λ q none_is_some. absurd (ground arith);
      })
    ];
  })
    where
      entry : BpEntry
      entry = record { address = 0; bkpt = length w.breakpoints; rb_empty = true }

      fresh : Breakpoint
      fresh = record {
        attr = 0;
        bp_enter = entry;
        bp_return = entry;
        slot_set = none;
        slot_index = 0;
        obj = none;
        chained = false;
      }

  Call-Inv : {w w' : World} → Inv w → Call w w' → Inv w'
  Call-Inv i (new calloc p {w} {w'} h) = breakpoint_new-Inv calloc p w w' i h
  Call-Inv i (aim p addr attr b {w} held empty) =
      let its = i.each p b held in
      Consistent-set w.tree w.breakpoints w.slot_sets i p b
        (record b { bp_enter = record b.bp_enter { address = addr }; attr = attr }) held
        (record { enter = its.enter; return = its.return; slots = its.slots })
  Call-Inv i (add p status {w} {w'} h) = breakpoint_add-Inv m p w w' status i h
  Call-Inv i (enable p status {w} {w'} h) = breakpoint_enable-Inv p w w' status i h
  Call-Inv i (disable p status {w} {w'} h) = breakpoint_disable-Inv p w w' status i h

  -- Whatever breakpoints are made, given addresses and flags, added, refused, enabled and disabled, in any order, as long
  -- as the calls return: the tree stays a search tree, each of its entries points to a breakpoint that was
  -- made, the entries of each breakpoint point back to it, and the set of its slot, if it has one, exists.
  pub Calls-Inv : {w w' : World} → Inv w → Calls w w' → Inv w'
  Calls-Inv i start = i
  Calls-Inv i (behind calls last) = Call-Inv (Calls-Inv i calls) last
