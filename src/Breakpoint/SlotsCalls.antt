-- ===== src/Breakpoint/SlotsCalls.antt =====
-- Calls of signal_test/breakpoint.c one after the other, and the slots of the added breakpoints.
use atrace.Prelude.{
  ℕ, ◌≡◌, ◌∙◌, refl, sym, ap, subst, inl, inr, arith, Bool, true, false, not, some, none, List, [],
  ◌∷◌, ◌++◌, then_eq, else_eq, Bool-cases, set, ok, check, ◌>>=◌, bind-eq-ok, ok_inj, Status,
  success,
}
use atrace.Slot.{PageSource, SlotSet, bp_get_slot_offset}
use atrace.Breakpoint.{
  Breakpoint, World, Machine, bkpt_attr_flag_enable, breakpoint_attr_flag, breakpoint_attr_set,
  breakpoint_attr_clr, breakpoint_new, deref, brk, slot_of, breakpoint_add,
}
use atrace.Breakpoint.Code.{patch_object, breakpoint_enable, breakpoint_disable}
use atrace.Breakpoint.Consistent.{deref-snoc}
use atrace.Breakpoint.Keeps.{Of, patch_object-Of}
use atrace.Breakpoint.AddInv.{Inv}
use atrace.Breakpoint.Calls.{Call, Calls, new, aim, add, enable, disable, start, behind, Calls-Inv}
use atrace.Breakpoint.Slots.{Slots, Slots-set}
use atrace.Breakpoint.SlotsAdd.{breakpoint_add-Slots}

-- A breakpoint behind the others that has no slot.
Slots-snoc :
    (source : PageSource) (bs : List Breakpoint) (sets : List SlotSet) (c : Breakpoint)
    → c.slot_set ≡ none
    → Slots source bs sets
    → Slots source (bs ++ c ∷ []) sets
Slots-snoc source bs sets c bare s =
    let no = λ (d : Breakpoint) (same : d ≡ c) (q : ℕ) (has : d.slot_set ≡ some q).
      absurd {A = ⊥} (ground (arith, sym has ∙ ap (λ (x : Breakpoint). x.slot_set) same ∙ bare)) in
    record {
      pool = s.pool;
      given = s.given;
      in_tree = λ p b q e has. elim (deref-snoc bs c b p e) [
        | inl there ↦ s.in_tree p b q there has
        | inr (_, same) ↦ absurd (no b same q has)
      ];
      taken = λ p b q j e has. elim (deref-snoc bs c b p e) [
        | inl there ↦ s.taken p b q j there has
        | inr (_, same) ↦ absurd (no b same q has.of)
      ];
      apart = λ p r b d q j e f has has'. elim (deref-snoc bs c b p e) [
        | inl there ↦ elim (deref-snoc bs c d r f) [
          | inl there' ↦ s.apart p r b d q j there there' has has'
          | inr (_, same) ↦ absurd (no d same q has'.of)
        ]
        | inr (_, same) ↦ absurd (no b same q has.of)
      ];
    }

module _ (m : Machine) where
  -- What is said of the slots of a world.
  abbrev pub SlotsOf : World → Type 0
  SlotsOf = Of (λ _ bs sets. Slots m.source bs sets)

  -- Other flags of a breakpoint.
  flagged-Slots :
      (p attr : ℕ) (b : Breakpoint) (w : World)
      → SlotsOf w
      → deref w.breakpoints p ≡ ok b
      → Slots m.source (set w.breakpoints p (record b { attr = attr })) w.slot_sets
  flagged-Slots p attr b w s held =
      Slots-set m.source w.breakpoints w.slot_sets s p b (record b { attr = attr }) held
        (λ q has. s.in_tree p b q held has)
        (λ q j has.
          s.taken p b q j held (record { added = has.added; of = has.of; index = has.index }))
        (λ r d q j e has mine.
          s.apart r p d b q j e held has
            (record { added = mine.added; of = mine.of; index = mine.index }))

  -- And then its code.
  patched-Slots :
      (p v attr : ℕ) (old b : Breakpoint) (w w' : World) (status : Status)
      → SlotsOf w
      → deref w.breakpoints p ≡ ok old
      → b ≡ record old { attr = attr }
      → ◌>>=◌ {B = World × Status}
          (patch_object m old.obj b v (record w { breakpoints = set w.breakpoints p b }))
          (λ u. ok (u, success))
        ≡ ok (w', status)
      → SlotsOf w'
  patched-Slots p v attr old b w w' status s held e h =
      let stored : Slots m.source (set w.breakpoints p b) w.slot_sets =
        subst (λ (x : Breakpoint). Slots m.source (set w.breakpoints p x) w.slot_sets) (sym e)
          (flagged-Slots p attr old w s held) in
      let (u, patched, k) =
        bind-eq-ok (patch_object m old.obj b v (record w { breakpoints = set w.breakpoints p b })) _
          h in
      subst (λ (r : World × Status). SlotsOf r.0) (ok_inj k)
        (patch_object-Of m (λ _ bs sets. Slots m.source bs sets) old.obj b v _ u stored patched)

  breakpoint_enable-Slots :
      (p : ℕ) (w w' : World) (status : Status)
      → SlotsOf w
      → breakpoint_enable m p w ≡ ok (w', status)
      → SlotsOf w'
  unfolding breakpoint_enable breakpoint_attr_set
  breakpoint_enable-Slots p w w' status s h =
      let (b, d, k) = bind-eq-ok (deref w.breakpoints p) _ h in
      let (_, _, l) = bind-eq-ok (check (not b.bp_enter.rb_empty)) _ k in
      elim (Bool-cases (breakpoint_attr_flag bkpt_attr_flag_enable b)) [
        | inl on ↦
            subst (λ (r : World × Status). SlotsOf r.0)
              (ok_inj (then_eq (breakpoint_attr_flag bkpt_attr_flag_enable b) _ on l)) s
        | inr off ↦
            patched-Slots p brk _ b (breakpoint_attr_set bkpt_attr_flag_enable b) w w' status s d
              refl (else_eq (breakpoint_attr_flag bkpt_attr_flag_enable b) _ off l)
      ]

  breakpoint_disable-Slots :
      (p : ℕ) (w w' : World) (status : Status)
      → SlotsOf w
      → breakpoint_disable m p w ≡ ok (w', status)
      → SlotsOf w'
  unfolding breakpoint_disable breakpoint_attr_clr
  breakpoint_disable-Slots p w w' status s h =
      let (b, d, k) = bind-eq-ok (deref w.breakpoints p) _ h in
      let (_, _, l) = bind-eq-ok (check (not b.bp_enter.rb_empty)) _ k in
      elim (Bool-cases (not (breakpoint_attr_flag bkpt_attr_flag_enable b))) [
        | inl off ↦
            subst (λ (r : World × Status). SlotsOf r.0)
              (ok_inj (then_eq (not (breakpoint_attr_flag bkpt_attr_flag_enable b)) _ off l)) s
        | inr on ↦
            let (t, _, n) =
              bind-eq-ok (slot_of b.slot_set w.slot_sets) _
                (else_eq (not (breakpoint_attr_flag bkpt_attr_flag_enable b)) _ on l) in
            patched-Slots p (w.memory (bp_get_slot_offset t b.slot_index)) _ b
              (breakpoint_attr_clr bkpt_attr_flag_enable b) w w' status s d refl n
      ]

  breakpoint_new-Slots :
      (calloc : Bool) (p : ℕ) (w w' : World)
      → SlotsOf w
      → breakpoint_new calloc w ≡ ok (w', p)
      → SlotsOf w'
  unfolding breakpoint_new
  breakpoint_new-Slots false p w w' s h = absurd (ground arith)
  breakpoint_new-Slots true p w w' s h =
      subst (λ (r : World × ℕ). SlotsOf r.0) (ok_inj h)
        (Slots-snoc m.source w.breakpoints w.slot_sets _ refl s)

  module _
      (once : (i j r : ℕ) → m.source.calloc i ≡ some r → m.source.calloc j ≡ some r → i ≡ j) where
    Call-Slots : {w w' : World} → Inv w → SlotsOf w → Call m w w' → SlotsOf w'
    unfolding breakpoint_add
    Call-Slots i s (new calloc p {w} {w'} h) = breakpoint_new-Slots calloc p w w' s h
    Call-Slots i s (aim p addr attr b {w} held empty) =
        let bare : (q : ℕ) → b.slot_set ≡ some q → ⊥ =
          λ q has. absurd (ground (arith, sym (s.in_tree p b q held has) ∙ empty)) in
        Slots-set m.source w.breakpoints w.slot_sets s p b _ held (λ q has. absurd (bare q has))
          (λ q j has. absurd (bare q has.of)) (λ r d q j e has mine. absurd (bare q mine.of))
    Call-Slots i s (add p status {w} {w'} h) =
        let (b, held, _) = bind-eq-ok (deref w.breakpoints p) _ h in
        breakpoint_add-Slots m once p b w w' status i s held h
    Call-Slots i s (enable p status {w} {w'} h) = breakpoint_enable-Slots p w w' status s h
    Call-Slots i s (disable p status {w} {w'} h) = breakpoint_disable-Slots p w w' status s h

    -- Whatever breakpoints are made, given addresses and flags, added, refused, enabled and disabled, in any order, as long
    -- as the calls return, and where `calloc` never gives one address twice: the slot sets stay valid, the slot of each
    -- added breakpoint that has one has an index below SLOT_NUM and is not free in its set, and no two added breakpoints have the
    -- same slot.
    pub Calls-Slots : {w w' : World} → Inv w → SlotsOf w → Calls m w w' → SlotsOf w'
    Calls-Slots i s start = s
    Calls-Slots i s (behind calls last) =
        Call-Slots (Calls-Inv m i calls) (Calls-Slots i s calls) last
