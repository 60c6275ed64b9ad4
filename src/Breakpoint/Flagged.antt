-- ===== src/Breakpoint/Flagged.antt =====
-- `breakpoint_enable` of signal_test/breakpoint.c stores flags of its own breakpoint and nothing else of any.
use atrace.Prelude.{
  ℕ, ◌≡◌, refl, sym, ap, ◌∙◌, inl, inr, not, then_eq, else_eq, Bool-cases, set, ok, check,
  bind-eq-ok, ok_inj, Status, subst,
}
use atrace.Breakpoint.{
  Breakpoint, World, Machine, brk, bkpt_attr_flag_enable, breakpoint_attr_flag, breakpoint_attr_set,
  deref,
}
use atrace.Breakpoint.Code.{patch_object, breakpoint_enable}
use atrace.Breakpoint.Keeps.{patch_object-Of}
use atrace.Breakpoint.Stored.{set_same}

-- The breakpoint `p`, which was `b`, has other flags.
abbrev pub Flagged : ℕ → Breakpoint → World → World → Type 0
Flagged p b w w' = (attr : ℕ) × (w'.breakpoints ≡ set w.breakpoints p (record b { attr = attr }))

module _ (m : Machine) where
  pub breakpoint_enable-Flagged :
      (p : ℕ) (b : Breakpoint) (w w' : World) (status : Status)
      → deref w.breakpoints p ≡ ok b
      → breakpoint_enable m p w ≡ ok (w', status)
      → Flagged p b w w'
  unfolding breakpoint_enable breakpoint_attr_set
  breakpoint_enable-Flagged p b w w' status held h =
      let (c, d, k) = bind-eq-ok (deref w.breakpoints p) _ h in
      let (_, _, l) = bind-eq-ok (check (not c.bp_enter.rb_empty)) _ k in
      subst (λ (x : Breakpoint). Flagged p x w w') (ok_inj (sym d ∙ held))
        (elim (Bool-cases (breakpoint_attr_flag bkpt_attr_flag_enable c)) [
          | inl on ↦
              let same = then_eq (breakpoint_attr_flag bkpt_attr_flag_enable c) _ on l in
              (
                c.attr,
                ap (λ (r : World × Status). r.0.breakpoints) (sym (ok_inj same))
                    ∙ sym (set_same w.breakpoints p c d),
              )
          | inr off ↦
              let enabled = breakpoint_attr_set bkpt_attr_flag_enable c in
              let (u, e, n) =
                bind-eq-ok
                  (patch_object m c.obj enabled brk
                    (record w { breakpoints = set w.breakpoints p enabled }))
                  _ (else_eq (breakpoint_attr_flag bkpt_attr_flag_enable c) _ off l) in
              (
                enabled.attr,
                ap (λ (r : World × Status). r.0.breakpoints) (sym (ok_inj n))
                    ∙ patch_object-Of m (λ t bs sets. bs ≡ set w.breakpoints p enabled) c.obj
                        enabled brk _ u refl e,
              )
        ])
