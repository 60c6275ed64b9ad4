-- ===== src/Hook/Setup.antt =====
-- `lib_init` of signal_test/hook_main.c: the breakpoints that it places, and the process that it leaves.
mod Examples
use atrace.Prelude.{
  ℕ, zero, suc, ◌+◌, ◌%◌, ◌^◌, ◌<◌, ◌≡◌, refl, ◌≢◌, sym, ap, subst, ◌∙◌, arith, Bool, Option, none,
  some, List, [], ◌∷◌, ◌++◌, length, set, Run, ok, fault, ◌>>=◌, bind-eq-ok, ok_inj, Status,
  success, minus,
}
use atrace.ThreadMap.{ThreadMap, thread_map_init, thread_map_size}
use atrace.ThreadMap.Laws.{IsValid, thread_map_init-IsValid}
use atrace.BpTree.{BpEntry}
use atrace.Object.{Object}
use atrace.Object.Maps.{object_load}
use atrace.Object.Entry.{Files, object_get_self_entrypoint}
use atrace.Slot.{SlotSet}
use atrace.Breakpoint.{
  Breakpoint, World, Machine, breakpoint_new, breakpoint_add, breakpoint_attr_flag, deref, find_set,
  slot_of,
}
use atrace.Breakpoint.Code.{breakpoint_enable}
use atrace.Breakpoint.Patch.{deref-set}
use atrace.Breakpoint.Consistent.{deref-set_ne, deref-lt}
use atrace.Breakpoint.AddInv.{Inv}
use atrace.Breakpoint.Calls.{Call, Calls, new, aim, add, enable, start, behind, Calls-Inv}
use atrace.Breakpoint.Stored.{HasSet, breakpoint_add-Stored}
use atrace.Breakpoint.Flagged.{breakpoint_enable-Flagged}
use atrace.Hook.{
  Process, Loader, entrypoint_trap, or_abort, at_address, place, start_of_object, lib_init,
}
use atrace.Hook.EntryPoint.{IsEntry}
use atrace.Hook.Placing.{place-IsAimed}

-- What `lib_init` leaves behind: breakpoints and threads in order, the handler of the entry point, and a breakpoint with a slot at
-- the entry point of the program.
pub record Ready (loader : Loader) (files : Files) (s s' : Process) : Type 0 where
  pub inv : Inv s'.world
  pub valid : IsValid s'.threads
  pub handler : s'.handler ≡ entrypoint_trap
  pub same_hit : s'.entry_hit ≡ s.entry_hit
  pub objects : List Object
  pub loaded :
      object_load loader.object_lists loader.memory loader.self loader.opened loader.reads
        s.world.objects
      ≡ ok objects
  pub p : ℕ
  pub bkpt : Breakpoint
  pub set : SlotSet
  pub entry : IsEntry s' p bkpt set
  pub address : object_get_self_entrypoint files objects ≡ ok bkpt.bp_enter.address

slot_of-HasSet :
    (w : World) (p : ℕ) (b : Breakpoint)
    → Inv w
    → deref w.breakpoints p ≡ ok b
    → HasSet b
    → (s : SlotSet) × (slot_of b.slot_set w.slot_sets ≡ ok s)
unfolding slot_of
slot_of-HasSet w p b i held (q, has) =
    let (s, e) = (i.each p b held).slots q has in (s, ap (λ o. slot_of o w.slot_sets) has ∙ e)

module _ (m : Machine) where
  -- Where lib_init returns, on a process whose breakpoints, tree and slots are in order and whose array of threads has its length,
  -- they are in order again, there is no thread, the handler is that of the entry point, and the breakpoint of the
  -- entry point stands at the address that the header of the program names, with a slot in a set that exists.
  pub lib_init-Ready :
      (calloc : Bool) (loader : Loader) (files : Files) (s s' : Process)
      → Inv s.world
      → length s.threads ≡ thread_map_size
      → lib_init m calloc loader files s ≡ ok s'
      → Ready loader files s s'
  unfolding lib_init
  lib_init-Ready calloc loader files s s' i width h =
      let (objects, loaded, h₁) =
        bind-eq-ok
          (object_load loader.object_lists loader.memory loader.self loader.opened loader.reads
            s.world.objects)
          _ h in
      let (entry_point, entry, h₂) = bind-eq-ok (object_get_self_entrypoint files objects) _ h₁ in
      let (first, e, h₃) =
        bind-eq-ok (place m calloc entry_point (record s.world { objects = objects })) _ h₂ in
      let (b, _, h₄) = bind-eq-ok (deref first.0.breakpoints first.1) _ h₃ in
      let (text_start, _, h₅) = bind-eq-ok (start_of_object b.obj first.0.objects) _ h₄ in
      let (second, f, h₆) =
        bind-eq-ok (place m calloc ((text_start + 0xdac) % 2 ^ 64) first.0) _ h₅ in
      let a = place-IsAimed m calloc entry_point (record s.world { objects = objects }) first i e in
      let a' = place-IsAimed m calloc ((text_start + 0xdac) % 2 ^ 64) first.0 second a.inv f in
      let apart : first.1 ≢ second.1 =
        λ same. omega (arith, deref-lt first.0.breakpoints first.1 a.bkpt a.held, a'.last, same) in
      let held = a'.others first.1 apart ∙ a.held in
      let (set, slots) = slot_of-HasSet second.0 first.1 a.bkpt a'.inv held a.slot in
      subst (Ready loader files s) (ok_inj h₆) (record {
        inv = a'.inv;
        valid = (thread_map_init-IsValid s.threads width).0;
        handler = refl;
        same_hit = refl;
        objects = objects;
        loaded = loaded;
        p = first.1;
        bkpt = a.bkpt;
        set = set;
        entry = record { entry = refl; held = held; slots = slots };
        address = entry ∙ ap ok (sym a.address);
      })
