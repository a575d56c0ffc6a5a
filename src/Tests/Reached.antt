-- ===== src/Tests/Reached.antt =====
-- The theorems on runs and on the scan's rounds, at concrete inputs.
use keth.Prelude.{
  ℤ, Relocatable, Result, sym, ap, ◌∙◌, pos, ◌≤◌, [], ◌∷◌, ◌≡◌, refl, arith, some, none, ok, length,
}
use keth.Machine.{relocatable}
use keth.Dicts.{DictManager, DictTracker, World, set_tracker}
use keth.Hints.Dict.{dict_new_empty, update_dict_tracker}
use keth.Hints.Invariant.Reach.{Reach, here, next, hint, move, new_empty, reached_trackers_found}
use keth.Hints.Utils.Jumpdest.{scan, get_valid_jump_destinations}
use keth.Hints.Utils.Jumpdest.Fuel.{scan_enough_fuel}
use keth.Tests.Library.{felts, machine, Vm, Variables, at, vm_insert}
use keth.Tests.Store.{Store, dict_lib}
use keth.Tests.Cells.{cells_of}

abbrev variables : Variables
variables = ("current_tracker_ptr", at 0 0) ∷ ("new_tracker_ptr", at 0 1) ∷ []

abbrev vm : Vm
vm = record {
  cells = cells_of ((at 0 1, relocatable (at 8 9)) ∷ []);
  next_segment = 8;
  ap_register = at 0 0;
  fp_register = at 0 0;
}

abbrev no_trackers : DictManager Store
no_trackers = record { trackers = λ j. none; preimages = λ h. none }

abbrev start : World Vm Store
start = record { vm = vm; dict_manager = some no_trackers }

abbrev fresh : DictTracker Store
fresh = record { current_ptr = at 8 0; dict = record { items = []; fallback = none } }

abbrev one_tracker : DictManager Store
one_tracker = set_tracker no_trackers (pos 8) fresh

abbrev created : World Vm Store
created = record {
  vm = (vm_insert (at 0 0) (relocatable (at 8 0)) (record vm { next_segment = 9 })).1;
  dict_manager = some one_tracker;
}

abbrev moved : DictTracker Store
moved = record fresh { current_ptr = at 8 9 }

abbrev end : World Vm Store
end = record created { dict_manager = some (set_tracker one_tracker (pos 8) moved) }

abbrev segment_of : Result Relocatable → ℤ
segment_of (ok p) = p.segment_index
segment_of _ = pos 0

-- A dictionary is created, and its tracker moved nine cells on.
steps : Reach felts machine dict_lib start end
unfolding dict_new_empty update_dict_tracker
steps =
    next (next here (hint (dict_new_empty machine dict_lib variables) (new_empty variables) refl))
      (move variables (λ p q at_p at_q. sym (ap segment_of at_q) ∙ ap segment_of at_p) refl)

reached_trackers_found_example :
    ((at 8 9).segment_index ≡ pos 8)
    × (dict_lib.get_tracker (set_tracker one_tracker (pos 8) moved) (at 8 9) ≡ ok moved)
reached_trackers_found_example =
    reached_trackers_found felts machine dict_lib start end no_trackers
      (set_tracker one_tracker (pos 8) moved) (pos 8) moved refl (λ k. refl) steps refl refl

scan_enough_fuel_example :
    (scan (0x5b ∷ 0x60 ∷ []) 5 0 [] ≡ get_valid_jump_destinations (0x5b ∷ 0x60 ∷ []))
    × (length (scan (0x5b ∷ 0x60 ∷ []) 5 0 []) ≤ 2)
scan_enough_fuel_example = scan_enough_fuel (0x5b ∷ 0x60 ∷ []) 5 (omega arith)
