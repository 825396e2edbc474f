-- ===== src/LifeService/Requests.antt =====
-- The calls of apps/api/src/services/life-service.ts that write, and the shape that they keep.
use new_day.Prelude.{Option, ◌⊎◌}
use new_day.Prelude.Strings.{Text}
use new_day.Life.{ResourceKind, LifeResource}
use new_day.LifeService.{
  LifeHost, LifeError, LifeState, ResourceInput, create_folder, rename_folder, create_resource,
  update_resource, capture, remove_inbox, to_resource,
}

-- A call of the service, for what is said of all of them at once.
pub data LifeCall : Type 0 where
  creates_folder : Option Text → Text → LifeCall
  renames_folder : Text → Text → LifeCall
  creates_resource : ResourceInput → LifeCall
  updates_resource : Text → ResourceInput → LifeResource → LifeCall
  captures : Text → Text → Option Text → LifeCall
  removes_inbox : Text → LifeCall
  files_item : Text → Option Text → ResourceKind → Text → LifeCall

abbrev pub run : LifeHost → LifeCall → LifeState → LifeError ⊎ LifeState
run host (creates_folder parent name) s = create_folder host parent name s
run host (renames_folder id name) s = rename_folder host id name s
run host (creates_resource input) s = create_resource host input s
run host (updates_resource id input expected) s = update_resource host id input expected s
run host (captures title notes source) s = capture host title notes source s
run host (removes_inbox id) s = remove_inbox host id s
run host (files_item id folder kind source) s = to_resource host id folder kind source s
