-- ===== src/Tests/Shelved.antt =====
-- The life service at a small state: a folder in a folder, and a resource in it.
use new_day.Prelude.{Option, none, some, List, [], ◌∷◌, In}
use new_day.Prelude.Strings.{codes, text_eq}
use new_day.Table
use new_day.Life.{LifeFolder, LifeResource, note}
use new_day.LifeService.{LifeHost, LifeState}
use new_day.Tests.Data.{morning, noon}

abbrev desk_host : LifeHost
desk_host = record {
  now = noon;
  random_uuid = codes "b";
  same_base = text_eq;
  same_nocase = text_eq;
}

abbrev home : LifeFolder
home = record {
  id = codes "a";
  parent_id = none;
  name = codes "home";
  created_at = morning;
  updated_at = morning;
}

abbrev garden : LifeFolder
garden = record {
  id = codes "b";
  parent_id = some (codes "a");
  name = codes "garden";
  created_at = noon;
  updated_at = noon;
}

abbrev seeds : LifeResource
seeds = record {
  id = codes "r";
  folder_id = some (codes "a");
  kind = note;
  title = codes "seeds";
  content = [];
  source = [];
  created_at = morning;
  updated_at = morning;
}

abbrev shelf : LifeState
shelf = record { folders = home ∷ []; resources = seeds ∷ []; inbox = [] }

abbrev larger_shelf : LifeState
larger_shelf = record shelf { folders = home ∷ garden ∷ [] }
