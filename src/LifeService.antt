-- ===== src/LifeService.antt =====
-- apps/api/src/services/life-service.ts: folders, resources and the inbox, with the writes of
-- apps/api/src/storage/sqlite-planner-store.ts that it calls. A transaction that throws keeps
-- nothing, so a failed call is its error alone. `toTask`, `link`, `unlink` and `workspace` are
-- left out.
pub mod Folders
pub mod Writes
pub mod Requests
use new_day.Prelude.{
  Bool, true, false, not, ◌&&◌, ◌||◌, Option, none, some, List, [], ◌∷◌, any, ◌⊎◌, inl, inr,
  is_some, holds,
}
use new_day.Prelude.Strings.{Text, text_eq}
use new_day.Prelude.Checked.{require, then_check}
use new_day.Table.{find, put, remove}
use new_day.Model.{if_some}
use new_day.Life.{InboxItem, LifeFolder, ResourceKind, note, link, LifeResource}

-- The clock, the source of identifiers, and the comparisons of names: `localeCompare` with the
-- sensitivity "base", and `COLLATE NOCASE` of SQLite.
pub record LifeHost : Type 0 where
  pub now : Text
  pub random_uuid : Text
  pub same_base : Text → Text → Bool
  pub same_nocase : Text → Text → Bool

pub data LifeError : Type 0 where
  source_missing item_missing folder_missing target_missing parent_missing : LifeError
  too_deep name_taken resource_missing resource_changed constraint : LifeError

pub record LifeState : Type 0 where
  pub folders : List LifeFolder
  pub resources : List LifeResource
  pub inbox : List InboxItem

-- What a form sends of a resource.
pub record ResourceInput : Type 0 where
  pub folder_id : Option Text
  pub kind : ResourceKind
  pub title : Text
  pub content : Text
  pub source : Text

abbrev pub folder_key : LifeFolder → Text
folder_key f = f.id

abbrev pub resource_key : LifeResource → Text
resource_key r = r.id

abbrev pub item_key : InboxItem → Text
item_key i = i.id

unfoldable pub get_folder : Text → LifeState → Option LifeFolder
get_folder id s = find folder_key id s.folders

abbrev pub get_resource : Text → LifeState → Option LifeResource
get_resource id s = find resource_key id s.resources

abbrev get_inbox_item : Text → LifeState → Option InboxItem
get_inbox_item id s = find item_key id s.inbox

-- `===` on strings that may be null.
abbrev pub same_nullable : Option Text → Option Text → Bool
same_nullable none none = true
same_nullable none (some b) = false
same_nullable (some a) none = false
same_nullable (some a) (some b) = text_eq a b

abbrev same_kind : ResourceKind → ResourceKind → Bool
same_kind note note = true
same_kind link link = true
same_kind _ _ = false

-- `isDeepStrictEqual` of two resources.
abbrev pub same_resource : LifeResource → LifeResource → Bool
same_resource a b =
    text_eq a.id b.id
    && same_nullable a.folder_id b.folder_id
    && same_kind a.kind b.kind
    && text_eq a.title b.title
    && text_eq a.content b.content
    && text_eq a.source b.source
    && text_eq a.created_at b.created_at
    && text_eq a.updated_at b.updated_at

-- An id that is given_id: null and the empty string are none.
abbrev pub given_id : Option Text → Option Text
given_id none = none
given_id (some []) = none
given_id (some (n ∷ ns)) = some (n ∷ ns)

-- `REFERENCES life_folders(id)`.
abbrev pub has_folder : LifeState → Text → Bool
has_folder s id = is_some (get_folder id s)

-- `requireFolder`.
unfoldable pub require_folder : Option Text → LifeState → LifeError ⊎ Unit {0}
require_folder id s = require (if_some (has_folder s) (given_id id)) target_missing (inr tt)

abbrev pub is_root : LifeFolder → Bool
is_root f = not (is_some f.parent_id)

-- `requireParent`.
unfoldable pub require_parent : Option Text → LifeState → LifeError ⊎ Unit {0}
require_parent id s =
    require (if_some (has_folder s) (given_id id)) parent_missing
      (require (if_some (λ p. holds is_root (get_folder p s)) (given_id id)) too_deep (inr tt))

abbrev pub is_except : Option Text → LifeFolder → Bool
is_except except f = holds (text_eq f.id) except

module _ (host : LifeHost) where
  -- A folder beside the named one, under a name that reads the same.
  abbrev pub takes_name : Option Text → Text → Option Text → LifeFolder → Bool
  takes_name parent name except f =
      not (is_except except f) && same_nullable f.parent_id parent && host.same_base f.name name

  -- `assertNameAvailable`.
  unfoldable pub assert_name_available :
      Option Text → Text → Option Text → LifeState → LifeError ⊎ Unit {0}
  assert_name_available parent name except s =
      require (not (any (takes_name parent name except) s.folders)) name_taken (inr tt)

  -- The unique indexes of the names of folders.
  abbrev pub breaks_index : LifeFolder → LifeFolder → Bool
  breaks_index f g =
      not (text_eq g.id f.id)
      && same_nullable g.parent_id f.parent_id
      && host.same_nocase g.name f.name

  -- `putFolder`.
  unfoldable pub put_folder : LifeFolder → LifeState → LifeError ⊎ LifeState
  put_folder f s =
      require (if_some (λ p. text_eq p f.id || has_folder s p) f.parent_id) constraint (
        require (not (any (breaks_index f) s.folders)) constraint
          (inr (record s { folders = put folder_key f s.folders })))

  -- `putResource`.
  unfoldable pub put_resource : LifeResource → LifeState → LifeError ⊎ LifeState
  put_resource r s =
      require (if_some (has_folder s) r.folder_id) constraint
        (inr (record s { resources = put resource_key r s.resources }))

  -- `putInboxItem`.
  unfoldable pub put_inbox_item : InboxItem → LifeState → LifeError ⊎ LifeState
  put_inbox_item i s =
      require (if_some (λ id. is_some (get_resource id s)) i.source_resource_id) constraint
        (inr (record s { inbox = put item_key i s.inbox }))

  unfoldable pub create_folder : Option Text → Text → LifeState → LifeError ⊎ LifeState
  create_folder parent name s = then_check (require_parent parent s) (
      then_check (assert_name_available parent name none s) (
        put_folder
          (record {
            id = host.random_uuid;
            parent_id = parent;
            name = name;
            created_at = host.now;
            updated_at = host.now;
          })
          s))

  unfoldable pub rename_found : Text → Text → LifeState → Option LifeFolder → LifeError ⊎ LifeState
  rename_found id name s none = inl folder_missing
  rename_found id name s (some f) =
      then_check (assert_name_available f.parent_id name (some id) s)
        (put_folder (record f { name = name; updated_at = host.now }) s)

  unfoldable pub rename_folder : Text → Text → LifeState → LifeError ⊎ LifeState
  rename_folder id name s = rename_found id name s (get_folder id s)

  unfoldable pub create_resource : ResourceInput → LifeState → LifeError ⊎ LifeState
  create_resource input s = then_check (require_folder input.folder_id s) (
      put_resource
        (record {
          id = host.random_uuid;
          folder_id = input.folder_id;
          kind = input.kind;
          title = input.title;
          content = input.content;
          source = input.source;
          created_at = host.now;
          updated_at = host.now;
        })
        s)

  abbrev pub revised : LifeResource → ResourceInput → LifeResource
  revised r input = record r {
    folder_id = input.folder_id;
    kind = input.kind;
    title = input.title;
    content = input.content;
    source = input.source;
    updated_at = host.now;
  }

  unfoldable pub update_found :
      Text → ResourceInput → LifeResource → LifeState → Option LifeResource → LifeError ⊎ LifeState
  update_found id input expected s none = inl resource_missing
  update_found id input expected s (some r) =
      require (text_eq expected.id id && same_resource r expected) resource_changed
        (then_check (require_folder input.folder_id s) (put_resource (revised r input) s))

  unfoldable pub update_resource :
      Text → ResourceInput → LifeResource → LifeState → LifeError ⊎ LifeState
  update_resource id input expected s = update_found id input expected s (get_resource id s)

  unfoldable pub capture : Text → Text → Option Text → LifeState → LifeError ⊎ LifeState
  capture title notes source s =
      require (if_some (λ id. is_some (get_resource id s)) (given_id source)) source_missing (
        put_inbox_item
          (record {
            id = host.random_uuid;
            title = title;
            notes = notes;
            source_resource_id = source;
            created_at = host.now;
            updated_at = host.now;
          })
          s)

  abbrev delete_inbox_item : Text → LifeState → LifeState
  delete_inbox_item id s = record s { inbox = remove item_key id s.inbox }

  unfoldable pub remove_inbox : Text → LifeState → LifeError ⊎ LifeState
  remove_inbox id s =
      require (is_some (get_inbox_item id s)) item_missing (inr (delete_inbox_item id s))

  abbrev pub without_item : Text → LifeError ⊎ LifeState → LifeError ⊎ LifeState
  without_item id (inl e) = inl e
  without_item id (inr s) = inr (delete_inbox_item id s)

  unfoldable pub file_found :
      Text
      → Option Text
      → ResourceKind
      → Text
      → LifeState
      → Option InboxItem
      → LifeError ⊎ LifeState
  file_found id folder kind source s none = inl item_missing
  file_found id folder kind source s (some item) = then_check (require_folder folder s) (
      without_item id (
        put_resource
          (record {
            id = host.random_uuid;
            folder_id = folder;
            kind = kind;
            title = item.title;
            content = item.notes;
            source = source;
            created_at = host.now;
            updated_at = host.now;
          })
          s))

  unfoldable pub to_resource :
      Text → Option Text → ResourceKind → Text → LifeState → LifeError ⊎ LifeState
  to_resource id folder kind source s = file_found id folder kind source s (get_inbox_item id s)
