-- ===== src/Life.antt =====
-- packages/core/src/domain/life-model.ts: the inbox, folders and resources, and the checks of their
-- schemas; titles and names are trimmed.
use new_day.Prelude.{Bool, ◌&&◌, Option, leb}
use new_day.Prelude.Strings.{Text, utf16_length, trim}
use new_day.Model.{if_some, ResourceTaskLink}

pub record InboxItem : Type 0 where
  pub id : Text
  pub title : Text
  pub notes : Text
  pub source_resource_id : Option Text
  pub created_at : Text
  pub updated_at : Text

pub record LifeFolder : Type 0 where
  pub id : Text
  pub parent_id : Option Text
  pub name : Text
  pub created_at : Text
  pub updated_at : Text

pub data ResourceKind : Type 0 where
  note link : ResourceKind

pub record LifeResource : Type 0 where
  pub id : Text
  pub folder_id : Option Text
  pub kind : ResourceKind
  pub title : Text
  pub content : Text
  pub source : Text
  pub created_at : Text
  pub updated_at : Text

abbrev is_life_id : Text → Bool
is_life_id t = leb 1 (utf16_length t) && leb (utf16_length t) 512

abbrev is_life_title : Text → Bool
is_life_title t = leb 1 (utf16_length t) && leb (utf16_length t) 200

unfoldable pub link_check : ResourceTaskLink → Bool
link_check l = is_life_id l.resource_id && is_life_id l.task_id

abbrev pub trim_item : InboxItem → InboxItem
trim_item i = record i { title = trim i.title }

abbrev pub trim_folder : LifeFolder → LifeFolder
trim_folder f = record f { name = trim f.name }

abbrev pub trim_resource : LifeResource → LifeResource
trim_resource r = record r { title = trim r.title }

module _ (is_instant : Text → Bool) where
  unfoldable pub inbox_item_check : InboxItem → Bool
  inbox_item_check i =
      is_life_id i.id
      && is_life_title i.title
      && leb (utf16_length i.notes) 10000
      && if_some is_life_id i.source_resource_id
      && is_instant i.created_at
      && is_instant i.updated_at

  unfoldable pub folder_check : LifeFolder → Bool
  folder_check f =
      is_life_id f.id
      && if_some is_life_id f.parent_id
      && leb 1 (utf16_length f.name)
      && leb (utf16_length f.name) 80
      && is_instant f.created_at
      && is_instant f.updated_at

  unfoldable pub resource_check : LifeResource → Bool
  resource_check r =
      is_life_id r.id
      && if_some is_life_id r.folder_id
      && is_life_title r.title
      && leb (utf16_length r.content) 10000
      && leb (utf16_length r.source) 1000
      && is_instant r.created_at
      && is_instant r.updated_at
