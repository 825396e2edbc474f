-- ===== src/LifeService/Writes.antt =====
-- The shape of the state of apps/api/src/services/life-service.ts, and that one write keeps it.
use new_day.Prelude.{
  ◌≡◌, sym, ap, ◌∙◌, true, false, Option, none, some, [], ◌∷◌, In, ◌⊎◌, inl, inr, arith,
  Option-cases, is_some, holds, ◌||◌,
}
use new_day.Prelude.Lists.{along}
use new_day.Prelude.Strings.{Text, text_eq}
use new_day.Prelude.Checked.{require-passed}
use new_day.Table.{find, put, find-put}
use new_day.Table.Order.{In-put}
use new_day.Model.{if_some}
use new_day.Life.{InboxItem, LifeFolder, LifeResource}
use new_day.LifeService.{
  LifeHost, LifeState, folder_key, resource_key, item_key, has_folder, is_root, get_folder,
  get_resource, require_parent, assert_name_available, put_folder, put_resource, put_inbox_item,
}
use new_day.LifeService.Folders.{
  TwoLevels, NamesApart, text_eq_comm, put-TwoLevels, is_some-put, put-NamesApart,
}

-- Each resource that is filed is in a folder.
abbrev Filed : LifeState → Type 0
Filed s =
    (r : LifeResource)
    → In r s.resources
    → (d : Text) → r.folder_id ≡ some d
    → is_some (find folder_key d s.folders) ≡ true

-- Each source of an item of the inbox is a resource.
abbrev Sourced : LifeState → Type 0
Sourced s =
    (i : InboxItem)
    → In i s.inbox
    → (d : Text) → i.source_resource_id ≡ some d
    → is_some (find resource_key d s.resources) ≡ true

-- Folders on two levels, siblings under different names, no reference that leads nowhere, and no
-- folder under the empty string.
abbrev pub Tidy : LifeHost → LifeState → Type 0
Tidy host s =
    TwoLevels s.folders
    × NamesApart host s.folders
    × Filed s
    × Sourced s
    × (find folder_key [] s.folders ≡ none)

pub inr_injective : {E A : Type 0} (a b : A) → ◌≡◌ {A = E ⊎ A} (inr a) (inr b) → a ≡ b
inr_injective a b h = ap (λ r. elim r [ inl e ↦ a | inr x ↦ x ]) h

module _ (host : LifeHost) where
  put_folder-put :
      (f : LifeFolder) (s t : LifeState)
      → put_folder host f s ≡ inr t
      → t ≡ record s { folders = put folder_key f s.folders }
  unfolding put_folder
  put_folder-put f s t h =
      let (here, index) = require-passed _ _ _ t h in
      let (apart, done) = require-passed _ _ _ t index in sym (inr_injective _ t done)

  pub put_folder-Tidy :
      (except : Option Text) (row : LifeFolder) (s t : LifeState)
      → ((a b : Text) → host.same_base a b ≡ host.same_base b a)
      → ((g : LifeFolder) → text_eq g.id row.id ≡ false → holds (text_eq g.id) except ≡ false)
      → ((old : LifeFolder)
          → find folder_key row.id s.folders ≡ some old
          → old.parent_id ≡ none
          → row.parent_id ≡ none)
      → ((p : Text)
          → row.parent_id ≡ some p
          → (q : LifeFolder) × (find folder_key p s.folders ≡ some q) × (q.parent_id ≡ none))
      → text_eq row.id [] ≡ false
      → assert_name_available host row.parent_id row.name except s ≡ inr tt
      → Tidy host s
      → put_folder host row s ≡ inr t
      → Tidy host t
  unfolding assert_name_available
  put_folder-Tidy except row s t symmetric others keeps placed named free tidy h =
      along (Tidy host) (sym (put_folder-put row s t h)) (
        put-TwoLevels row s.folders keeps placed tidy.0,
        put-NamesApart host except row s.folders symmetric others
            (ground (arith, (require-passed _ _ _ tt free).0)) tidy.1,
        (λ r i d e. is_some-put folder_key row s.folders d (tidy.2 r i d e)),
        tidy.3,
        (find-put folder_key [] row s.folders ∙ rw named tidy.4),
      )

  pub put_resource-Tidy :
      (r : LifeResource) (s t : LifeState)
      → Tidy host s
      → put_resource host r s ≡ inr t
      → Tidy host t
  unfolding put_resource get_folder
  put_resource-Tidy r s t tidy h =
      let (there, done) = require-passed _ _ _ t h in
      along (Tidy host) (inr_injective _ t done) (
        tidy.0,
        tidy.1,
        (λ x i d e. elim (In-put resource_key x r s.resources i) [
          | inl q ↦
              along (λ o. if_some (has_folder s) o ≡ true)
                (ap (λ (y : LifeResource). y.folder_id) (sym q) ∙ e) there
          | inr j ↦ tidy.2 x j d e
        ]),
        (λ x i d e. is_some-put resource_key r s.resources d (tidy.3 x i d e)),
        tidy.4,
      )

  pub put_inbox_item-Tidy :
      (item : InboxItem) (s t : LifeState)
      → Tidy host s
      → put_inbox_item host item s ≡ inr t
      → Tidy host t
  unfolding put_inbox_item
  put_inbox_item-Tidy item s t tidy h =
      let (there, done) = require-passed _ _ _ t h in
      along (Tidy host) (inr_injective _ t done) (
        tidy.0,
        tidy.1,
        tidy.2,
        (λ x i d e. elim (In-put item_key x item s.inbox i) [
          | inl q ↦
              along (λ o. if_some (λ id. is_some (get_resource id s)) o ≡ true)
                (ap (λ (y : InboxItem). y.source_resource_id) (sym q) ∙ e) there
          | inr j ↦ tidy.3 x j d e
        ]),
        tidy.4,
      )

  pub put_folder_parent :
      (f : LifeFolder) (s t : LifeState)
      → put_folder host f s ≡ inr t
      → if_some (λ p. text_eq p f.id || has_folder s p) f.parent_id ≡ true
  unfolding put_folder
  put_folder_parent f s t h = (require-passed _ _ _ t h).0

  -- A parent that is accepted is a folder at the top.
  pub accepted_parent :
      (p : Text) (s : LifeState)
      → require_parent (some p) s ≡ inr tt
      → text_eq host.random_uuid [] ≡ false
      → (text_eq p host.random_uuid || has_folder s p) ≡ true
      → find folder_key [] s.folders ≡ none
      → (q : LifeFolder) × (find folder_key p s.folders ≡ some q) × (q.parent_id ≡ none)
  unfolding require_parent get_folder
  accepted_parent [] s h named there unnamed =
      absurd (ground (arith, named, text_eq_comm [] host.random_uuid, rw unnamed at there))
  accepted_parent (n ∷ ns) s h named there unnamed =
      let (known, root) = require-passed _ _ _ tt h in
      elim (Option-cases (find folder_key (n ∷ ns) s.folders)) [
        | inl e ↦ absurd (ground (arith, rw e at known))
        | inr (q, e) ↦ (q, e, at_top q (rw e at (require-passed _ _ _ tt root).0))
      ]
    where
      at_top : (q : LifeFolder) → is_root q ≡ true → q.parent_id ≡ none
      at_top q top = elim (Option-cases q.parent_id) [
        | inl e ↦ e
        | inr (a, e) ↦ absurd (ground (arith, rw e at top))
      ]
