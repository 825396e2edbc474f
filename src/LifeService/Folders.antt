-- ===== src/LifeService/Folders.antt =====
-- The tree of folders of apps/api/src/services/life-service.ts: what one write leaves of its shape.
use new_day.Prelude.{
  ◌≡◌, refl, sym, ap, true, false, Option, none, some, List, In, inl, inr, arith, Bool-cases,
  is_some, holds, any, ◌∙◌,
}
use new_day.Prelude.Lists.{along, any-In}
use new_day.Prelude.Strings.{Text, text_eq, text_eq_iff}
use new_day.Table.{find, put, find-put}
use new_day.Table.Order.{In-put}
use new_day.Life.{LifeFolder}
use new_day.LifeService.{LifeHost, folder_key, same_nullable, takes_name}

-- A folder stands at the top, or in a folder at the top.
abbrev pub TwoLevels : List LifeFolder → Type 0
TwoLevels fs =
    (f : LifeFolder)
    → In f fs
    → (p : Text) → f.parent_id ≡ some p
    → (q : LifeFolder) × (find folder_key p fs ≡ some q) × (q.parent_id ≡ none)

-- Folders beside each other have names that read differently.
abbrev pub NamesApart : LifeHost → List LifeFolder → Type 0
NamesApart host fs =
    (f g : LifeFolder)
    → In f fs
    → In g fs
    → text_eq f.id g.id ≡ false
    → f.parent_id ≡ g.parent_id
    → host.same_base f.name g.name ≡ false

pub same_nullable_refl : (o : Option Text) → same_nullable o o ≡ true
same_nullable_refl none = refl
same_nullable_refl (some a) = ground (arith, text_eq_iff a a)

pub text_eq_comm : (a b : Text) → text_eq a b ≡ text_eq b a
text_eq_comm a b = ground (arith, text_eq_iff a b, text_eq_iff b a)

module _ (row : LifeFolder) (fs : List LifeFolder) where
  -- A folder that is found is found after the write, at the top if it was and the write keeps it so.
  pub put_root :
      ((old : LifeFolder)
        → find folder_key row.id fs ≡ some old
        → old.parent_id ≡ none
        → row.parent_id ≡ none)
      → (p : Text) (q : LifeFolder) → find folder_key p fs ≡ some q
      → q.parent_id ≡ none
      → (r : LifeFolder) × (find folder_key p (put folder_key row fs) ≡ some r)
        × (r.parent_id ≡ none)
  put_root keeps p q found top = elim (Bool-cases (text_eq row.id p)) [
    | inl same ↦ (
      row,
      along (λ (o : Option LifeFolder). find folder_key p (put folder_key row fs) ≡ o)
          (rw same refl) (find-put folder_key p row fs),
      keeps q
          (along (λ t. find folder_key t fs ≡ some q) (sym ((text_eq_iff row.id p).0 same)) found)
          top,
    )
    | inr other ↦ (
      q,
      along (λ (o : Option LifeFolder). find folder_key p (put folder_key row fs) ≡ o)
          (rw other found) (find-put folder_key p row fs),
      top,
    )
  ]

  pub put-TwoLevels :
      ((old : LifeFolder)
        → find folder_key row.id fs ≡ some old
        → old.parent_id ≡ none
        → row.parent_id ≡ none)
      → ((p : Text)
          → row.parent_id ≡ some p
          → (q : LifeFolder) × (find folder_key p fs ≡ some q) × (q.parent_id ≡ none))
      → TwoLevels fs
      → TwoLevels (put folder_key row fs)
  put-TwoLevels keeps placed tidy f i p e = elim (In-put folder_key f row fs i) [
    | inl q ↦
        let (r, found, top) = placed p (along (λ (g : LifeFolder). g.parent_id ≡ some p) q e) in
        put_root keeps p r found top
    | inr j ↦ let (r, found, top) = tidy f j p e in put_root keeps p r found top
  ]

-- A row that is written stays found under its key.
pub is_some-put :
    {R : Type 0} (key : R → Text) (row : R) (rs : List R) (id : Text)
    → is_some (find key id rs) ≡ true
    → is_some (find key id (put key row rs)) ≡ true
is_some-put key row rs id h =
    along (λ o. is_some o ≡ true) (sym (find-put key id row rs)) (ground (arith, h))

module _ (host : LifeHost) (except : Option Text) (row : LifeFolder) (fs : List LifeFolder) where
  -- The name that was found to be free reads differently from those beside it.
  free_name :
      any (takes_name host row.parent_id row.name except) fs ≡ false
      → (g : LifeFolder) → In g fs
      → holds (text_eq g.id) except ≡ false
      → g.parent_id ≡ row.parent_id
      → host.same_base g.name row.name ≡ false
  free_name free g i other beside = elim (Bool-cases (host.same_base g.name row.name)) [
    | inr apart ↦ apart
    | inl alike ↦ absurd (
        ground (
          arith,
          free,
          any-In (takes_name host row.parent_id row.name except) g fs i (
              rw (other, alike)
                (ground (
                  arith,
                  along (λ o. same_nullable g.parent_id o ≡ true) beside
                      (same_nullable_refl g.parent_id),
                ))),
        ))
  ]

  pub put-NamesApart :
      ((a b : Text) → host.same_base a b ≡ host.same_base b a)
      → ((g : LifeFolder) → text_eq g.id row.id ≡ false → holds (text_eq g.id) except ≡ false)
      → any (takes_name host row.parent_id row.name except) fs ≡ false
      → NamesApart host fs
      → NamesApart host (put folder_key row fs)
  put-NamesApart symmetric others free apart f g i j differ beside =
      elim (In-put folder_key f row fs i) [
        | inl q ↦ elim (In-put folder_key g row fs j) [
          | inl r ↦
              absurd
                (ground (arith, differ, text_eq_iff f.id g.id, ap folder_key q, ap folder_key r))
          | inr k ↦ at_row f g q k differ beside
        ]
        | inr h ↦ elim (In-put folder_key g row fs j) [
          | inl r ↦
              symmetric f.name g.name
              ∙ at_row g f r h (text_eq_comm g.id f.id ∙ differ) (sym beside)
          | inr k ↦ apart f g h k differ beside
        ]
      ]
    where
      at_row :
          (a b : LifeFolder)
          → a ≡ row
          → In b fs
          → text_eq a.id b.id ≡ false
          → a.parent_id ≡ b.parent_id
          → host.same_base a.name b.name ≡ false
      at_row a b e k d s =
          along (λ (x : LifeFolder). host.same_base x.name b.name ≡ false) (sym e)
            (symmetric row.name b.name
              ∙ free_name free b k
                  (others b (
                    along (λ (x : LifeFolder). text_eq b.id x.id ≡ false) e
                      (text_eq_comm b.id a.id ∙ d)))
                  (sym s ∙ ap (λ (x : LifeFolder). x.parent_id) e))
