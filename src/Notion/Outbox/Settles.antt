-- ===== src/Notion/Outbox/Settles.antt =====
-- What happens to a claimed send is a move of the outbox.
use new_day.Prelude.{
  ◌≡◌, refl, sym, ◌∙◌, true, false, Option, none, some, List, In, ◌⊎◌, inl, inr, arith, Bool-cases,
  ◌≢◌,
}
use new_day.Prelude.Lists.{along}
use new_day.Prelude.Strings.{Text}
use new_day.Table.Restore.{find-In}
use new_day.Reconcile.{NotionTaskFields}
use new_day.Notion.Records.{NotionConnection, NotionOutboxOperation, pending, sending}
use new_day.Notion.Sync.{SyncState, Process}
use new_day.Notion.Sync.Ends.{
  Ends, Ends-call, Ends-pass, Ends-weaken, Ends-present, Ends-if_present, Ends-ask, Ends-check,
  Ends-when, Ends-done,
}
use new_day.Notion.Outbox.{is_status, get_notion_outbox_operation, waits_for, trim_operation}
use new_day.Notion.Outbox.Sends.{
  sending_row, supersede_by, supersede_notion_unsent_if_newer, mark_notion_outbox_unknown,
  return_unsent, pause_after_read, pause_notion_unsent, defer_notion_unsent_after_manual_pause,
  rebase_notion_sending,
}
use new_day.Notion.Outbox.Moves.{
  ◌⟶◌, stay, lose, give_back, supersede_unsent, Move, Trail, start, further, Sound,
}
use new_day.Notion.Outbox.Frames.{
  is_status_sound, Edit-from, sending-live, update-Ends, put_connection-Ends, put_mapping-Ends,
}
use new_day.Notion.Outbox.Claims.{Along, assert-Ends}

sending_row-some :
    (x o : NotionOutboxOperation) → sending_row (some x) ≡ some o → (x ≡ o) × (x.status ≡ sending)
sending_row-some x o h = elim (Bool-cases (is_status x.status sending)) [
  | inl y ↦ (ground arith, is_status_sound x.status sending y)
  | inr n ↦ absurd (ground arith)
]

-- The row that was read is in the table, and its send is claimed.
pub sending_row-In :
    (id : Text) (s : SyncState) (o : NotionOutboxOperation)
    → sending_row (get_notion_outbox_operation id s) ≡ some o
    → In o s.outbox × (o.status ≡ sending)
sending_row-In id s o h = go (get_notion_outbox_operation id s) refl h
  where
    go :
        (found : Option NotionOutboxOperation)
        → get_notion_outbox_operation id s ≡ found
        → sending_row found ≡ some o
        → In o s.outbox × (o.status ≡ sending)
    go none e k = absurd (ground arith)
    go (some x) e k =
        let (same, at) = sending_row-some x o k in
        along (λ (z : NotionOutboxOperation). In z s.outbox × (z.status ≡ sending)) same
          (find-In _ id s.outbox x e, at)

sending-waits : sending ≢ pending
sending-waits e = absurd (ground arith)

-- A write of a row whose send is claimed.
settle-Ends :
    (process : Process) (s : SyncState) (o new : NotionOutboxOperation)
    → Sound s.outbox
    → In o s.outbox × (o.status ≡ sending)
    → sending ⟶ new.status
    → new.operation_id ≡ o.operation_id
    → new.local_task_id ≡ o.local_task_id
    → new.workspace_id ≡ o.workspace_id
    → new.dataset_epoch ≡ o.dataset_epoch
    → new.attempt_count ≡ o.attempt_count
    → Ends
        (new_day.Notion.Outbox.update_notion_outbox process new)
        s
        (λ u t. Move s.outbox t.outbox)
settle-Ends process s o new sound (there, at) moves i t w e c =
    update-Ends process o new s sound there
      (Edit-from sending o (trim_operation new) at moves sending-live (inr sending-waits) i t w e c)
      (λ p q. absurd (sending-waits (sym at ∙ q)))

-- A connection that is written last.
then_connection :
    {rows : List NotionOutboxOperation} (s : SyncState) (a : Unit {0}) (t : SyncState)
    → Trail rows s.outbox
    → t.outbox ≡ s.outbox
    → Trail rows t.outbox
then_connection {rows = rows} s a t p same = along (λ x. Trail rows x) (sym same) p

module _ (process : Process) (s : SyncState) (sound : Sound s.outbox) where
  -- Either the send gives way to a newer intent, or nothing is written.
  pub supersede-Ends :
      (id : Text)
      → Ends
          (supersede_notion_unsent_if_newer process id)
          s
          (λ b t. ((b ≡ true) × Trail s.outbox t.outbox) ⊎ ((b ≡ false) × (t ≡ s)))
  unfolding supersede_notion_unsent_if_newer supersede_by
  supersede-Ends id = Ends-ask _ _ (
      Ends-if_present
        (λ o found. Ends-ask _ _ (
          Ends-if_present
            (λ newer next.
              Ends-when
                (λ scope. Ends-ask _ _ (
                  Ends-when
                    (λ based. Ends-pass (assert-Ends _ s) (λ a.
                      Ends-call
                        (settle-Ends process s o _ sound (sending_row-In id s o found)
                          supersede_unsent refl refl refl refl refl)
                        (λ u t m. Ends-done _ (inl (refl, further start m)))))
                    (λ stale. Ends-done _ (inr (refl, refl)))))
                (λ apart. Ends-done _ (inr (refl, refl))))
            (λ alone. Ends-done _ (inr (refl, refl)))))
        (λ missing. Ends-done _ (inr (refl, refl))))

  pub unknown-Ends : (id : Text) → Ends (mark_notion_outbox_unknown process id) s (Along s)
  unfolding mark_notion_outbox_unknown
  unknown-Ends id = Ends-ask _ _ (
      Ends-present _ (λ o found.
        Ends-call
          (settle-Ends process s o _ sound (sending_row-In id s o found) lose refl refl refl refl
            refl)
          (λ u t m. Ends-ask _ _ (
            Ends-if_present
              (λ c linked.
                Ends-weaken (put_connection-Ends process _ t)
                  (λ a v same. then_connection t a v (further start m) same))
              (λ missing. Ends-done _ (further start m))))))

  return-Ends :
      (id : Text) (o : NotionOutboxOperation)
      → In o s.outbox × (o.status ≡ sending)
      → Ends (return_unsent process id o) s (Along s)
  unfolding return_unsent
  return-Ends id o there = Ends-call (supersede-Ends id) (λ b t done_so.
      Ends-when
        (λ replaced. Ends-done _ (elim done_so [
          | inl (e, p) ↦ p
          | inr (e, same) ↦ along (λ (u : SyncState). Trail s.outbox u.outbox) (sym same) start
        ]))
        (λ waits. elim done_so [
          | inl (e, p) ↦ absurd (ground arith)
          | inr (e, same) ↦
              along
                (λ u.
                  Ends
                    (new_day.Notion.Outbox.update_notion_outbox process
                      (record o { status = pending; sending_owner = none }))
                    u (Along s))
                (sym same)
                (Ends-weaken
                  (settle-Ends process s o _ sound there give_back refl refl refl refl refl)
                  (λ a v m. further start m))
        ]))

  read_pause-Ends :
      (c : NotionConnection) (at : Text) (retry : Option Text) (t : SyncState)
      → Trail s.outbox t.outbox
      → Ends (pause_after_read process c at retry) t (Along s)
  read_pause-Ends c at retry t p =
      Ends-when
        (λ on.
          Ends-weaken (put_connection-Ends process _ t) (λ a v same. then_connection t a v p same))
        (λ off.
          Ends-when
            (λ later.
              Ends-weaken (put_connection-Ends process _ t)
                (λ a v same. then_connection t a v p same))
            (λ kept. Ends-done _ p))

  pub pause_unsent-Ends :
      (id at : Text) (retry : Option Text)
      → Ends (pause_notion_unsent process id at retry) s (Along s)
  unfolding pause_notion_unsent
  pause_unsent-Ends id at retry = Ends-ask _ _ (
      Ends-if_present
        (λ o found. Ends-ask _ _ (
          Ends-ask _ _ (
            Ends-if_present
              (λ c linked.
                Ends-when
                  (λ can.
                    Ends-call (return-Ends id o (sending_row-In id s o found)) (λ a t p.
                      Ends-call (read_pause-Ends c at retry t p) (λ b u q. Ends-done _ q)))
                  (λ cannot. Ends-done _ start))
              (λ missing. Ends-done _ start))))
        (λ missing. Ends-done _ start))

  pub defer-Ends :
      (id epoch : Text) → Ends (defer_notion_unsent_after_manual_pause process id epoch) s (Along s)
  unfolding defer_notion_unsent_after_manual_pause
  defer-Ends id epoch = Ends-ask _ _ (
      Ends-if_present
        (λ o found. Ends-ask _ _ (
          Ends-ask _ _ (
            Ends-when
              (λ can.
                Ends-call (return-Ends id o (sending_row-In id s o found)) (λ a t p. Ends-done _ p))
              (λ cannot. Ends-done _ start))))
        (λ missing. Ends-done _ start))

  pub rebase-Ends :
      (id : Text) (remote merged : NotionTaskFields) (at : Text)
      → Ends (rebase_notion_sending process id remote merged at) s (Along s)
  unfolding rebase_notion_sending
  rebase-Ends id remote merged at = Ends-check _ _ (λ valid. Ends-ask _ _ (
      Ends-present _ (λ o found. Ends-ask _ _ (
        Ends-check _ _ (λ on. Ends-ask _ _ (
          Ends-check _ _ (λ current. Ends-ask _ _ (
            Ends-present _ (λ m linked. Ends-check _ _ (λ based. Ends-check _ _ (λ parsed.
              Ends-pass (assert-Ends _ s) (λ a.
                Ends-call (put_mapping-Ends process _ s) (λ u t same.
                  Ends-call
                    (settle-Ends process t o _ (along Sound (sym same) sound)
                      (
                        along (λ rows. In o rows) (sym same) (sending_row-In id s o found).0,
                        (sending_row-In id s o found).1,
                      )
                      (along (λ x. sending ⟶ x) (sym (sending_row-In id s o found).1) stay) refl
                      refl refl refl refl)
                    (λ v w move.
                      Ends-done _
                        (along (λ x. Trail x w.outbox) same (further start move))))))))))))))))
