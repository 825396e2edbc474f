-- ===== src/Notion/Outbox/Steps.antt =====
-- The operations of the store on the Notion tables, in any order: every state that they reach has a
-- sound outbox, whose rows moved along the diagram.
use new_day.Prelude.{◌≡◌, refl, sym, List, [], In, Option, Bool, true, ◌≤◌}
use new_day.Prelude.Lists.{along}
use new_day.Prelude.Strings.{Text}
use new_day.Model.{Task}
use new_day.Reconcile.{NotionTaskFields}
use new_day.Notion.Records.{
  NotionConnection, NotionTaskMapping, NotionRuleMapping, NotionOutboxOperation,
}
use new_day.Notion.Sync.{SyncState, Process, Body, Outcome, threw, gave, committed}
use new_day.Notion.Sync.Ends.{Ends, EndsIn, Ends-weaken, Ends-ask, Ends-check, Ends-last_modify}
use new_day.Notion.Links.{put_notion_connection, put_notion_task_mapping, put_notion_rule_mapping}
use new_day.Notion.Outbox.{
  enqueue_notion_outbox, recover_orphaned_notion_sends, mark_notion_outbox_sending,
}
use new_day.Notion.Outbox.Sends.{
  supersede_notion_unsent_if_newer, mark_notion_outbox_unknown, pause_notion_unsent,
  defer_notion_unsent_after_manual_pause, rebase_notion_sending, pause_notion_for_restore,
}
use new_day.Notion.Outbox.Confirm.{confirm_notion_outbox}
use new_day.Notion.Outbox.Moves.{Trail, start, further, Trail-append, Sound}
use new_day.Notion.Outbox.Paths.{Sound-Trail}
use new_day.Notion.Outbox.Frames.{put_connection-Ends, put_mapping-Ends}
use new_day.Notion.Outbox.Claims.{Along, enqueue-Ends, recover-Ends, mark_sending-Trail}
use new_day.Notion.Outbox.Settles.{
  supersede-Ends, unknown-Ends, pause_unsent-Ends, defer-Ends, rebase-Ends,
}
use new_day.Notion.Outbox.Confirms.{confirm-Ends}

-- One settled operation; a planner command writes tasks only.
pub data Step (s : SyncState) : SyncState → Type 0 where
  planner_wrote : (tasks : List Task) → Step s (record s { tasks = tasks })
  connection_put :
      (p : Process) (c : NotionConnection) → Step s (committed s (put_notion_connection p c s))
  rule_put :
      (p : Process) (r : NotionRuleMapping) → Step s (committed s (put_notion_rule_mapping p r s))
  mapping_put :
      (p : Process) (m : NotionTaskMapping) → Step s (committed s (put_notion_task_mapping p m s))
  enqueued :
      (p : Process) (o : NotionOutboxOperation) → Step s (committed s (enqueue_notion_outbox p o s))
  recovered :
      (p : Process) (w : Option Text) → Step s (committed s (recover_orphaned_notion_sends p w s))
  claimed : (p : Process) (id at : Text) → Step s (mark_notion_outbox_sending p id at s).1
  replaced :
      (p : Process) (id : Text) → Step s (committed s (supersede_notion_unsent_if_newer p id s))
  doubted : (p : Process) (id : Text) → Step s (committed s (mark_notion_outbox_unknown p id s))
  read_failed :
      (p : Process) (id at : Text) (retry : Option Text)
      → Step s (committed s (pause_notion_unsent p id at retry s))
  deferred :
      (p : Process) (id epoch : Text)
      → Step s (committed s (defer_notion_unsent_after_manual_pause p id epoch s))
  rebased :
      (p : Process) (id : Text) (remote merged : NotionTaskFields) (at : Text)
      → Step s (committed s (rebase_notion_sending p id remote merged at s))
  read_back :
      (p : Process) (id page : Text) (fields : NotionTaskFields) (at : Text)
      → Step s (committed s (confirm_notion_outbox p id page fields at s))
  fenced : (p : Process) → Step s (pause_notion_for_restore p s)

pub data Reach (s : SyncState) : SyncState → Type 0 where
  here : Reach s s
  next : {t u : SyncState} → Reach s t → Step t u → Reach s u

-- A rejected operation leaves the rows, and a resolved one moves them.
committed-Trail :
    {A : Type 0} (s : SyncState) (r : Outcome A)
    → EndsIn r (Along s)
    → Trail s.outbox (committed s r).outbox
committed-Trail s (threw e) ends = start
committed-Trail s (gave a t) ends = ends

still :
    {A : Type 0} {body : Body A} {s : SyncState}
    → Ends body s (λ a t. t.outbox ≡ s.outbox)
    → Ends body s (Along s)
still {s = s} ends =
    Ends-weaken ends (λ a t same. along (λ rows. Trail s.outbox rows) (sym same) start)

put_rule-Ends :
    (process : Process) (r : NotionRuleMapping) (s : SyncState)
    → Ends (put_notion_rule_mapping process r) s (λ a t. t.outbox ≡ s.outbox)
unfolding put_notion_rule_mapping
put_rule-Ends process r s = Ends-check _ _ (λ valid.
    Ends-ask _ _
      (Ends-check _ _ (λ belongs. Ends-ask _ _ (Ends-check _ _ (λ free. Ends-last_modify _ refl)))))

fence-Trail : (p : Process) (s : SyncState) → Trail s.outbox (pause_notion_for_restore p s).outbox
unfolding pause_notion_for_restore
fence-Trail p s = start

-- Every operation of the store, accepted or rejected, is a path of moves of the outbox.
pub Step-refines : {s t : SyncState} → Sound s.outbox → Step s t → Trail s.outbox t.outbox
Step-refines sound (planner_wrote tasks) = start
Step-refines {s = s} sound (connection_put p c) =
    committed-Trail s _ (still (put_connection-Ends p c s)).reached
Step-refines {s = s} sound (rule_put p r) =
    committed-Trail s _ (still (put_rule-Ends p r s)).reached
Step-refines {s = s} sound (mapping_put p m) =
    committed-Trail s _ (still (put_mapping-Ends p m s)).reached
Step-refines {s = s} sound (enqueued p o) = committed-Trail s _ (enqueue-Ends p s o).reached
Step-refines {s = s} sound (recovered p w) =
    committed-Trail s _ (Ends-weaken (recover-Ends p s w) (λ a t m. further start m.0)).reached
Step-refines {s = s} sound (claimed p id at) = mark_sending-Trail p s sound id at
Step-refines {s = s} sound (replaced p id) =
    committed-Trail s _
      (Ends-weaken (supersede-Ends p s sound id) (λ a t m. elim m [
        | new_day.Prelude.inl x ↦ x.1
        | new_day.Prelude.inr x ↦ along (λ (u : SyncState). Trail s.outbox u.outbox) (sym x.1) start
      ])).reached
Step-refines {s = s} sound (doubted p id) = committed-Trail s _ (unknown-Ends p s sound id).reached
Step-refines {s = s} sound (read_failed p id at retry) =
    committed-Trail s _ (pause_unsent-Ends p s sound id at retry).reached
Step-refines {s = s} sound (deferred p id epoch) =
    committed-Trail s _ (defer-Ends p s sound id epoch).reached
Step-refines {s = s} sound (rebased p id remote merged at) =
    committed-Trail s _ (rebase-Ends p s sound id remote merged at).reached
Step-refines {s = s} sound (read_back p id page fields at) =
    committed-Trail s _ (confirm-Ends p s sound id page fields at).reached
Step-refines {s = s} sound (fenced p) = fence-Trail p s

pub Reach-refines : {s t : SyncState} → Sound s.outbox → Reach s t → Trail s.outbox t.outbox
Reach-refines sound here = start
Reach-refines sound (next r m) =
    let p = Reach-refines sound r in Trail-append p (Step-refines (Sound-Trail sound p) m)

pub Reach-Sound : {s t : SyncState} → Sound s.outbox → Reach s t → Sound t.outbox
Reach-Sound sound r = Sound-Trail sound (Reach-refines sound r)

pub empty-Sound : Sound []
empty-Sound = record {
  unique = λ a b i j e. absurd i;
  one_unresolved = λ a b i j u v e. absurd i;
  attempted = λ o i u. absurd i;
}
