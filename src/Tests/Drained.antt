-- ===== src/Tests/Drained.antt =====
-- The wait for sends in flight, in a world whose sends end at noon.
use new_day.Prelude.{◌≡◌, refl, ℕ, ◌+◌, ◌≤◌, List, [], ◌∷◌, some, if◌then◌else◌, leb, arith}
use new_day.Notion.Records.{NotionOutboxOperation}
use new_day.Notion.Drain.{
  Answers, answered, poll, wait_for_notion_sending_to_settle,
  wait_for_notion_sending_to_settle-Answers,
}
use new_day.Tests.Sent.{sent_report}

-- One send is in flight until the clock reaches 30.
abbrev busy_until : ℕ → List NotionOutboxOperation
busy_until now = if leb 30 now then [] else sent_report ∷ []

abbrev clock : ℕ → ℕ
clock now = now

abbrev sleep : ℕ → ℕ → ℕ
sleep n now = now + n

settled_run :
    wait_for_notion_sending_to_settle busy_until clock sleep 6 (some 100) 0
    ≡ some (answered new_day.Prelude.true 50)
unfolding wait_for_notion_sending_to_settle poll
settled_run = refl

settles_example :
    Answers busy_until clock sleep 100
      (wait_for_notion_sending_to_settle busy_until clock sleep 6 (some 100) 0)
settles_example =
    wait_for_notion_sending_to_settle-Answers busy_until clock sleep (λ n w. omega arith) 100 0
