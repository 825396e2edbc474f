-- ===== src/Notion/Drain.antt =====
-- `waitForNotionSendingToSettle` of apps/api/src/storage/sqlite-planner-store.ts. Other code runs
-- while the loop sleeps, so the outbox and the clock are read of a world that a sleep changes.
use new_day.Prelude.{
  ◌≡◌, refl, ℕ, zero, suc, ◌+◌, ◌-◌, ◌*◌, ◌/◌, ◌≤◌, min, Bool, true, false, not, Option, none, some,
  List, any, leb, arith, if◌then◌else◌, Bool-cases, inl, inr,
}
use new_day.Prelude.Lists.{along}
use new_day.Notion.Records.{NotionOutboxOperation, sending}
use new_day.Notion.Outbox.{is_status}

-- The exception for a timeout that is no finite number from 0, and an answer with the world in which
-- it is given.
pub data Drain (W : Type 0) : Type 0 where
  invalid_timeout : Drain W
  answered : Bool → W → Drain W

module _ {W : Type 0} (outbox : W → List NotionOutboxOperation) (now : W → ℕ)
    (sleep : ℕ → W → W) where
  -- `SELECT 1 FROM notion_outbox WHERE status='sending' LIMIT 1`.
  abbrev pub still_sending : W → Bool
  still_sending w = any (λ o. is_status o.status sending) (outbox w)

  -- The loop, with a bound on the number of its reads; none when the bound is used up.
  unfoldable pub poll : ℕ → ℕ → W → Option (Drain W)
  poll zero deadline w = none
  poll (suc reads) deadline w =
      let later = poll reads deadline (sleep (min 25 (deadline - now w)) w) in
      if not (still_sending w)
      then some (answered true w)
      else if leb deadline (now w)
      then some (answered false w)
      else later

  -- A timeout is none where it is not finite or negative.
  unfoldable pub wait_for_notion_sending_to_settle : ℕ → Option ℕ → W → Option (Drain W)
  wait_for_notion_sending_to_settle reads none w = some invalid_timeout
  wait_for_notion_sending_to_settle reads (some timeout) w = poll reads (now w + timeout) w

  -- An answer that is true of its world: whether no send is in flight, a refusal at the deadline only.
  abbrev pub IsAnswer : ℕ → Bool → W → Type 0
  IsAnswer deadline settled w =
      (settled ≡ not (still_sending w)) × (settled ≡ false → deadline ≤ now w)

  abbrev pub Answers : ℕ → Option (Drain W) → Type 0
  Answers deadline result =
      (settled : Bool) × (w : W) × (result ≡ some (answered settled w))
      × IsAnswer deadline settled w

  module _ (advances : (n : ℕ) (w : W) → now w + n ≤ now (sleep n w)) where
    -- A read that answers, or that is followed by more of the loop.
    read-Answers :
        (reads deadline : ℕ) (w : W)
        → (leb deadline (now w) ≡ false
            → Answers deadline (poll reads deadline (sleep (min 25 (deadline - now w)) w)))
        → Answers deadline (poll (suc reads) deadline w)
    unfolding poll
    read-Answers reads deadline w again = elim (Bool-cases (still_sending w)) [
      | inr quiet ↦ (true, w, rw quiet refl, (rw quiet refl, λ e. absurd (ground arith)))
      | inl busy ↦ elim (Bool-cases (leb deadline (now w))) [
        | inl over ↦ (false, w, rw (busy, over) refl, (rw busy refl, λ e. ground (arith, over)))
        | inr early ↦ rw (busy, early) (again early)
      ]
    ]

    poll-Answers :
        (reads deadline : ℕ) (w : W)
        → deadline ≤ now w + 25 * reads
        → Answers deadline (poll (suc reads) deadline w)
    poll-Answers zero deadline w enough =
        read-Answers zero deadline w (λ early. absurd (ground (arith, early, enough)))
    poll-Answers (suc left) deadline w enough = read-Answers (suc left) deadline w (λ early.
        poll-Answers left deadline (sleep (min 25 (deadline - now w)) w)
          (ground (arith, early, enough, advances (min 25 (deadline - now w)) w)))

    -- Where a sleep lasts at least as long as it is asked to, the wait for the sends in flight ends
    -- within one read of the outbox for each 25 milliseconds of its timeout and two more. It answers
    -- whether no send was in flight at its last read, and answers no at the deadline at the earliest.
    pub wait_for_notion_sending_to_settle-Answers :
        (timeout : ℕ) (w : W)
        → Answers
            (now w + timeout)
            (wait_for_notion_sending_to_settle (timeout / 25 + 2) (some timeout) w)
    unfolding wait_for_notion_sending_to_settle
    wait_for_notion_sending_to_settle-Answers timeout w =
        along (λ n. Answers (now w + timeout) (poll n (now w + timeout) w)) (two (timeout / 25))
          (poll-Answers (timeout / 25 + 1) (now w + timeout) w (omega arith))
      where
        two : (n : ℕ) → suc (n + 1) ≡ n + 2
        two n = omega arith
