-- ===== src/Tests/Messages.antt =====
-- Messages and duplicates over concrete answers of Redis.
use polymarket_agent.Common.{
  ◌≡◌, ◌+◌, ◌==◌, ℕ, refl, some, List, [], ◌∷◌, arith, if◌then◌else◌, length, All,
}
use polymarket_agent.Messages.Recovery.{
  Recovery, Report, Transfer, DeadLetter, Answers, pending, mapping, xpending_raises, xack_raises,
  xadd, claim_message, claim_messages, transfer_message,
}
use polymarket_agent.Messages.Retries.{IsEmpty, recover_each, recover_each_nothing}
use polymarket_agent.Messages.Dedup.{Scanner, dedup_size, count_keys}
use polymarket_agent.Messages.Scan.{Pages, total, IsEnding, dedup_size-terminates}

abbrev fresh : Recovery
fresh = record { retry_counts = []; dead_letters = []; acknowledged = [] }

abbrev none_yet : Report
none_yet = record { claimed = 0; dead_lettered = 0; pending_total = 4; errors = 0 }

abbrev unacknowledged : ℕ → Transfer
unacknowledged id = xack_raises

abbrev keep_all : List DeadLetter → List DeadLetter
keep_all letters = letters

-- where acknowledging raises, each further claim adds the message to the dead letters again
letters_twice :
    length
      (claim_messages keep_all 1 unacknowledged
        ((7, 0) ∷ (7, 0) ∷ (7, 0) ∷ [])
        none_yet
        fresh).1.dead_letters
    ≡ 2
unfolding claim_messages claim_message transfer_message xadd
letters_twice = refl

-- two pages: the cursor 5 follows 0, and ends
abbrev scanner : Scanner
scanner c = if c == 5 then (0, 3 ∷ []) else (5, 1 ∷ 2 ∷ [])

abbrev rank : ℕ → ℕ
rank c = if c == 5 then 0 else 1

ends : IsEnding scanner rank
ends c h = ground arith

three_keys : dedup_size scanner 2 ≡ some 3
unfolding dedup_size count_keys
three_keys = refl

-- four messages are pending, one of them past the limit, and the claim loop is not reached
abbrev calls : List Answers
calls = pending (mapping 4) (some ((7, 0) ∷ (7, 0) ∷ [])) ∷ xpending_raises ∷ []

recover_each_nothing_example :
    All IsEmpty (recover_each keep_all 1 unacknowledged calls fresh).0
    × ((recover_each keep_all 1 unacknowledged calls fresh).1 ≡ fresh)
recover_each_nothing_example =
    recover_each_nothing keep_all 1 unacknowledged calls fresh (tt, (tt, tt))

dedup_size-terminates_example :
    (pages : List (List ℕ)) × Pages scanner 0 pages
    × (dedup_size scanner (rank 0 + 1) ≡ some (total pages))
dedup_size-terminates_example = dedup_size-terminates scanner rank ends
