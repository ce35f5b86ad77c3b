-- ===== src/Messages/Recovery.antt =====
-- `recover_pending_messages` of backend/app/core/recovery.py, for one stream and group.
use polymarket_agent.Common.{
  ℕ, ◌+◌, ◌==◌, Option, none, some, List, [], ◌∷◌, ltb, if◌then◌else◌, get_or,
}
use polymarket_agent.Common.Dict.{Dict, lookup, insert}

pub record DeadLetter : Type 0 where
  pub msg_id : ℕ
  pub retry_count : ℕ
  pub payload : ℕ

-- `_dlq_retry_counts` by the id of the message, the stream of dead letters with the newest entry first, and the
-- messages that were acknowledged
pub record Recovery : Type 0 where
  pub retry_counts : Dict ℕ
  pub dead_letters : List DeadLetter
  pub acknowledged : List ℕ

pub record Report : Type 0 where
  pub claimed : ℕ
  pub dead_lettered : ℕ
  pub pending_total : ℕ
  pub errors : ℕ

-- What the two calls for a dead letter do.
pub data Transfer : Type 0 where
  moved xadd_raises xack_raises : Transfer

-- What `xpending` returns: a `dict`, as the client of redis.py makes it of the reply, or a list, each with the
-- total of the pending messages.
pub data Summary : Type 0 where
  mapping sequence : ℕ → Summary

-- `pending_summary[0] if isinstance(pending_summary, (list, tuple)) else 0`
unfoldable pub total_pending : Summary → ℕ
total_pending (mapping total) = 0
total_pending (sequence total) = total

-- What the calls for the pending messages do: there is no client, `xpending` raises or answers nothing, or it
-- answers a summary, and `xautoclaim` raises, which is `none`, or answers messages.
pub data Answers : Type 0 where
  no_client xpending_raises nothing_pending : Answers
  pending : Summary → Option (List (ℕ × ℕ)) → Answers

abbrev pub dead_letter : ℕ → ℕ → ℕ → DeadLetter
dead_letter id count payload = record { msg_id = id; retry_count = count; payload = payload }

-- what `xadd` with `maxlen=5000` keeps, and what each transfer does
module _ (trim : List DeadLetter → List DeadLetter) where
  unfoldable pub xadd : DeadLetter → List DeadLetter → List DeadLetter
  xadd letter letters = trim (letter ∷ letters)

  -- a message that was claimed too often
  unfoldable pub transfer_message : Transfer → ℕ → ℕ → ℕ → Report → Recovery → Report × Recovery
  unfolding xadd
  transfer_message moved id count payload report s = (
    record report { dead_lettered = report.dead_lettered + 1 },
    record s {
      dead_letters = xadd (dead_letter id count payload) s.dead_letters;
      acknowledged = id ∷ s.acknowledged;
    },
  )
  transfer_message xadd_raises id count payload report s =
      (record report { errors = report.errors + 1 }, s)
  transfer_message xack_raises id count payload report s = (
    record report { errors = report.errors + 1 },
    record s { dead_letters = xadd (dead_letter id count payload) s.dead_letters },
  )

module _ (trim : List DeadLetter → List DeadLetter) (max_retries : ℕ)
    (transfer : ℕ → Transfer) where
  -- the body of the loop
  unfoldable pub claim_message : ℕ → ℕ → Report → Recovery → Report × Recovery
  unfolding transfer_message
  claim_message id payload report s =
      let count = get_or (lookup id s.retry_counts) 0 + 1 in
      let s' = record s { retry_counts = insert id count s.retry_counts } in
      if ltb max_retries count
      then transfer_message trim (transfer id) id count payload report s'
      else (record report { claimed = report.claimed + 1 }, s')

  -- the loop over the claimed messages
  unfoldable pub claim_messages : List (ℕ × ℕ) → Report → Recovery → Report × Recovery
  unfolding claim_message
  claim_messages [] report s = (report, s)
  claim_messages ((id, payload) ∷ messages) report s =
      let (report', s') = claim_message id payload report s in claim_messages messages report' s'

  -- `recover_pending_messages`; without a client it raises, which is `none`
  unfoldable pub recover_pending_messages : Answers → Recovery → Option Report × Recovery
  unfolding claim_messages total_pending
  recover_pending_messages no_client s = (none, s)
  recover_pending_messages xpending_raises s =
      (some (record { claimed = 0; dead_lettered = 0; pending_total = 0; errors = 1 }), s)
  recover_pending_messages nothing_pending s =
      (some (record { claimed = 0; dead_lettered = 0; pending_total = 0; errors = 0 }), s)
  recover_pending_messages (pending summary answer) s =
      let total = total_pending summary in
      let start : Report = record {
        claimed = 0;
        dead_lettered = 0;
        pending_total = total;
        errors = 0;
      } in
      let (report, s') = claim_messages (get_or answer []) start s in
      if total == 0 then (some start, s) else elim answer [
        | none ↦ (some (record start { errors = 1 }), s)
        | some messages ↦ (some report, s')
      ]
