-- ===== src/Messages/Retries.antt =====
-- What backend/app/core/recovery.py makes of a message that is claimed again and again.
use polymarket_agent.Common.{
  ◌≡◌, ◌+◌, ◌==◌, ℕ, Option, none, some, refl, All, ◌∙◌, List, [], ◌∷◌, arith, if◌then◌else◌,
  get_or, length,
}
use polymarket_agent.Common.Dict.{lookup, lookup-insert}
use polymarket_agent.Messages.Recovery.{
  mapping, sequence, Answers, no_client, xpending_raises, nothing_pending, pending,
  recover_pending_messages, DeadLetter, Recovery, Report, Transfer, transfer_message, claim_message,
  claim_messages,
}

-- how often a message is among those claimed, and how often it was claimed before
abbrev pub claims_of : ℕ → List (ℕ × ℕ) → ℕ
claims_of id [] = 0
claims_of id ((i, p) ∷ messages) = (if id == i then 1 else 0) + claims_of id messages

abbrev pub count_of : ℕ → Recovery → ℕ
count_of id s = get_or (lookup id s.retry_counts) 0

-- `xpending` raises or answers nothing or a `dict`
abbrev pub IsDict : Answers → Type 0
IsDict (pending (sequence total) answer) = ⊥
IsDict answers = Unit

-- a report of nothing, but for a call that raises
abbrev pub IsEmpty : Option Report → Type 0
IsEmpty none = Unit
IsEmpty (some report) =
    (report.claimed ≡ 0) × (report.dead_lettered ≡ 0) × (report.pending_total ≡ 0)

module _ (trim : List DeadLetter → List DeadLetter) (max_retries : ℕ)
    (transfer : ℕ → Transfer) where
  claim_message-count :
      (id i p : ℕ) (report : Report) (s : Recovery)
      → count_of id (claim_message trim max_retries transfer i p report s).1
        ≡ count_of id s + (if id == i then 1 else 0)
  unfolding claim_message transfer_message
  claim_message-count id i p report s =
      let n = get_or (lookup i s.retry_counts) 0 + 1 in
      ground (arith, lookup-insert id i n s.retry_counts)

  claim_message-sum :
      (i p : ℕ) (report : Report) (s : Recovery)
      → let r = (claim_message trim max_retries transfer i p report s).0 in
        r.claimed + r.dead_lettered + r.errors
        ≡ report.claimed + report.dead_lettered + report.errors + 1
  unfolding claim_message transfer_message
  claim_message-sum i p report s = ground arith

  pub claim_messages-sum :
      (messages : List (ℕ × ℕ)) (report : Report) (s : Recovery)
      → let r = (claim_messages trim max_retries transfer messages report s).0 in
        r.claimed + r.dead_lettered + r.errors
        ≡ report.claimed + report.dead_lettered + report.errors + length messages
  unfolding claim_messages
  claim_messages-sum [] report s = omega arith
  claim_messages-sum ((i, p) ∷ messages) report s =
      let first = claim_message trim max_retries transfer i p report s in
      omega (arith, claim_message-sum i p report s, claim_messages-sum messages first.0 first.1)

  -- calls of `recover_pending_messages` one after the other, with what each returns
  unfoldable pub recover_each : List Answers → Recovery → List (Option Report) × Recovery
  unfolding recover_pending_messages
  recover_each [] s = ([], s)
  recover_each (answers ∷ rest) s =
      let (report, s') = recover_pending_messages trim max_retries transfer answers s in
      let (reports, last) = recover_each rest s' in (report ∷ reports, last)

  recover_nothing :
      (answers : Answers) (s : Recovery)
      → IsDict answers
      → let (report, s') = recover_pending_messages trim max_retries transfer answers s in
        IsEmpty report × (s' ≡ s)
  unfolding recover_pending_messages
  recover_nothing no_client s h = (tt, refl)
  recover_nothing xpending_raises s h = ((refl, refl, refl), refl)
  recover_nothing nothing_pending s h = ((refl, refl, refl), refl)
  recover_nothing (pending (mapping total) answer) s h = ((refl, refl, refl), refl)
  recover_nothing (pending (sequence total) answer) s h = absurd h

  -- As the client answers `xpending` with a `dict`, no recovery does anything: whatever is pending and whatever
  -- the calls answer, over any number of calls no message is claimed, counted, acknowledged or added to the
  -- dead letters, and every report that is returned says that nothing is pending.
  pub recover_each_nothing :
      (calls : List Answers) (s : Recovery)
      → All IsDict calls
      → All IsEmpty (recover_each calls s).0 × ((recover_each calls s).1 ≡ s)
  unfolding recover_each
  recover_each_nothing [] s h = (tt, refl)
  recover_each_nothing (answers ∷ calls) s h =
      let (e, k) = recover_nothing answers s h.0 in
      let s' = (recover_pending_messages trim max_retries transfer answers s).1 in
      let (es, l) = recover_each_nothing calls s' h.1 in ((e, es), l ∙ k)
