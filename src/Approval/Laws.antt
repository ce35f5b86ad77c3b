-- ===== src/Approval/Laws.antt =====
-- What backend/app/services/safety_service.py approves.
use polymarket_agent.Common.{
  ltb, leb, if◌then◌else◌, ◌≡◌, ◌≤◌, ◌<◌, ◌+◌, ◌↔◌, ℕ, Bool, true, false, Option, some, refl, arith,
  keep, any, length, ◌==◌,
}
use polymarket_agent.Common.Int.{ℤ, neg_part, ◌+ℤ◌}
use polymarket_agent.Portfolio.{is_open}
use polymarket_agent.Approval.{
  SafetyCheckResult, Database, ReasonText, get_state, decide, check_trade_approval, is_approved,
  set_kill_switch, update_daily_pnl, total_size, consecutive_losses, check_stale_data,
  max_open_positions, max_total_exposure, reject_breaker,
}

abbrev pub is_quarantined : ℕ → Database → Bool
is_quarantined n db = any (λ s. s == n) (get_state db).quarantined_strategies

is_fresh :
    (now : ℕ) (o : Option ℕ)
    → (check_stale_data now o ≡ false) ↔ ((t : ℕ) × (o ≡ some t) × (now ≤ t + 1800))
unfolding check_stale_data
is_fresh now o = ground arith

reject_breaker_never : (text : Option ReasonText) → is_approved (reject_breaker text) ≡ false
unfolding reject_breaker
reject_breaker_never text = ground arith

-- a chain of guards whose rejections approve nothing
guards_iff :
    (k b q m e l s : Bool) (r1 r2 r3 r4 r5 r6 r7 ok : Option SafetyCheckResult)
    → is_approved r1 ≡ false
    → is_approved r2 ≡ false
    → is_approved r3 ≡ false
    → is_approved r4 ≡ false
    → is_approved r5 ≡ false
    → is_approved r6 ≡ false
    → is_approved r7 ≡ false
    → is_approved ok ≡ true
    → (is_approved (
          if k
          then r1
          else if b
          then r2
          else if q
          then r3
          else if m
          then r4
          else if e
          then r5
          else if l
          then r6
          else if s
          then r7
          else ok)
        ≡ true)
      ↔ ((k ≡ false)
          × (b ≡ false)
          × (q ≡ false)
          × (m ≡ false)
          × (e ≡ false)
          × (l ≡ false)
          × (s ≡ false))
guards_iff true b q m e l s r1 r2 r3 r4 r5 r6 r7 ok a1 a2 a3 a4 a5 a6 a7 a = ground arith
guards_iff false true q m e l s r1 r2 r3 r4 r5 r6 r7 ok a1 a2 a3 a4 a5 a6 a7 a = ground arith
guards_iff false false true m e l s r1 r2 r3 r4 r5 r6 r7 ok a1 a2 a3 a4 a5 a6 a7 a = ground arith
guards_iff false false false m e l s r1 r2 r3 r4 r5 r6 r7 ok a1 a2 a3 a4 a5 a6 a7 a = ground arith

decide_iff :
    (now n size : ℕ) (db : Database)
    → let open_positions = keep is_open db.positions in
      (is_approved (decide now n size db) ≡ true) ↔ (
        ((get_state db).kill_switch_active ≡ false)
        × ((get_state db).circuit_breaker_active ≡ false)
        × (is_quarantined n db ≡ false)
        × (leb max_open_positions (length open_positions) ≡ false)
        × (ltb max_total_exposure (total_size open_positions + size) ≡ false)
        × (consecutive_losses n db.positions ≡ false)
        × (check_stale_data now db.latest_event ≡ false))
unfolding decide
decide_iff now n size db =
    guards_iff _ _ _ _ _ _ _ _ _ _ _ _ _ _ _ refl (reject_breaker_never _) refl refl refl refl refl
      refl

-- A trade is approved just if neither the kill switch nor a breaker is on, its strategy is not in
-- quarantine, fewer than 20 positions are open, their sizes and that of the trade come to at most 50,000,
-- the last five closed positions of the strategy are not all without gain, and the newest event is at
-- most 30 minutes old.
pub approved_iff :
    (now n size : ℕ) (db : Database)
    → let open_positions = keep is_open db.positions in
      (is_approved (check_trade_approval now n size db).0 ≡ true) ↔ (
        ((get_state db).kill_switch_active ≡ false)
        × ((get_state db).circuit_breaker_active ≡ false)
        × (is_quarantined n db ≡ false)
        × (length open_positions < 20)
        × (total_size open_positions + size ≤ 5000000000000)
        × (consecutive_losses n db.positions ≡ false)
        × ((t : ℕ) × (db.latest_event ≡ some t) × (now ≤ t + 1800)))
unfolding check_trade_approval max_open_positions max_total_exposure
approved_iff now n size db =
    let d = decide_iff now n size db in let f = is_fresh now db.latest_event in ground arith

-- Turning the kill switch on and off again takes the breaker of the daily loss away: the approval then
-- is what it was before the loss, however large that is.
pub kill_switch-update_daily_pnl :
    (now n size : ℕ) (reason why : Option ReasonText) (change : ℤ) (db : Database)
    → (get_state db).kill_switch_active ≡ false
    → (get_state db).circuit_breaker_active ≡ false
    → 50000000000 ≤ neg_part ((get_state db).daily_pnl +ℤ change)
    → let lost = update_daily_pnl change db in
      let switched = set_kill_switch false why (set_kill_switch true reason lost) in
      (is_approved (check_trade_approval now n size lost).0 ≡ false)
      × (is_approved (check_trade_approval now n size switched).0
          ≡ is_approved (check_trade_approval now n size db).0)
unfolding check_trade_approval decide get_state update_daily_pnl set_kill_switch reject_breaker
kill_switch-update_daily_pnl now n size reason why change db k b l = ground arith
