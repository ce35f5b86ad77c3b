-- ===== src/Portfolio/Net.antt =====
-- What the table of positions holds under fills: backend/app/services/portfolio_service.py,
-- `upsert_from_fill`, against a ledger of one signed size for each market.
use polymarket_agent.Common.{
  ◌≡◌, ◌≤◌, ◌<◌, ℕ, Bool, true, false, Option, refl, List, [], ◌∷◌, arith, All, ltb, ◌==◌,
  if◌then◌else◌, ◌&&◌, Bool-cases, inl, inr, ap, sym, ◌∙◌,
}
use polymarket_agent.Common.Int.{ℤ, pos, pos_part, neg_part, sub_ℕ, ◌+ℤ◌}
use polymarket_agent.Portfolio.{
  Position, Fill, direction_of, direction_index, is_match, is_open, same_market, new_position,
  apply_fill, upsert_from_fill,
}
use polymarket_agent.Portfolio.Books.{
  Reach, IsSound, open_rows, tables-IsBooked, apply_fill_market, same_market_sym,
}

-- the signed size of a position and of a fill
unfoldable signed_size : Position → ℤ
unfolding direction_index
signed_size p = if direction_index p.direction == 0 then pos p.size else sub_ℕ 0 p.size

unfoldable signed_fill : Fill → ℤ
signed_fill f = if f.is_buy then pos f.size else sub_ℕ 0 f.size

-- what the table holds in a market: the size of its open row
unfoldable pub net : Option ℕ → List Position → ℤ
unfolding signed_size is_open
net m [] = pos 0
net m (p ∷ ps) =
    let rest = net m ps in if same_market p.market_id m && is_open p then signed_size p else rest

-- proper bookkeeping: a fill is added to what is held
unfoldable pub ledger : ℤ → Fill → ℤ
unfolding signed_fill
ledger n f = n +ℤ signed_fill f

-- a fill that is against the holding and larger than it
unfoldable pub is_oversized : ℤ → Fill → Bool
is_oversized n f =
    let against = if f.is_buy then neg_part n else pos_part n in ltb 0 against && ltb against f.size

-- what the code makes of a holding: the ledger, but for an oversized fill nothing is left
unfoldable book : ℤ → Fill → ℤ
unfolding ledger is_oversized
book n f = if is_oversized n f then pos 0 else ledger n f

if-true : {A : Type 0} {b : Bool} (x y : A) → b ≡ true → (if b then x else y) ≡ x
if-true x y e = ap (λ (c : Bool). if c then x else y) e

if-false : {A : Type 0} {b : Bool} (x y : A) → b ≡ false → (if b then x else y) ≡ y
if-false x y e = ap (λ (c : Bool). if c then x else y) e

module _ (divide : ℕ → ℕ → ℕ) where
  net_of_no_rows : (m : Option ℕ) (ps : List Position) → open_rows m ps ≡ 0 → net m ps ≡ pos 0
  unfolding net
  net_of_no_rows m [] h = refl
  net_of_no_rows m (p ∷ ps) h = ground (arith, net_of_no_rows m ps)

  net-open :
      (m : Option ℕ) (p : Position) (ps : List Position)
      → same_market p.market_id m ≡ true
      → is_open p ≡ true
      → net m (p ∷ ps) ≡ signed_size p
  unfolding net
  net-open m p ps s o = ground arith

  net-closed :
      (m : Option ℕ) (p : Position) (ps : List Position)
      → is_open p ≡ false
      → net m (p ∷ ps) ≡ net m ps
  unfolding net
  net-closed m p ps o = ground arith

  net-other :
      (m : Option ℕ) (p : Position) (ps : List Position)
      → same_market p.market_id m ≡ false
      → net m (p ∷ ps) ≡ net m ps
  unfolding net
  net-other m p ps s = ground arith

  net-apply_fill :
      (f : Fill) (p : Position)
      → 0 < f.size
      → IsSound p
      → is_open p ≡ true
      → let p' = apply_fill divide f p in
        (if is_open p' then signed_size p' else pos 0) ≡ book (signed_size p) f
  unfolding apply_fill is_open direction_of signed_size book
  net-apply_fill f p h s o = ground arith

  net-new :
      (id : ℕ) (f : Fill) (m : Option ℕ)
      → 0 < f.size
      → net m (new_position id f ∷ [])
        ≡ (if same_market f.market_id m then book (pos 0) f else pos 0)
  unfolding new_position direction_of net book
  net-new id f m h = ground arith

  upsert_hit :
      (id : ℕ) (f : Fill) (p : Position) (ps : List Position)
      → is_match f p ≡ true
      → upsert_from_fill divide id f (p ∷ ps) ≡ apply_fill divide f p ∷ ps
  unfolding upsert_from_fill
  upsert_hit id f p ps h = ground arith

  upsert_miss :
      (id : ℕ) (f : Fill) (p : Position) (ps : List Position)
      → is_match f p ≡ false
      → upsert_from_fill divide id f (p ∷ ps) ≡ p ∷ upsert_from_fill divide id f ps
  unfolding upsert_from_fill
  upsert_miss id f p ps h = ground arith

  match_market :
      (f : Fill) (p : Position)
      → is_match f p ≡ true
      → (p.market_id ≡ f.market_id) × (is_open p ≡ true)
  unfolding is_match
  match_market f p k = ground (arith, same_market_sym p.market_id f.market_id)

  -- the open row of a market is its only one
  net_of_rest :
      (m : Option ℕ) (p : Position) (ps : List Position)
      → same_market p.market_id m ≡ true
      → is_open p ≡ true
      → open_rows m (p ∷ ps) ≤ 1
      → net m ps ≡ pos 0
  net_of_rest m p ps s o k = ground (arith, net_of_no_rows m ps)

  net-changed :
      (m : Option ℕ) (p : Position) (ps : List Position)
      → same_market p.market_id m ≡ true
      → net m ps ≡ pos 0
      → net m (p ∷ ps) ≡ (if is_open p then signed_size p else pos 0)
  unfolding net
  net-changed m p ps s z = ground arith

  net-hit :
      (f : Fill) (m : Option ℕ) (p : Position) (ps : List Position)
      → 0 < f.size
      → IsSound p
      → open_rows m (p ∷ ps) ≤ 1
      → is_match f p ≡ true
      → net m (apply_fill divide f p ∷ ps)
        ≡ (if same_market f.market_id m then book (net m (p ∷ ps)) f else net m (p ∷ ps))
  net-hit f m p ps h s o k =
      let p' = apply_fill divide f p in
      let (c, op) = match_market f p k in
      let same = λ (x : Option ℕ). same_market x m in
      let c' = (apply_fill_market divide f p).0 in
      elim (Bool-cases (same_market f.market_id m)) [
        | inl e ↦
            let e0 = ap same c ∙ e in
            let z = net_of_rest m p ps e0 op o in
            let new = net-changed m p' ps (ap same c' ∙ e0) z ∙ net-apply_fill f p h s op in
            let held = ap (λ (n : ℤ). book n f) (net-open m p ps e0 op) in
            new ∙ sym (if-true _ _ e ∙ held)
        | inr e ↦
            let e0 = ap same c ∙ e in
            let new = net-other m p' ps (ap same c' ∙ e0) in
            let old = net-other m p ps e0 in new ∙ sym (if-false _ _ e ∙ old)
      ]

  net-miss :
      (f : Fill) (m : Option ℕ) (p : Position) (ps qs : List Position)
      → is_match f p ≡ false
      → net m qs ≡ (if same_market f.market_id m then book (net m ps) f else net m ps)
      → net m (p ∷ qs)
        ≡ (if same_market f.market_id m then book (net m (p ∷ ps)) f else net m (p ∷ ps))
  unfolding is_match net
  net-miss f m p ps qs k r = ground (arith, same_market_sym f.market_id m)

  fewer_rows :
      (m : Option ℕ) (p : Position) (ps : List Position)
      → open_rows m (p ∷ ps) ≤ 1
      → open_rows m ps ≤ 1
  fewer_rows m p ps o = ground arith

  net-upsert :
      (id : ℕ) (f : Fill) (m : Option ℕ) (ps : List Position)
      → 0 < f.size
      → All IsSound ps
      → open_rows m ps ≤ 1
      → net m (upsert_from_fill divide id f ps)
        ≡ (if same_market f.market_id m then book (net m ps) f else net m ps)
  unfolding upsert_from_fill net
  net-upsert id f m [] h s o = net-new id f m h
  net-upsert id f m (p ∷ ps) h s o = elim (Bool-cases (is_match f p)) [
    | inl k ↦ ap (net m) (upsert_hit id f p ps k) ∙ net-hit f m p ps h s.0 o k
    | inr k ↦
        ap (net m) (upsert_miss id f p ps k)
        ∙ net-miss f m p ps (upsert_from_fill divide id f ps) k
            (net-upsert id f m ps h s.1 (fewer_rows m p ps o))
  ]

  -- Under fills of some size, in any table that fills have built: a fill leaves what the table holds in every
  -- other market, and in its own market the table keeps a proper ledger, where the signed size of the
  -- fill is added, unless the fill is against the holding and larger than it. Then the table holds
  -- nothing: what the fill has beyond the holding is lost, where a ledger has it on the other side.
  pub net-upsert_from_fill :
      {ps : List Position} (id : ℕ) (f : Fill) (m : Option ℕ)
      → Reach divide ps
      → 0 < f.size
      → let held = net m ps in
        net m (upsert_from_fill divide id f ps) ≡ (
          if same_market f.market_id m
          then (if is_oversized held f then pos 0 else ledger held f)
          else held)
  unfolding book
  net-upsert_from_fill {ps} id f m r h =
      let v = tables-IsBooked divide m r in net-upsert id f m ps h v.sound v.single
