-- ===== src/Xrpl/Ledgers.antt =====
-- The ledgers that src/modules/xrpl-connection/services/xrpl-connection-manager.service.ts sees, and
-- the gaps between them: `handleLedgerClosed`, `detectLedgerGaps` and the end of a backfill.
use v2_xrpl_tools.Prelude.{
  ℕ, suc, ◌+◌, ◌-◌, ◌≡◌, ◌<◌, ◌≤◌, not, ◌&&◌, List, [], ◌∷◌, ◌++◌, ltb, leb, ◌==◌, filter,
  if◌then◌else◌, arith,
}

pub record LedgerGap : Type 0 where
  pub start_ledger : ℕ
  pub end_ledger : ℕ
  pub size : ℕ

-- `published` holds the ledgers that subscribers and the message queue were told of.
pub record Ledgers : Type 0 where
  pub last_seen_ledger : ℕ
  pub ledger_gaps : List LedgerGap
  pub published : List ℕ

unfoldable pub gap_between : ℕ → ℕ → LedgerGap
gap_between last index = record {
  start_ledger = last + 1;
  end_ledger = index - 1;
  size = index - last - 1;
}

unfoldable pub new_gaps : ℕ → ℕ → List LedgerGap
unfolding gap_between
new_gaps last index = if ltb 0 last && ltb (last + 1) index then gap_between last index ∷ [] else []

unfoldable pub handle_ledger_closed : ℕ → Ledgers → Ledgers
unfolding new_gaps
handle_ledger_closed index s = record {
  last_seen_ledger = index;
  ledger_gaps = s.ledger_gaps ++ new_gaps s.last_seen_ledger index;
  published = s.published ++ index ∷ [];
}

unfoldable pub handle_ledgers : List ℕ → Ledgers → Ledgers
unfolding handle_ledger_closed
handle_ledgers [] s = s
handle_ledgers (i ∷ rest) s = handle_ledgers rest (handle_ledger_closed i s)

-- A backfill that has succeeded removes its range.
unfoldable pub finish_backfill : ℕ → ℕ → Ledgers → Ledgers
finish_backfill start end s = record s {
  ledger_gaps =
      filter (λ gap. not (gap.start_ledger == start && gap.end_ledger == end)) s.ledger_gaps;
}

-- how many of the gaps hold a ledger, and how often it stands in a list
abbrev pub gapped : ℕ → List LedgerGap → ℕ
gapped n [] = 0
gapped n (g ∷ gs) =
    if leb g.start_ledger n && leb n g.end_ledger then suc (gapped n gs) else gapped n gs

abbrev pub seen : ℕ → List ℕ → ℕ
seen n [] = 0
seen n (i ∷ rest) = if i == n then suc (seen n rest) else seen n rest

abbrev pub IsAscending : ℕ → List ℕ → Type 0
IsAscending last [] = Unit
IsAscending last (i ∷ rest) = (last < i) × IsAscending i rest

gapped-append : (n : ℕ) (gs hs : List LedgerGap) → gapped n (gs ++ hs) ≡ gapped n gs + gapped n hs
gapped-append n [] hs = omega arith
gapped-append n (g ∷ gs) hs = ground (arith, gapped-append n gs hs)

seen-append : (n : ℕ) (xs ys : List ℕ) → seen n (xs ++ ys) ≡ seen n xs + seen n ys
seen-append n [] ys = omega arith
seen-append n (x ∷ xs) ys = ground (arith, seen-append n xs ys)

handle_ledgers-ascends :
    (rest : List ℕ) (s : Ledgers)
    → IsAscending s.last_seen_ledger rest
    → s.last_seen_ledger ≤ (handle_ledgers rest s).last_seen_ledger
unfolding handle_ledgers
handle_ledgers-ascends [] s h = omega arith
handle_ledgers-ascends (i ∷ rest) s (h, k) =
    omega (arith, handle_ledgers-ascends rest (handle_ledger_closed i s) k)

abbrev between : ℕ → ℕ → ℕ → ℕ
between low n high = if ltb low n && leb n high then 1 else 0

new_gaps-between :
    (n last index : ℕ)
    → 0 < last
    → last < index
    → gapped n (new_gaps last index) + seen n (index ∷ []) ≡ between last n index
unfolding new_gaps gap_between
new_gaps-between n last index z h = ground arith

-- Of a node that sends its ledgers in ascending order every ledger after the last one seen, up to
-- the newest, is accounted for exactly once: it was received, or it lies in one of the gaps that
-- were recorded meanwhile. A ledger outside of that range adds to neither.
pub handle_ledgers-accounted :
    (n : ℕ) (rest : List ℕ) (s : Ledgers)
    → 0 < s.last_seen_ledger
    → IsAscending s.last_seen_ledger rest
    → let r = handle_ledgers rest s in
      gapped n r.ledger_gaps + seen n rest
      ≡ gapped n s.ledger_gaps
        + (if ltb s.last_seen_ledger n && leb n r.last_seen_ledger then 1 else 0)
unfolding handle_ledgers
handle_ledgers-accounted n [] s z h = ground arith
handle_ledgers-accounted n (i ∷ rest) s z (h, k) =
    let s' = handle_ledger_closed i s in
    ground (
      arith,
      handle_ledgers-accounted n rest s' (omega arith) k,
      handle_ledgers-ascends rest s' k,
      gapped-append n s.ledger_gaps (new_gaps s.last_seen_ledger i),
      new_gaps-between n s.last_seen_ledger i z h,
    )

-- A ledger that another node sends late sets the last ledger back, and the next ledger then opens a
-- gap for a ledger that was received.
pub late_ledger_gapped :
    (i : ℕ) (s : Ledgers)
    → 0 < i
    → let r = handle_ledgers ((i + 1) ∷ i ∷ (i + 2) ∷ []) s in
      (0 < gapped (i + 1) r.ledger_gaps) × (0 < seen (i + 1) r.published)
unfolding handle_ledgers new_gaps gap_between
late_ledger_gapped i s h = (
  ground (
    arith,
    gapped-append (i + 1)
        ((s.ledger_gaps ++ new_gaps s.last_seen_ledger (i + 1)) ++ new_gaps (i + 1) i)
        (new_gaps i (i + 2)),
  ),
  ground (
    arith,
    seen-append (i + 1) (s.published ++ (i + 1) ∷ []) (i ∷ []),
    seen-append (i + 1) s.published ((i + 1) ∷ []),
    seen-append (i + 1) ((s.published ++ (i + 1) ∷ []) ++ i ∷ []) ((i + 2) ∷ []),
  ),
)
