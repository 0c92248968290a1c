-- ===== src/Qr/Penalty.antt =====
-- services/api/src/qr.ts: the masks, and the four penalty rules by which one of them is chosen.
--
-- Rule 4 compares a share with steps of five per cent: the share is kept a fraction.
use trans_f.Prelude.{ℕ, zero, suc, Bool, true, false, not, ◌&&◌, ◌||◌, ◌+◌, ◌-◌, ◌*◌, ◌/◌, ◌%◌}
use trans_f.Prelude.Tests.{leb, ◌==◌, if◌then◌else◌}
use trans_f.Qr.Grid.{Module, dark, Grid, apart}

abbrev pub is_dark : Module → Bool
is_dark dark = true
is_dark _ = false

-- MASKS[mask](r, c)
unfoldable pub masks : ℕ → ℕ → ℕ → Bool
masks mask r c =
    if mask == 0
    then (r + c) % 2 == 0
    else if mask == 1
    then r % 2 == 0
    else if mask == 2
    then c % 3 == 0
    else if mask == 3
    then (r + c) % 3 == 0
    else if mask == 4
    then (r / 2 + c / 3) % 2 == 0
    else if mask == 5
    then r * c % 2 + r * c % 3 == 0
    else if mask == 6
    then (r * c % 2 + r * c % 3) % 2 == 0
    else ((r + c) % 2 + r * c % 3) % 2 == 0

-- for (let i = 0; i < n; i++) score += f(i)
total : ℕ → (ℕ → ℕ) → ℕ
total zero f = 0
total (suc n) f = total n f + f n

same : Bool → Bool → Bool
same true b = b
same false b = not b

abbrev run_score : ℕ → ℕ
run_score run = if leb 5 run then run - 2 else 0

-- Rule 1 on one line: from `j` on, with `n` modules left.
runs : (ℕ → Bool) → ℕ → ℕ → ℕ → ℕ → ℕ
runs line zero j run score = score + run_score run
runs line (suc n) j run score =
    let goes_on = same (line j) (line (j - 1)) in
    runs line n (j + 1) (if goes_on then run + 1 else 1)
      (if goes_on then score else score + run_score run)

-- Rule 2 on one block.
block_score : (ℕ → ℕ → Bool) → ℕ → ℕ → ℕ
block_score dark_at r c =
    let v = dark_at r c in
    if same v (dark_at r (c + 1)) && same v (dark_at (r + 1) c) && same v (dark_at (r + 1) (c + 1))
    then 3
    else 0

all_light : (ℕ → Bool) → ℕ → ℕ → Bool
all_light line from zero = true
all_light line from (suc n) = not (line from) && all_light line (from + 1) n

-- matches(line, at), on a line of `n` modules
matches : (ℕ → Bool) → ℕ → ℕ → Bool
matches line n at =
    (line at
      && not (line (at + 1))
      && line (at + 2)
      && line (at + 3)
      && line (at + 4)
      && not (line (at + 5))
      && line (at + 6))
    && ((leb 4 at && all_light line (at - 4) 4) || (leb (at + 11) n && all_light line (at + 7) 4))

-- penalty(g)
unfoldable pub penalty : Grid → ℕ
unfolding total same runs block_score all_light matches
penalty g =
    let n = g.size in
    let dark_at = λ (r c : ℕ). is_dark (g.at r c) in
    let rule_1 =
      total n (λ i. runs (dark_at i) (n - 1) 1 1 0 + runs (λ j. dark_at j i) (n - 1) 1 1 0) in
    let rule_2 = total (n - 1) (λ r. total (n - 1) (block_score dark_at r)) in
    let rule_3 = total n (λ i. total (n - 6) (λ at.
      (if matches (dark_at i) n at then 40 else 0)
      + (if matches (λ j. dark_at j i) n at then 40 else 0))) in
    let dark_count = total n (λ r. total n (λ c. if dark_at r c then 1 else 0)) in
    rule_1 + rule_2 + rule_3 + apart (dark_count * 100) (50 * (n * n)) / (5 * (n * n)) * 10
