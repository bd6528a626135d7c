-- ===== src/Scoreboard.antt =====
-- include/plvcore/DataConsumer.h (ScoreBoard): how many of the synchronous input pins of a
-- consumer have got the data item with a given serial number.
-- A serial number is an unsigned int and a count is an int; neither reaches its bound here.
mod Examples
use parlevision.Base.Table
use parlevision.Base.Table.{Table}
use native.Mathlib.Nat.{suc-mod, mod_self, mod-lt, mod-eq_of_lt, add-zero}
use parlevision.Base.{
  inl, inr, Bool-cases, occurrences, ◌∙◌, sym, ap, ℕ, zero, suc, ◌+◌, ◌%◌, ◌<◌, ◌≤◌, ◌≡◌, ◌↔◌, refl,
  Bool, true, false, List, [], ◌∷◌, ◌++◌, Option, none, some, arith, ◌==◌, if◌then◌else◌,
}

pub record ScoreBoard : Type 0 where
  pub pincount : ℕ
  pub rows : Table ℕ

pub new : ScoreBoard
new = record { pincount = 0; rows = [] }

pub set_pin_count : ℕ → ScoreBoard → ScoreBoard
set_pin_count count b = record b { pincount = count }

abbrev pub value_or : Option ℕ → ℕ → ℕ
value_or none d = d
value_or (some n) d = n

-- The count of a serial number, 0 if there is no row for it.
pub count_of : ℕ → ScoreBoard → ℕ
unfolding Table.lookup
count_of serial b = value_or (Table.lookup serial b.rows) 0

-- ScoreBoard::add: true if the row is complete.
pub add : ℕ → ScoreBoard → Bool × ScoreBoard
unfolding count_of
add serial b =
    let count = suc (count_of serial b) in
    if count == b.pincount
    then (true, record b { rows = Table.remove serial b.rows })
    else (false, record b { rows = Table.insert serial count b.rows })

-- The calls of add for a list of arrivals, and the board after them.
pub add_all : List ℕ → ScoreBoard → ScoreBoard
add_all [] b = b
add_all (serial ∷ rest) b = add_all rest (add serial b).1

pincount-add : (s : ℕ) (b : ScoreBoard) → (add s b).1.pincount ≡ b.pincount
unfolding add
pincount-add s b = ground arith

count_of-add :
    (s j : ℕ) (b : ScoreBoard)
    → count_of j (add s b).1 ≡ (
        if s == j
        then (if suc (count_of j b) == b.pincount then 0 else suc (count_of j b))
        else count_of j b)
unfolding add count_of
count_of-add s j b =
    ground
      (arith, Table.lookup-insert s j (suc (count_of s b)) b.rows, Table.lookup-remove s j b.rows)

wrap : (k n : ℕ) → 0 < n → (if suc (k % n) == n then 0 else suc (k % n)) ≡ suc k % n
wrap k n h =
    ground
      (arith, suc-mod k n, mod_self n, mod-lt k {m = n}, mod-eq_of_lt {n = suc (k % n)} {m = n})

count_of-add_all :
    (s k n : ℕ) (arrivals : List ℕ) (b : ScoreBoard)
    → 0 < n
    → b.pincount ≡ n
    → count_of s b ≡ k % n
    → count_of s (add_all arrivals b) ≡ (k + occurrences s arrivals) % n
unfolding add_all
count_of-add_all s k n [] b h p e = rw add-zero e
count_of-add_all s k n (x ∷ xs) b h p e = elim (Bool-cases (x == s)) [
  | inl q ↦
      let i : x ≡ s = ground arith in
      let shift : k + suc (occurrences s xs) ≡ suc k + occurrences s xs = omega arith in
      rw (q, shift)
        (count_of-add_all s (suc k) n xs (add x b).1 h (pincount-add x b ∙ p)
          (ground (arith, count_of-add x s b, wrap k n h)))
  | inr q ↦ rw q (
      count_of-add_all s k n xs (add x b).1 h (pincount-add x b ∙ p)
        (ground (arith, count_of-add x s b)))
]

pincount-add_all : (arrivals : List ℕ) (b : ScoreBoard) → (add_all arrivals b).pincount ≡ b.pincount
unfolding add_all
pincount-add_all [] b = refl
pincount-add_all (x ∷ xs) b = pincount-add_all xs (add x b).1 ∙ pincount-add x b

-- The board after arrivals for a consumer with n synchronous connected pins.
pub board_after : ℕ → List ℕ → ScoreBoard
unfolding add_all set_pin_count new
board_after n arrivals = add_all arrivals (set_pin_count n new)

count_of-board_after :
    (n serial : ℕ) (arrivals : List ℕ)
    → 0 < n
    → count_of serial (board_after n arrivals) ≡ occurrences serial arrivals % n
unfolding board_after count_of
count_of-board_after n s arrivals h =
    let none_yet : 0 + occurrences s arrivals ≡ occurrences s arrivals = omega arith in
    count_of-add_all s 0 n arrivals (record { pincount = n; rows = [] }) h refl
      (sym (mod-eq_of_lt {n = 0} {m = n} h))
    ∙ ap (λ (t : ℕ). t % n) none_yet

pincount-board_after : (n : ℕ) (arrivals : List ℕ) → (board_after n arrivals).pincount ≡ n
unfolding board_after
pincount-board_after n arrivals = pincount-add_all arrivals (record { pincount = n; rows = [] })

-- For a consumer with n > 0 synchronous connected pins, whatever items arrived before and in
-- whatever order their serials came: an arrival of a serial completes its row exactly if it is the
-- n-th, 2n-th, ... arrival of that serial, and the count that is kept for each serial is the
-- number of its arrivals modulo n.
pub add_completes_row :
    (n serial : ℕ) (arrivals : List ℕ)
    → 0 < n
    → (((add serial (board_after n arrivals)).0 ≡ true)
        ↔ (suc (occurrences serial arrivals) % n ≡ 0))
      × (count_of serial (board_after n arrivals) ≡ occurrences serial arrivals % n)
unfolding add
add_completes_row n s arrivals h =
    let held = count_of-board_after n s arrivals h in
    let seen = occurrences s arrivals in
    (
      (
        λ e. ground (arith, held, pincount-board_after n arrivals, suc-mod seen n, mod_self n),
        λ e. ground (
          arith,
          held,
          pincount-board_after n arrivals,
          suc-mod seen n,
          mod-lt seen {m = n},
          mod-eq_of_lt {n = suc (seen % n)} {m = n},
        ),
      ),
      held,
    )
