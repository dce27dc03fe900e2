-- ===== src/Types/Sequence/Allocation.antt =====
-- The numbers that concurrent writers get from one counter.
use merutable.Types.Sequence.{SeqNum, allocate, allocate_n, set_at_least}
use merutable.Prelude.{ℕ, List, ◌∷◌, ◌≤◌, [], ◌+◌, ◌%◌, arith, ◌<◌, All, ◌^◌, ◌≡◌}

-- The calls of any threads, in the order of their atomic steps
pub data SeqCall : Type 0 where
  one : SeqCall
  many : ℕ → SeqCall
  raise : ℕ → SeqCall

-- The ranges that the calls reserve: the first number and how many
unfoldable pub reserved : ℕ → List SeqCall → List (SeqNum × ℕ)
reserved counter [] = []
reserved counter (one ∷ calls) =
    let (base, counter') = allocate counter in (base, 1) ∷ reserved counter' calls
reserved counter (many n ∷ calls) =
    let (base, counter') = allocate_n counter n in (base, n) ∷ reserved counter' calls
reserved counter (raise val ∷ calls) = reserved (set_at_least counter val) calls

-- The counter stays a u64.
abbrev pub Bounded : ℕ → List SeqCall → Type 0
Bounded counter [] = Unit
Bounded counter (one ∷ calls) = (counter + 1 < 2 ^ 64) × Bounded (counter + 1) calls
Bounded counter (many n ∷ calls) = (counter + n < 2 ^ 64) × Bounded (counter + n) calls
Bounded counter (raise val ∷ calls) = Bounded (set_at_least counter val) calls

-- Each range ends before all later ones begin.
abbrev pub Ascending : List (SeqNum × ℕ) → Type 0
Ascending [] = Unit
Ascending (r ∷ rs) = All (λ q. r.0 + r.1 ≤ q.0) rs × Ascending rs

set_at_least-grows : (counter val : ℕ) → counter ≤ set_at_least counter val
unfolding set_at_least
set_at_least-grows counter val = ground arith

reserved-from :
    (calls : List SeqCall) (low counter : ℕ)
    → low ≤ counter
    → Bounded counter calls
    → All (λ q. low ≤ q.0) (reserved counter calls)
unfolding reserved allocate allocate_n
reserved-from [] low counter h b = tt
reserved-from (one ∷ calls) low counter h b =
    let next_one : (counter + 1) % 2 ^ 64 ≡ counter + 1 = omega (arith, b.0) in
    (h, rw next_one (reserved-from calls low (counter + 1) (omega arith) b.1))
reserved-from (many n ∷ calls) low counter h b =
    let next_one : (counter + n) % 2 ^ 64 ≡ counter + n = omega (arith, b.0) in
    (h, rw next_one (reserved-from calls low (counter + n) (omega arith) b.1))
reserved-from (raise val ∷ calls) low counter h b =
    reserved-from calls low (set_at_least counter val)
      (omega (arith, set_at_least-grows counter val)) b

-- In whatever order writers reserve numbers and recovery raises the counter, each range that is
-- reserved ends before all later ones begin, so that no sequence number is given out twice, as long
-- as the counter stays a u64.
pub reserved-Ascending :
    (counter : ℕ) (calls : List SeqCall)
    → Bounded counter calls
    → Ascending (reserved counter calls)
unfolding reserved allocate allocate_n
reserved-Ascending counter [] b = tt
reserved-Ascending counter (one ∷ calls) b =
    let next_one : (counter + 1) % 2 ^ 64 ≡ counter + 1 = omega (arith, b.0) in
    rw next_one (
      reserved-from calls (counter + 1) (counter + 1) (omega arith) b.1,
      reserved-Ascending (counter + 1) calls b.1,
    )
reserved-Ascending counter (many n ∷ calls) b =
    let next_one : (counter + n) % 2 ^ 64 ≡ counter + n = omega (arith, b.0) in
    rw next_one (
      reserved-from calls (counter + n) (counter + n) (omega arith) b.1,
      reserved-Ascending (counter + n) calls b.1,
    )
reserved-Ascending counter (raise val ∷ calls) b =
    reserved-Ascending (set_at_least counter val) calls b
