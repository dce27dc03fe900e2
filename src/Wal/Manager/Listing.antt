-- ===== src/Wal/Manager/Listing.antt =====
-- The sorting of a directory's files by number (wal/manager.rs), in whatever order they are listed.
use merutable.Bytes.{Bytes}
use merutable.Wal.Manager.{Directory, insert_log, sort_logs}
use merutable.Prelude.{ℕ, List, ◌≡◌, ◌≢◌, ◌∷◌, ap, ◌∙◌, All, arith, refl, ◌<◌, []}

-- Numbers rise along the list.
abbrev pub Ascending {ℓ} : {A : Type ℓ} → List (ℕ × A) → Type 0
Ascending [] = Unit
Ascending (x ∷ xs) = All (λ y. x.0 < y.0) xs × Ascending xs

-- The same files in another order; two that change places have different numbers.
pub data Rearranged : Directory → Directory → Type 0 where
  same : (d : Directory) → Rearranged d d
  swapped : (x y : ℕ × Bytes) (d : Directory) → x.0 ≢ y.0 → Rearranged (x ∷ y ∷ d) (y ∷ x ∷ d)
  under : (x : ℕ × Bytes) (d e : Directory) → Rearranged d e → Rearranged (x ∷ d) (x ∷ e)
  twice : (d e f : Directory) → Rearranged d e → Rearranged e f → Rearranged d f

insert_log_comm :
    (x y : ℕ × Bytes) (d : Directory)
    → x.0 ≢ y.0
    → insert_log x (insert_log y d) ≡ insert_log y (insert_log x d)
unfolding insert_log
insert_log_comm x y [] n = ground (arith, n)
insert_log_comm x y (z ∷ d) n = ground (arith, n, insert_log_comm x y d n)

pub sort_logs-Rearranged : (d e : Directory) → Rearranged d e → sort_logs d ≡ sort_logs e
unfolding sort_logs
sort_logs-Rearranged a b (same d) = refl
sort_logs-Rearranged a b (swapped x y d n) = insert_log_comm x y (sort_logs d) n
sort_logs-Rearranged a b (under x d e r) = ap (insert_log x) (sort_logs-Rearranged d e r)
sort_logs-Rearranged a b (twice d e f r s) = sort_logs-Rearranged d e r ∙ sort_logs-Rearranged e f s

-- A listing in order is not changed.
pub sort_logs-Ascending : (d : Directory) → Ascending d → sort_logs d ≡ d
unfolding sort_logs
sort_logs-Ascending [] h = refl
sort_logs-Ascending (x ∷ d) (h, a) = rw (sort_logs-Ascending d a) (first x d h)
  where
    first : (x : ℕ × Bytes) (d : Directory) → All (λ y. x.0 < y.0) d → insert_log x d ≡ x ∷ d
    first x [] h = unfold insert_log in refl
    first x (y ∷ d) h = unfold insert_log in ground (arith, h.0)
