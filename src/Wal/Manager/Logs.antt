-- ===== src/Wal/Manager/Logs.antt =====
-- Which logs a directory still holds, and the file operations on it (wal/manager.rs).
use merutable.Bytes.{Bytes}
use merutable.Wal.Batch
use merutable.Wal.Batch.{WriteBatch, last_seq}
use merutable.Wal.Manager.{Directory, remove_file, create_file, append_file}
use merutable.Wal.Manager.Content.{log_of}
use merutable.Wal.Manager.Listing.{Ascending}
use merutable.Wal.Manager.Recovered.{Log, file_of}
use merutable.Types.Sequence.{SeqNum}
use merutable.Prelude.{
  ℕ, List, All, [], ◌∷◌, ◌≤◌, ◌<◌, ◌++◌, ◌≢◌, ◌≡◌, map, arith, All-map, ◌==◌, Bool-cases,
  if◌then◌else◌, inl, false, ==_iff, inr, ap, refl, All-append,
}

-- The batches of a log are flushed up to a sequence number.
abbrev pub IsFlushed : SeqNum → Log → Type 0
IsFlushed seq l = All (λ b. last_seq b ≤ seq) l.1

-- Of the logs, those that are flushed may be gone, and the others are there, in order.
pub data Survives (seq : SeqNum) : List Log → List Log → Type 0 where
  none_left : Survives seq [] []
  stays : (l : Log) (ls ks : List Log) → Survives seq ls ks → Survives seq (l ∷ ls) (l ∷ ks)
  gone :
      (l : Log) (ls ks : List Log) → IsFlushed seq l → Survives seq ls ks → Survives seq (l ∷ ls) ks

pub Survives-refl : (seq : SeqNum) (ls : List Log) → Survives seq ls ls
Survives-refl seq [] = none_left
Survives-refl seq (l ∷ ls) = stays l ls ls (Survives-refl seq ls)

pub Survives-append :
    (seq : SeqNum) (ls ks : List Log) (l : Log)
    → Survives seq ls ks
    → Survives seq (ls ++ l ∷ []) (ks ++ l ∷ [])
Survives-append seq a b l none_left = stays l [] [] none_left
Survives-append seq a b l (stays k ls ks s) = stays k _ _ (Survives-append seq ls ks l s)
Survives-append seq a b l (gone k ls ks f s) = gone k _ _ f (Survives-append seq ls ks l s)

pub Survives-mono :
    (seq later : SeqNum) (ls ks : List Log)
    → seq ≤ later
    → Survives seq ls ks
    → Survives later ls ks
Survives-mono seq later a b h none_left = none_left
Survives-mono seq later a b h (stays k ls ks s) = stays k ls ks (Survives-mono seq later ls ks h s)
Survives-mono seq later a b h (gone k ls ks f s) =
    gone k ls ks (All-map _ _ (λ b p. omega arith) k.1 f) (Survives-mono seq later ls ks h s)

pub Survives-All :
    (seq : SeqNum) (P : Log → Type 0) (ls ks : List Log) → Survives seq ls ks → All P ls → All P ks
Survives-All seq P a b none_left h = tt
Survives-All seq P a b (stays l ls ks s) (p, h) = (p, Survives-All seq P ls ks s h)
Survives-All seq P a b (gone l ls ks f s) (p, h) = Survives-All seq P ls ks s h

-- The logs but for one number
abbrev pub without : ℕ → List Log → List Log
without n [] = []
without n (l ∷ ls) = if l.0 == n then without n ls else l ∷ without n ls

pub without-All : (P : Log → Type 0) (n : ℕ) (ls : List Log) → All P ls → All P (without n ls)
without-All P n [] h = tt
without-All P n (l ∷ ls) (p, h) = elim (Bool-cases (l.0 == n)) [
  | inl t ↦ rw t (without-All P n ls h)
  | inr u ↦ rw u (p, without-All P n ls h)
]

pub without-Ascending : (n : ℕ) (ls : List Log) → Ascending ls → Ascending (without n ls)
without-Ascending n [] h = tt
without-Ascending n (l ∷ ls) (p, h) = elim (Bool-cases (l.0 == n)) [
  | inl t ↦ rw t (without-Ascending n ls h)
  | inr u ↦ rw u (without-All (λ y. l.0 < y.0) n ls p, without-Ascending n ls h)
]

-- A log all of whose batches are flushed may be removed.
pub Survives-without :
    (seq : SeqNum) (n : ℕ) (ls ks : List Log)
    → Survives seq ls ks
    → All (λ l. l.0 ≡ n → IsFlushed seq l) ks
    → Survives seq ls (without n ks)
Survives-without seq n a b none_left h = none_left
Survives-without seq n a b (gone k ls ks f s) h = gone k ls _ f (Survives-without seq n ls ks s h)
Survives-without seq n a b (stays k ls ks s) (p, h) = elim (Bool-cases (k.0 == n)) [
  | inl t ↦ rw t (gone k ls _ (p ((==_iff k.0 n).0 t)) (Survives-without seq n ls ks s h))
  | inr u ↦ rw u (stays k ls _ (Survives-without seq n ls ks s h))
]

module _ (crc : Bytes → ℕ) where
  -- Of the directory's files, the last is that of the current log.
  abbrev pub files : List Log → ℕ → Bytes → Directory
  files ks n content = map (file_of crc) ks ++ (n, content) ∷ []

  pub remove_file-files :
      (ks : List Log) (m n : ℕ) (content : Bytes)
      → n ≢ m
      → remove_file (files ks n content) m ≡ files (without m ks) n content
  unfolding remove_file
  remove_file-files [] m n content h = ground (arith, h)
  remove_file-files (k ∷ ks) m n content h = elim (Bool-cases (k.0 == m)) [
    | inl t ↦ rw (t, remove_file) (remove_file-files ks m n content h)
    | inr u ↦ rw (u, remove_file) (ap (λ d. file_of crc k ∷ d) (remove_file-files ks m n content h))
  ]

  pub append_file-files :
      (ks : List Log) (n : ℕ) (content out : Bytes)
      → All (λ k. k.0 < n) ks
      → append_file (files ks n content) n out ≡ files ks n (content ++ out)
  unfolding append_file
  append_file-files [] n content out h = ground arith
  append_file-files (k ∷ ks) n content out (p, h) =
      let ne : (k.0 == n) ≡ false = ground (arith, p) in
      rw ne (ap (λ d. file_of crc k ∷ d) (append_file-files ks n content out h))

  pub create_file-files :
      (ls : List Log) (n : ℕ)
      → All (λ l. l.0 < n) ls
      → create_file (map (file_of crc) ls) n ≡ files ls n []
  unfolding create_file
  create_file-files [] n h = refl
  create_file-files (l ∷ ls) n (p, h) =
      let ne : (l.0 == n) ≡ false = ground (arith, p) in
      rw ne (ap (λ d. file_of crc l ∷ d) (create_file-files ls n h))

  -- The files with that of one more log
  pub files-append :
      (ls : List Log) (l : Log)
      → map (file_of crc) (ls ++ l ∷ []) ≡ files ls l.0 (log_of crc (map Batch.encode l.1)).0
  files-append [] l = refl
  files-append (k ∷ ls) l = ap (λ d. file_of crc k ∷ d) (files-append ls l)

pub Ascending-append :
    (ls : List Log) (l : Log) → Ascending ls → All (λ k. k.0 < l.0) ls → Ascending (ls ++ l ∷ [])
Ascending-append [] l a h = (tt, tt)
Ascending-append (k ∷ ls) l (p, a) (q, h) =
    (All-append (λ y. k.0 < y.0) ls (l ∷ []) p (q, tt), Ascending-append ls l a h)
