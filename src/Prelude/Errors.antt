-- ===== src/Prelude/Errors.antt =====
-- `MeruError` and `Result` (types/error.rs). The message of an error is a diagnostic that no code
-- reads, so the variants carry none. `panic` stands for an index out of bounds or a failed
-- `assert!`, which in Rust is no value of `Result`.
use mathlib.Core.Path.{◌≡◌, refl}
use mathlib.Core.Bool.{Bool, true, false}
use Prim.Native.Nat.{ℕ}

pub data MeruError : Type 0 where
  io corruption schema_mismatch not_found object_store parquet iceberg wal compaction : MeruError
  invalid_argument read_only closed already_exists : MeruError
  change_feed_below_retention : ℕ → ℕ → MeruError

pub data Result {ℓ} (A : Type ℓ) : Type ℓ where
  ok : A → Result A
  err : MeruError → Result A
  panic : Result A

-- `?`, as a do block
infixl 5 ◌>>=◌ ◌>>◌
abbrev pub ◌>>=◌ {ℓ₁ ℓ₂} : {X : Type ℓ₁} {Y : Type ℓ₂} → Result X → (X → Result Y) → Result Y
panic >>= next = panic
err reason >>= next = err reason
ok x >>= next = next x

abbrev pub ◌>>◌ {ℓ} : {Y : Type ℓ} → Result (Unit {0}) → Result Y → Result Y
panic >> after = panic
err reason >> after = err reason
ok done >> after = after

-- `if !b { return Err(e) }`
abbrev pub guard : Bool → MeruError → Result (Unit {0})
guard b reason = elim b [ false ↦ err reason | true ↦ ok tt ]

-- A chain that ends in a value went through its first part.
pub >>=-eq-ok {ℓ₁ ℓ₂} :
    {X : Type ℓ₁} {Y : Type ℓ₂} (first : Result X) (next : X → Result Y) {y : Y}
    → (first >>= next) ≡ ok y
    → (x : X) × (first ≡ ok x) × (next x ≡ ok y)
>>=-eq-ok panic next e = cc
>>=-eq-ok (err reason) next e = cc
>>=-eq-ok (ok x) next e = (x, refl, e)

pub >>-eq-ok {ℓ} :
    {Y : Type ℓ} (first : Result (Unit {0})) (after : Result Y) {y : Y}
    → (first >> after) ≡ ok y
    → (first ≡ ok tt) × (after ≡ ok y)
>>-eq-ok panic after e = cc
>>-eq-ok (err reason) after e = cc
>>-eq-ok (ok done) after e = (refl, e)

pub ok_inj {ℓ} : {A : Type ℓ} {x y : A} → ok x ≡ ok y → x ≡ y
ok_inj e = cc
