-- ===== src/Wal/Format.antt =====
-- wal/format.rs: block geometry and record types.
use merutable.Prelude.{ℕ, Bool, Option, none, some, leb, if◌then◌else◌, ◌≡◌, refl, zero, suc}

abbrev pub block_size : ℕ
block_size = 32_768

pub data RecordType : Type 0 where
  full first middle last : RecordType
  recyclable_full recyclable_first recyclable_middle recyclable_last : RecordType

-- `self as u8`
abbrev pub type_byte : RecordType → ℕ
type_byte full = 1
type_byte first = 2
type_byte middle = 3
type_byte last = 4
type_byte recyclable_full = 5
type_byte recyclable_first = 6
type_byte recyclable_middle = 7
type_byte recyclable_last = 8

-- `RecordType::from_byte`
unfoldable pub from_byte : ℕ → Option RecordType
from_byte (suc zero) = some full
from_byte (suc (suc zero)) = some first
from_byte (suc (suc (suc zero))) = some middle
from_byte (suc (suc (suc (suc zero)))) = some last
from_byte (suc (suc (suc (suc (suc zero))))) = some recyclable_full
from_byte (suc (suc (suc (suc (suc (suc zero)))))) = some recyclable_first
from_byte (suc (suc (suc (suc (suc (suc (suc zero))))))) = some recyclable_middle
from_byte (suc (suc (suc (suc (suc (suc (suc (suc zero)))))))) = some recyclable_last
from_byte _ = none

-- `RecordType::is_recyclable`
abbrev pub is_recyclable : RecordType → Bool
is_recyclable t = leb 5 (type_byte t)

-- The header of a log: `HEADER_SIZE` or `RECYCLABLE_HEADER_SIZE`. This is `effective_header_size`
-- of the writer, the first lines of `read_physical_record`, and `RecordType::header_size`.
abbrev pub header_size : Bool → ℕ
header_size recyclable = if recyclable then 11 else 7

pub from_byte-type_byte : (t : RecordType) → from_byte (type_byte t) ≡ some t
unfolding from_byte
from_byte-type_byte full = refl
from_byte-type_byte first = refl
from_byte-type_byte middle = refl
from_byte-type_byte last = refl
from_byte-type_byte recyclable_full = refl
from_byte-type_byte recyclable_first = refl
from_byte-type_byte recyclable_middle = refl
from_byte-type_byte recyclable_last = refl
