-- ===== src/Common/Bytes.antt =====
-- Byte strings: a `Slice` and a `std::string` are lists of numbers, each below 256.
use Prim.Native.Nat.{ℕ, ◌<◌, ◌^◌}
use mathlib.Core.List.{List}
use leveldb_mcpe_dotnet.Common.Lists.{All}

abbrev pub Bytes : Type 0
Bytes = List ℕ

abbrev pub IsByte : ℕ → Type 0
IsByte b = b < 256

abbrev pub AllBytes : Bytes → Type 0
AllBytes = All IsByte

abbrev pub IsU32 : ℕ → Type 0
IsU32 v = v < 2 ^ 32

abbrev pub IsU64 : ℕ → Type 0
IsU64 v = v < 2 ^ 64
