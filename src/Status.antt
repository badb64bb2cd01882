-- ===== src/Status.antt =====
-- include/leveldb/status.h and util/status.cc: the result of an operation. The source keeps the
-- code and the message in one allocated array; here they are the constructor and its argument.
use Prim.Native.String.{String}
use leveldb_mcpe_dotnet.Common.{Bool, true, false}

pub data Status : Type 0 where
  ok : Status
  not_found corruption not_supported invalid_argument io_error : String → Status

abbrev pub is_ok : Status → Bool
is_ok Status.ok = true
is_ok _ = false
