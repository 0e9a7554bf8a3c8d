-- ===== src/Transport/Reading.antt =====
-- ReadStatus of io/dds/base/DdsIoTypes.h, used by a name before it: `R.success` for SUCCESS.
use umaa_cpp.Base.{Bool, true, false}

pub data ReadStatus : Type 0 where
  success error no_data disposed invalid_data not_implemented : ReadStatus

-- Whether a read has given a sample.
abbrev pub is_sample : ReadStatus → Bool
is_sample success = true
is_sample disposed = true
is_sample _ = false

abbrev pub is_no_data : ReadStatus → Bool
is_no_data no_data = true
is_no_data _ = false
