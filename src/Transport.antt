-- ===== src/Transport.antt =====
-- io/dds/base/DdsIoTypes.h: what the senders and the readers of the DDS layer answer.
pub mod Reading
use umaa_cpp.Base.{Bool, true, false}

pub data SendStatus : Type 0 where
  success error not_implemented : SendStatus

abbrev pub is_error : SendStatus → Bool
is_error error = true
is_error _ = false

abbrev pub is_success : SendStatus → Bool
is_success success = true
is_success _ = false
