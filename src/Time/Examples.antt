-- ===== src/Time/Examples.antt =====
-- The theorems on time stamps at concrete ones.
use umaa_cpp.Base.{◌≡◌, ◌↔◌, ◌&&◌, true, false, not}
use umaa_cpp.Base.Int.{pos, negsuc}
use umaa_cpp.Time.{DateTime, gt, ge, le, lt, Earlier, operators_agree}

abbrev early : DateTime
early = record { seconds = negsuc 2; nanoseconds = pos 999 }

abbrev late : DateTime
late = record { seconds = pos 4; nanoseconds = pos 5 }

abbrev middle : DateTime
middle = record { seconds = pos 4; nanoseconds = pos 3 }

operators_agree_example :
    ((gt late middle ≡ true) ↔ Earlier middle late)
    × ((lt late middle ≡ true) ↔ Earlier late middle)
    × (ge late middle ≡ not (lt late middle))
    × (le late middle ≡ not (gt late middle))
    × ((gt late middle && gt middle early && not (gt late early)) ≡ false)
    × (((gt late middle ≡ false) × (gt middle late ≡ false)) ↔ (late ≡ middle))
operators_agree_example = operators_agree late middle early
