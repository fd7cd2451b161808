-- ===== src/Utility/Uptime.antt =====
-- The parts of the time that uptime_str prints.
use aegis_cpp.Common.{ℕ, ◌+◌, ◌*◌, ◌<◌, ◌≡◌, arith}
use aegis_cpp.Utility.{days, hours, minutes, rest_seconds}

-- The printed hours, minutes and seconds are below 24, 60 and 60, and all parts make up the time.
pub uptime_parts :
    (t : ℕ)
    → (hours t < 24)
      × (minutes t < 60)
      × (rest_seconds t < 60)
      × (days t * 86400 + hours t * 3600 + minutes t * 60 + rest_seconds t ≡ t)
uptime_parts t = (omega arith, omega arith, omega arith, omega arith)
