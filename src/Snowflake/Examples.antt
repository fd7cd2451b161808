-- ===== src/Snowflake/Examples.antt =====
-- Tests of snowflake.hpp, on the identifier that Discord's documentation takes apart.
use aegis_cpp.Common.{◌≡◌, refl, arith}
use aegis_cpp.Common.Int.{pos, negsuc}
use aegis_cpp.Snowflake.{get_all, get_time}
use aegis_cpp.Snowflake.Fields.{compose, get_all-compose, get_time-compose}

documented :
    get_all 175928847299117063
    ≡ record { timestamp = pos 41944705796; worker = pos 1; process = pos 32; count = pos 7 }
unfolding get_all
documented = refl

get_all-compose_example :
    get_all (compose 41944705796 5 3 7)
    ≡ record { timestamp = pos 41944705796; worker = pos 5; process = negsuc 95; count = pos 7 }
get_all-compose_example =
    get_all-compose 41944705796 5 3 7 (omega arith) (omega arith) (omega arith) (omega arith)

get_time-compose_example : get_time (compose 41944705796 1 0 7) ≡ pos 1462015105796
get_time-compose_example =
    get_time-compose 41944705796 1 0 7 (omega arith) (omega arith) (omega arith) (omega arith)
