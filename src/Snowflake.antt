-- ===== src/Snowflake.antt =====
-- include/aegis/snowflake.hpp: a Discord identifier and the fields packed into it. `_id` is a
-- `uint64_t`, so a number below 2 ^ 64.
pub mod Fields
mod Examples
use aegis_cpp.Common.{ℕ, ◌+◌, ◌/◌, ◌^◌, bit_and}
use aegis_cpp.Common.Int.{ℤ, pos, to_signed}

abbrev pub count_mask : ℕ
count_mask = 0x0000_0000_0000_0FFF

abbrev pub worker_mask : ℕ
worker_mask = 0x0000_0000_003E_0000

abbrev pub timestamp_mask : ℕ
timestamp_mask = 0xFFFF_FFFF_FFC0_0000

abbrev pub discord_epoch : ℕ
discord_epoch = 1420070400000

pub get_count : ℕ → ℤ
get_count id = to_signed 16 (bit_and id count_mask)

-- The source takes the mask of the worker here too.
pub get_process : ℕ → ℤ
get_process id = to_signed 8 (bit_and id worker_mask / 2 ^ 12)

pub get_worker : ℕ → ℤ
get_worker id = to_signed 8 (bit_and id worker_mask / 2 ^ 17)

pub get_timestamp : ℕ → ℤ
get_timestamp id = to_signed 64 (bit_and id timestamp_mask / 2 ^ 22)

-- The sum is formed in `uint64_t` and then converted.
pub get_time : ℕ → ℤ
get_time id = to_signed 64 (bit_and id timestamp_mask / 2 ^ 22 + discord_epoch)

pub record Parts : Type 0 where
  pub timestamp : ℤ
  pub worker : ℤ
  pub process : ℤ
  pub count : ℤ

unfoldable pub get_all : ℕ → Parts
unfolding get_timestamp get_worker get_process get_count
get_all id = record {
  timestamp = get_timestamp id;
  worker = get_worker id;
  process = get_process id;
  count = get_count id;
}
