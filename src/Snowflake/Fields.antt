-- ===== src/Snowflake/Fields.antt =====
-- The accessors against the layout of an identifier: 42 bits of time, 5 of worker, 5 of process
-- and 12 of count.
use aegis_cpp.Common.{
  ℕ, ◌+◌, ◌*◌, ◌/◌, ◌%◌, ◌^◌, ◌<◌, ◌≡◌, arith, bit_and, bit_and_field, bit_and_mask,
}
use aegis_cpp.Common.Int.{pos, to_signed}
use aegis_cpp.Snowflake.{
  get_all, get_time, get_process, get_worker, get_timestamp, get_count, discord_epoch, count_mask,
  worker_mask, timestamp_mask,
}

-- The documented layout.
abbrev pub compose : ℕ → ℕ → ℕ → ℕ → ℕ
compose t w p c = t * 2 ^ 22 + w * 2 ^ 17 + p * 2 ^ 12 + c

worker_bits : (id : ℕ) → bit_and id worker_mask ≡ id / 2 ^ 17 % 2 ^ 5 * 2 ^ 17
worker_bits id = bit_and_field 5 17 id

timestamp_bits : (id : ℕ) → bit_and id timestamp_mask ≡ id / 2 ^ 22 % 2 ^ 42 * 2 ^ 22
timestamp_bits id = bit_and_field 42 22 id

count_bits : (id : ℕ) → bit_and id count_mask ≡ id % 2 ^ 12
count_bits id = bit_and_mask 12 id

module _ (t w p c : ℕ) (ht : t < 2 ^ 42) (hw : w < 2 ^ 5) (hp : p < 2 ^ 5) (hc : c < 2 ^ 12) where
  timestamp_lem : get_timestamp (compose t w p c) ≡ pos t
  unfolding get_timestamp
  timestamp_lem = ground (arith, timestamp_bits (compose t w p c))

  worker_lem : get_worker (compose t w p c) ≡ pos w
  unfolding get_worker
  worker_lem = ground (arith, worker_bits (compose t w p c))

  process_lem : get_process (compose t w p c) ≡ to_signed 8 (w * 2 ^ 5)
  unfolding get_process
  process_lem = ground (arith, worker_bits (compose t w p c))

  count_lem : get_count (compose t w p c) ≡ pos c
  unfolding get_count
  count_lem = ground (arith, count_bits (compose t w p c))

  -- Of an identifier with the documented layout (42 bits of time, 5 of worker, 5 of process, 12 of
  -- count), `get_all` returns the time, the worker and the count; its process is made from the
  -- worker field, moved up by five places and cut to a signed byte.
  pub get_all-compose : get_all (compose t w p c) ≡ record {
    timestamp = pos t;
    worker = pos w;
    process = to_signed 8 (w * 2 ^ 5);
    count = pos c;
  }
  unfolding get_all
  get_all-compose = cc (timestamp_lem, worker_lem, process_lem, count_lem)

  -- The creation time of an identifier with the documented layout is its time field counted from
  -- the Discord epoch.
  pub get_time-compose : get_time (compose t w p c) ≡ pos (t + discord_epoch)
  unfolding get_time
  get_time-compose = ground (arith, timestamp_bits (compose t w p c))
