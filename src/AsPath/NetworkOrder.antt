-- ===== src/AsPath/NetworkOrder.antt =====
-- Numbers in network byte order, a concrete instance of the unaligned access to buffers.
use active_bgp_measurement.Base.{ℕ, ◌+◌, ◌*◌, ◌/◌, ◌%◌, ◌^◌, ◌<◌, ◌≡◌, arith}
use active_bgp_measurement.AsPath.Wire.{Unaligned}

abbrev pub get_be32 : ℕ → ℕ → ℕ → ℕ → ℕ
get_be32 a b c d = ((a * 256 + b) * 256 + c) * 256 + d

abbrev pub put_be32 : ℕ → ℕ × ℕ × ℕ × ℕ
put_be32 v = (v / 16777216 % 256, v / 65536 % 256, v / 256 % 256, v % 256)

pub be32_lem :
    (v : ℕ) → v < 2 ^ 32 → get_be32 (put_be32 v).0 (put_be32 v).1 (put_be32 v).2 (put_be32 v).3 ≡ v
be32_lem v h = omega arith

abbrev pub get_be16 : ℕ → ℕ → ℕ
get_be16 a b = a * 256 + b

abbrev pub put_be16 : ℕ → ℕ × ℕ
put_be16 v = (v / 256 % 256, v % 256)

pub be16_lem : (v : ℕ) → v < 2 ^ 16 → get_be16 (put_be16 v).0 (put_be16 v).1 ≡ v
be16_lem v h = omega arith

abbrev pub network_order : Unaligned
network_order = record {
  get_u32 = get_be32;
  put_u32 = put_be32;
  get_u16 = get_be16;
  put_u16 = put_be16;
  get_u32-put_u32 = be32_lem;
  get_u16-put_u16 = be16_lem;
}
