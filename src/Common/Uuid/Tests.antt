-- ===== src/Common/Uuid/Tests.antt =====
-- A UUID at given draws, and the theorems on it.
use uaop.Base.{◌≡◌, refl, some, true, arith}
use uaop.Base.Text.{codes, less}
use uaop.Common.Uuid.{uuid_v7}
use uaop.Common.Uuid.Layout.{read_uuid, read_uuid-uuid_v7}
use uaop.Common.Uuid.Order.{uuid_v7-less}

uuid_v7-fixed :
    uuid_v7 0x0190f3a1b2c3 0xabcd 0xffffffffffffffff ≡ codes "0190f3a1-b2c3-7bcd-bfff-ffffffffffff"
unfolding uuid_v7
uuid_v7-fixed = refl

read_uuid-uuid_v7_example :
    read_uuid (uuid_v7 0x0190f3a1b2c3 0xabcd 0xffffffffffffffff)
    ≡ some (record {
      unix_ts_ms = 0x0190f3a1b2c3;
      ver = 7;
      rand_a = 0xbcd;
      var = 2;
      rand_b = 0x3fffffffffffffff;
    })
read_uuid-uuid_v7_example = read_uuid-uuid_v7 0x0190f3a1b2c3 0xabcd 0xffffffffffffffff

uuid_v7-less_example : less (uuid_v7 255 99 99) (uuid_v7 256 0 0) ≡ true
uuid_v7-less_example = uuid_v7-less 255 256 99 99 0 0 (omega arith) (omega arith)
