-- ===== src/Tests.antt =====
-- The theorems of the small modules at concrete inputs.
use module_nats.Common.{◌+◌, ◌*◌, ◌/◌, ◌<◌, ◌≡◌, pos, some, arith}
use module_nats.Time.{Date, date_of_ns, date_of_ns_lem}

date_of_ns_lem_example :
    (d : Date) × (date_of_ns (pos 1700000000123456789) ≡ some d)
    × (d.seconds * 1000000 + d.us ≡ 1700000000123456789 / 1000)
    × (d.us < 1000000)
date_of_ns_lem_example = date_of_ns_lem 1700000000123456789 (omega arith)
