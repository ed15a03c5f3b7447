-- ===== src/Zmalloc/Tests.antt =====
-- The theorem on src/zmalloc.c at one size.
use jmeter_on_k8s.Prelude.{◌+◌, ◌-◌, ◌%◌, ◌^◌, ◌≡◌, true, ◌==◌, if◌then◌else◌, arith}
use jmeter_on_k8s.Zmalloc.{misalignment, stat_alloc, stat_free}
use jmeter_on_k8s.Zmalloc.Stat.{stat_free-stat_alloc}

stat_free-stat_alloc_example :
    stat_free true (stat_alloc true 100 21) 21
    ≡ (if misalignment 21 == 0 then (100 + (2 ^ 64 - 21)) % 2 ^ 64 else 100)
stat_free-stat_alloc_example = stat_free-stat_alloc true 100 21 (omega arith) (omega arith)
