-- ===== src/PageMap/Tests.antt =====
-- The theorems on page table entries at concrete entries.
use si_stultum.Base.{◌^◌, ◌%◌, ◌/◌, ◌≡◌, false, arith}
use si_stultum.PageMap.{addr_get, addr_set, flag_set}
use si_stultum.PageMap.Entry.{addr_get-addr_set, addr_get-flag_set_clear}

addr_get-addr_set_example :
    (addr_get (addr_set 0x8000000000001003 0x54321) ≡ 0x54321 % 2 ^ 40)
    × (addr_set 0x8000000000001003 0x54321 % 2 ^ 12 ≡ 0x8000000000001003 % 2 ^ 12)
    × (addr_set 0x8000000000001003 0x54321 / 2 ^ 52 ≡ 0x8000000000001003 / 2 ^ 52)
addr_get-addr_set_example = addr_get-addr_set 0x8000000000001003 0x54321 (omega arith)

addr_get-flag_set_clear_example :
    addr_get (flag_set 0x2000000003 (2 ^ 1) false) ≡ addr_get 0x2000000003 % 2 ^ 20
addr_get-flag_set_clear_example = addr_get-flag_set_clear 0x2000000003 1 (omega arith) (omega arith)
