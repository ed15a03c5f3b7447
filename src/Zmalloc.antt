-- ===== src/Zmalloc.antt =====
-- src/zmalloc.c: the counter of used memory, a 64-bit number. The block sizes are those that
-- zmalloc_size of the allocator reports.
pub mod Stat
pub mod Tests
use jmeter_on_k8s.Prelude.{ℕ, ◌+◌, ◌-◌, ◌%◌, ◌^◌, Bool, true, false, ◌==◌, if◌then◌else◌, bit_and}

-- update_zmalloc_stat_add, between the lock and the unlock
unfoldable pub stat_add : ℕ → ℕ → ℕ
stat_add used n = (used + n) % 2 ^ 64

-- update_zmalloc_stat_sub
unfoldable pub stat_sub : ℕ → ℕ → ℕ
stat_sub used n = (used + (2 ^ 64 - n)) % 2 ^ 64

-- _n & (sizeof(long) - 1)
abbrev pub misalignment : ℕ → ℕ
misalignment n = bit_and n 7

-- _n += sizeof(long) - (_n & (sizeof(long) - 1));
abbrev pub pad : ℕ → ℕ
pad n = (n + (8 - misalignment n)) % 2 ^ 64

-- update_zmalloc_stat_alloc, by zmalloc_thread_safe, used_memory and the size
unfoldable pub stat_alloc : Bool → ℕ → ℕ → ℕ
stat_alloc thread_safe used n =
    if misalignment n == 0
    then used
    else if thread_safe
    then stat_add used (pad n)
    else (used + pad n) % 2 ^ 64

-- update_zmalloc_stat_free
unfoldable pub stat_free : Bool → ℕ → ℕ → ℕ
stat_free thread_safe used n =
    let padded = if misalignment n == 0 then n else pad n in
    if thread_safe then stat_sub used padded else (used + (2 ^ 64 - padded)) % 2 ^ 64
