-- ===== src/Zmalloc/Stat.antt =====
-- What an allocation and its release do to the counter of src/zmalloc.c.
use jmeter_on_k8s.Prelude.{
  ℕ, ◌+◌, ◌-◌, ◌%◌, ◌^◌, ◌≤◌, ◌<◌, ◌≡◌, refl, Bool, true, false, ◌==◌, if◌then◌else◌, arith,
  Bool-cases, inl, inr,
}
use jmeter_on_k8s.Prelude.Bits.{bit_and-le}
use jmeter_on_k8s.Zmalloc.{stat_add, stat_sub, misalignment, stat_alloc, stat_free}

-- For a 64-bit counter and a size of at most 2 ^ 64 - 8, whether the thread safety is on or off: an
-- allocation and its release give the counter back if the size is no multiple of 8; a multiple of 8
-- is taken away, modulo 2 ^ 64, without having been added.
pub stat_free-stat_alloc :
    (thread_safe : Bool) (used n : ℕ)
    → used < 2 ^ 64
    → n ≤ 2 ^ 64 - 8
    → stat_free thread_safe (stat_alloc thread_safe used n) n
      ≡ (if misalignment n == 0 then (used + (2 ^ 64 - n)) % 2 ^ 64 else used)
unfolding stat_alloc stat_free stat_add stat_sub
stat_free-stat_alloc true used n h k = elim (Bool-cases (misalignment n == 0)) [
  | inl e ↦ rw e refl
  | inr e ↦ rw e (omega (arith, bit_and-le n 7))
]
stat_free-stat_alloc false used n h k = elim (Bool-cases (misalignment n == 0)) [
  | inl e ↦ rw e refl
  | inr e ↦ rw e (omega (arith, bit_and-le n 7))
]
