-- ===== src/Dict/Expand/Power.antt =====
-- _dictNextPower returns the least power of two that is large enough.
use native.Mathlib.Nat.{pow-suc}
use jmeter_on_k8s.Prelude.{
  ℕ, zero, suc, ◌-◌, ◌*◌, ◌%◌, ◌^◌, ◌≤◌, ◌<◌, ◌≡◌, ◌⊎◌, inl, inr, refl, sym, ap, ◌∙◌, some, arith,
  leb, Bool-cases,
}
use jmeter_on_k8s.Dict.Expand.{next_power_loop, next_power}

-- `r` is `i` doubled `k` times, at least `size`, and no more often than needed.
pub record Doubled (i size r : ℕ) : Type 0 where
  pub k : ℕ
  pub power : r ≡ i * 2 ^ k
  pub enough : size ≤ r
  pub least : (r ≡ i) ⊎ (r < 2 * size)

pow_pos : (f : ℕ) → 0 < 2 ^ f
pow_pos zero = omega arith
pow_pos (suc f) = omega (arith, pow-suc 2 f, pow_pos f)

mul-pow-suc : (i f : ℕ) → i * 2 ^ suc f ≡ i * 2 * 2 ^ f
mul-pow-suc i f = omega (arith, ap (λ t. i * t) (pow-suc 2 f))

pub le-mul-pow : (i f : ℕ) → i ≤ i * 2 ^ f
le-mul-pow i f = let h = pow_pos f in grind arith

next_power_loop_lem :
    (f i size : ℕ)
    → size ≤ i * 2 ^ f
    → i * 2 ^ f ≤ 2 ^ 63
    → (r : ℕ) × (next_power_loop (suc f) i size ≡ some r) × Doubled i size r
unfolding next_power_loop
next_power_loop_lem zero i size enough bound =
    (i, ground arith, record { k = 0; power = omega arith; enough = omega arith; least = inl refl })
next_power_loop_lem (suc f) i size enough bound = elim (Bool-cases (leb size i)) [
  | inl done ↦ (
    i,
    rw (done, next_power_loop) refl,
    record { k = 0; power = omega arith; enough = ground arith; least = inl refl },
  )
  | inr more ↦
      let m = mul-pow-suc i f in
      let fits : i * 2 % 2 ^ 64 ≡ i * 2 = omega (arith, le-mul-pow (i * 2) f) in
      let next : next_power_loop (suc (suc f)) i size
          ≡ next_power_loop (suc f) (i * 2 % 2 ^ 64) size =
        rw (more, next_power_loop) refl in
      let (r, run, d) = next_power_loop_lem f (i * 2) size (omega arith) (omega arith) in
      (
        r,
        next ∙ ap (λ x. next_power_loop (suc f) x size) fits ∙ run,
        record {
          k = suc d.k;
          power = d.power ∙ sym (mul-pow-suc i d.k);
          enough = d.enough;
          least = inr (ground (arith, d.least));
        },
      )
]

-- For a size below LONG_MAX the loop ends, with the least of 4, 8, 16, ... that is at least the
-- size; from LONG_MAX on the answer is LONG_MAX, which is no power of two.
pub next_power_lem :
    (size : ℕ)
    → ((size < 2 ^ 63 - 1) × ((r : ℕ) × (next_power size ≡ some r) × Doubled 4 size r))
      ⊎ ((2 ^ 63 - 1 ≤ size) × (next_power size ≡ some (2 ^ 63 - 1)))
unfolding next_power
next_power_lem size = elim (Bool-cases (leb (2 ^ 63 - 1) size)) [
  | inl big ↦ inr (ground arith, rw big refl)
  | inr small ↦
      let h : size < 2 ^ 63 - 1 = ground arith in
      let (r, run, d) = next_power_loop_lem 61 4 size (omega arith) (omega arith) in
      inl (h, (r, rw small run, d))
]
