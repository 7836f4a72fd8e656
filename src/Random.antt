-- ===== src/Random.antt =====
-- Random numbers (random/posix/random_posix.c, random/zephyr/random_zephyr.c, include/gabs/random.h).
-- The source of the system is a parameter, on a state of its own.
use gabs.Base.{ℕ, ◌-◌, ◌%◌, ◌^◌, ◌<◌, ◌≡◌, ap, arith}

module _ {S : Type 0} where
  -- `gabs_random` over `random`; the remainder is a `uint32_t`
  pub random_posix : (S → ℕ × S) → S → ℕ × S
  random_posix random s = let (r, s') = random s in ((r % (2 ^ 31 - 1)) % 2 ^ 32, s')

  -- `gabs_random` over `sys_rand32_get`
  pub random_zephyr : (S → ℕ × S) → S → ℕ × S
  random_zephyr sys_rand32_get s =
      let (r, s') = sys_rand32_get s in ((r % (2 ^ 31 - 1)) % 2 ^ 32, s')

  -- On both systems `gabs_random` returns a number in [0, 2 ^ 31 - 1), whatever the source gives, and
  -- each of these numbers when the source gives it.
  pub random_range :
      (source : S → ℕ × S) (s : S)
      → ((random_posix source s).0 < 2 ^ 31 - 1)
        × ((random_zephyr source s).0 < 2 ^ 31 - 1)
        × ((source s).0 < 2 ^ 31 - 1
            → (random_posix source s ≡ source s) × (random_zephyr source s ≡ source s))
  unfolding random_posix random_zephyr
  random_range source s = (
    omega arith,
    omega arith,
    λ small.
        let e : ((source s).0 % (2 ^ 31 - 1)) % 2 ^ 32 ≡ (source s).0 = omega arith in
        (ap (λ n. (n, (source s).1)) e, ap (λ n. (n, (source s).1)) e),
  )
