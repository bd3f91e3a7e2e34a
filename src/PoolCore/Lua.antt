-- ===== src/PoolCore/Lua.antt =====
-- The numbers of the Lua scripts in crates/pool-core/src/store.rs, which are doubles. A script that hands a
-- whole number to a command writes its digits; from 10 ^ 17 on, how it is written is up to the server.
use cr_faucet.Common.{
  ℕ, zero, suc, ◌+◌, ◌-◌, ◌*◌, ◌/◌, ◌%◌, ◌^◌, ◌<◌, ◌≡◌, ◌==◌, ltb, if◌then◌else◌, arith, refl,
}
use cr_faucet.Common.Int.{ℤ, pos, negsuc, pos_part, neg_part}

-- The distance of the doubles around n: it doubles with every bit beyond the 53 of the mantissa.
unfoldable pub spacing : ℕ → ℕ → ℕ
spacing zero n = 1
spacing (suc bits) n = let rest = spacing bits (n / 2) in if ltb n (2 ^ 53) then 1 else 2 * rest

-- The nearest multiple of q; of two that are as near, the even one.
unfoldable pub round_to : ℕ → ℕ → ℕ
round_to q n =
    let base = n - n % q in
    if ltb (2 * (n % q)) q
    then base
    else if ltb q (2 * (n % q))
    then base + q
    else if base / q % 2 == 0
    then base
    else base + q

-- 12 halvings take a number of 64 bits below 2 ^ 53.
unfoldable pub double_of : ℕ → ℕ
unfolding spacing round_to
double_of n = round_to (spacing 12 n) n

-- `tonumber` of the text of an integer.
unfoldable pub tonumber : ℤ → ℤ
unfolding double_of
tonumber (pos n) = pos (double_of n)
tonumber (negsuc n) = negsuc (double_of (n + 1) - 1)

-- Below 2 ^ 53 a double holds every integer.
abbrev pub IsExact : ℤ → Type 0
IsExact z = (pos_part z < 2 ^ 53) × (neg_part z < 2 ^ 53)

double_of_exact : (n : ℕ) → n < 2 ^ 53 → double_of n ≡ n
unfolding double_of spacing round_to
double_of_exact n h = ground arith

pub tonumber_exact : (z : ℤ) → IsExact z → tonumber z ≡ z
unfolding tonumber
tonumber_exact (pos n) h = rw (double_of_exact n h.0) refl
tonumber_exact (negsuc n) h = rw (double_of_exact (n + 1) (omega (arith, h.1))) (ground arith)
