-- ===== src/Operations/Audit/Decimal.antt =====
-- The rounds of a decimal numeral are enough (the number in `_hwm_mac` of
-- odooctl/operations/audit.py).
use Prim.Native.String.{◌++◌}
use odooctl.Prelude.{
  ℕ, zero, suc, ◌/◌, ◌%◌, ◌≤◌, ◌<◌, ◌≡◌, refl, ap, ltb, lt→ltb, Bool-cases, inl, inr, arith, false,
}
use odooctl.Operations.Audit.{decimal, decimal_in, digit}

not_small : (n : ℕ) → ltb n 10 ≡ false → 10 ≤ n
not_small n h = ground arith

-- More rounds than the number change nothing.
decimal_in-fuel : (k j n : ℕ) → n ≤ k → n ≤ j → decimal_in (suc k) n ≡ decimal_in (suc j) n
unfolding decimal_in
decimal_in-fuel zero zero n p q = refl
decimal_in-fuel zero (suc j) n p q = rw (lt→ltb n 10 (omega (arith, p))) refl
decimal_in-fuel (suc k) zero n p q = rw (lt→ltb n 10 (omega (arith, q))) refl
decimal_in-fuel (suc k) (suc j) n p q = elim (Bool-cases (ltb n 10)) [
  | inl small ↦ rw small refl
  | inr big ↦ rw big (
      ap (λ high. high ++ digit (n % 10))
        (decimal_in-fuel k j (n / 10) (omega (arith, p, not_small n big))
          (omega (arith, q, not_small n big))))
]

-- So any number of rounds above the number gives the numeral.
decimal_in-decimal : (rounds n : ℕ) → n < rounds → decimal_in rounds n ≡ decimal n
unfolding decimal
decimal_in-decimal zero n h = absurd (omega (arith, h))
decimal_in-decimal (suc k) n h = decimal_in-fuel k n n (omega (arith, h)) (omega arith)
