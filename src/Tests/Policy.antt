-- ===== src/Tests/Policy.antt =====
-- Runs of the theorems on the retry policy, with numbers as natural thousandths.
use webhook_service.Prelude.{ℕ, ◌+◌, ◌-◌, ◌*◌, ◌/◌, ◌≡◌, refl, ltb, arith}
use webhook_service.Prelude.Int.{ℤ, pos, negsuc, ◌-ℤ◌, ◌<ℤ◌, ◌≤ℤ◌}
use webhook_service.Retry.Policy.{
  Floats, Laws, Policy, calculate_delay, calculate_delay-bounded, calculate_delay-above_cap,
}

abbrev thousands : ℤ → ℕ
thousands (pos n) = n * 1000
thousands (negsuc n) = 0

-- The draw is 0.9, and no power is taken.
abbrev thousandths : Floats
thousandths = record {
  F = ℕ;
  float = thousands;
  truncate = λ x. pos (x / 1000);
  tenth = 100;
  plus = λ x y. x + y;
  minus = λ x y. x - y;
  times = λ x y. x * y / 1000;
  pow = λ x y. x;
  gtb = λ x y. ltb y x;
  draw = λ tick. 900;
}

whole : (n : ℕ) → n * 1000 / 1000 ≡ n
whole n = omega arith

thousandths-Laws : Laws thousandths
thousandths-Laws = record {
  Number = λ x. Unit;
  float-Number = λ n small. tt;
  truncate-float = λ n small. ground (arith, whole n);
  truncate_mono = λ x y p q le. ground (arith, le);
  truncate-plus = λ n x small p le. ground (arith, le);
}

-- It doubles from 1000 ns on, up to 1500 ns, with a tenth of jitter.
abbrev policy : Policy thousandths
policy = record {
  initial_interval = pos 1000;
  max_interval = pos 1500;
  multiplier = 2000;
  jitter = 100;
  max_attempts = pos 5;
}

abbrev still : Policy thousandths
still = record policy { jitter = 0 }

calculate_delay-bounded_example : calculate_delay thousandths still 0 (pos 2) ≤ℤ pos 1500
unfolding ◌-ℤ◌ thousandths-Laws
calculate_delay-bounded_example =
    calculate_delay-bounded thousandths thousandths-Laws still 0 (pos 2) 1500 refl (omega arith)
      (λ under. tt) refl

calculate_delay-above_cap_example : pos 1500 <ℤ calculate_delay thousandths policy 0 (pos 2)
unfolding ◌-ℤ◌ thousandths-Laws
calculate_delay-above_cap_example =
    calculate_delay-above_cap thousandths thousandths-Laws policy 0 (pos 2) 1500 refl (omega arith)
      refl refl tt refl
