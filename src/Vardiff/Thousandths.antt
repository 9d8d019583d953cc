-- ===== src/Vardiff/Thousandths.antt =====
-- Numbers of thousandths, for runs of vardiff: the roots and logarithms are left out.
use Prim.Native.Nat.{max}
use solo_dual_mode.Prelude.{ℕ, ◌+◌, ◌-◌, ◌*◌, ◌/◌, true, ltb, leb, ◌==◌}
use solo_dual_mode.Vardiff.{Double}

abbrev pub ops : Double ℕ
ops = record {
  literal = λ a b. a * 1000 / b;
  epsilon = 0;
  plus = λ a b. a + b;
  minus = λ a b. a - b;
  times = λ a b. a * b / 1000;
  over = λ a b. a * 1000 / b;
  abs = λ a. a;
  max = λ a b. max a b;
  sqrt = λ a. a;
  log2 = λ a. a;
  ceil = λ a. a;
  floor = λ a. a;
  powi2 = λ a. a;
  lt = ltb;
  le = leb;
  eq = ◌==◌;
  is_finite = λ a. true;
}
