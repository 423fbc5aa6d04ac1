-- ===== src/Drivers/Voltage/Fixed.antt =====
-- Fixed-point numbers of three decimals, for the runs of the conversion of src/drivers/max5419.c: they
-- meet the laws that the code relies on.
use moamoa_caterpillar_firmw.Base.{
  ℕ, zero, suc, ◌+◌, ◌-◌, ◌*◌, ◌/◌, ◌≤◌, ◌≡◌, refl, Bool, true, false, not, if◌then◌else◌, ltb, leb,
  arith,
}
use moamoa_caterpillar_firmw.Drivers.Voltage.{Float, IsFloat}

-- `above n` is n thousandths, `below n` is -(n + 1).
pub data Fixed : Type 0 where
  above : ℕ → Fixed
  below : ℕ → Fixed

abbrev pub signed : Bool → ℕ → Fixed
signed minus zero = above 0
signed true (suc n) = below n
signed false (suc n) = above (suc n)

abbrev pub size : Fixed → ℕ
size (above n) = n
size (below n) = n + 1

abbrev pub is_minus : Fixed → Bool
is_minus (above n) = false
is_minus (below n) = true

abbrev pub minus : ℕ → ℕ → Fixed
minus a b = if leb b a then above (a - b) else below (b - a - 1)

abbrev pub add : Fixed → Fixed → Fixed
add (above a) (above b) = above (a + b)
add (above a) (below b) = minus a (b + 1)
add (below a) (above b) = minus b (a + 1)
add (below a) (below b) = below (a + b + 1)

abbrev pub negate : Fixed → Fixed
negate (above zero) = above 0
negate (above (suc n)) = below n
negate (below n) = above (n + 1)

abbrev pub le : Fixed → Fixed → Bool
le (above a) (above b) = leb a b
le (above a) (below b) = false
le (below a) (above b) = true
le (below a) (below b) = leb b a

abbrev pub differ : Bool → Bool → Bool
differ true b = not b
differ false b = b

abbrev pub to_int : Fixed → ℕ
to_int (above n) = n / 1000
to_int (below n) = 0

instance abbrev pub fixed_float : Float Fixed
fixed_float = record {
  of_ratio = λ n d. above (n * 1000 / d);
  add = add;
  sub = λ x y. add x (negate y);
  mul = λ x y. signed (differ (is_minus x) (is_minus y)) (size x * size y / 1000);
  div = λ x y. signed (differ (is_minus x) (is_minus y)) (size x * 1000 / size y);
  le = le;
  lt = λ x y. not (le y x);
  is_finite = λ x. true;
  to_int = to_int;
}

le_self : (x : Fixed) → le x x ≡ true
le_self (above n) = ground arith
le_self (below n) = ground arith

le_total : (x y : Fixed) → le y x ≡ false → not (le y x) ≡ true
le_total x y h = rw h refl

lit_order : (a b : ℕ) → not (leb (b * 1000 / 1) (a * 1000 / 1)) ≡ ltb a b
lit_order a b = ground arith

half_more :
    (x : Fixed) (n : ℕ)
    → not (le (above 0) x) ≡ false
    → not (le x (above (n * 1000 / 1))) ≡ false
    → to_int (add x (above 500)) ≤ n
half_more (above m) n low high = ground arith
half_more (below m) n low high = absurd (cc)

pub fixed-IsFloat : IsFloat Fixed
fixed-IsFloat = record {
  lit_finite = λ n d h. refl;
  lit_lt = λ a b h k. lit_order a b;
  finite_number = λ x h. le_self x;
  lt_of_not_le = λ x y h k e. le_total x y e;
  sub_number_left = λ x y h k. le_self (fixed_float.sub x y);
  sub_number_right = λ x y h k. le_self (fixed_float.sub x y);
  mul_number_left = λ x y h k p. le_self (fixed_float.mul x y);
  mul_number_right = λ x y h p k. le_self (fixed_float.mul x y);
  div_number = λ x y h k p. le_self (fixed_float.div x y);
  scale_finite = refl;
  scale_positive = refl;
  round_small = λ x n h k low high. half_more x n low high;
}
