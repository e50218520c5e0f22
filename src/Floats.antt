-- ===== src/Floats.antt =====
-- `double`, as the runtime uses it: the operations of the language, with the few facts about its
-- comparisons that the proofs need. All comparisons with a NaN are false.
use coroutine_library.Prelude.{
  ℕ, ◌+◌, ◌-◌, ◌*◌, ◌/◌, ◌^◌, ◌≡◌, refl, Bool, true, false, ltb, leb, arith,
}

pub record Double : Type 1 where
  pub D : Type 0
  pub add : D → D → D
  pub sub : D → D → D
  pub mul : D → D → D
  pub div : D → D → D
  pub abs : D → D
  pub of_nat : ℕ → D
  -- The literal n / 10 ^ k, as `decimal n k`.
  pub decimal : ℕ → ℕ → D
  pub infinity : D
  pub lt : D → D → Bool
  pub le : D → D → Bool
  pub is_finite : D → Bool
  pub is_nan : D → Bool
  pub lt_irrefl : (a : D) → lt a a ≡ false
  pub lt_asymm : (a b : D) → lt a b ≡ true → lt b a ≡ false
  pub lt-number : (a b : D) → lt a b ≡ true → is_nan a ≡ false
  pub not_lt_trans :
      (a b c : D) → is_nan b ≡ false → lt a b ≡ false → lt b c ≡ false → lt a c ≡ false
  pub infinity-number : is_nan infinity ≡ false
  pub infinity_top : (a : D) → lt infinity a ≡ false

-- Fixed-point numbers in millionths, with an infinity: the facts can hold together.
pub data Fixed : Type 0 where
  fixed : ℕ → Fixed
  infinite : Fixed

unfoldable pub fixed_map : (ℕ → ℕ → ℕ) → Fixed → Fixed → Fixed
fixed_map f (fixed a) (fixed b) = fixed (f a b)
fixed_map f infinite b = infinite
fixed_map f (fixed a) infinite = infinite

unfoldable pub fixed_lt : Fixed → Fixed → Bool
fixed_lt (fixed a) (fixed b) = ltb a b
fixed_lt (fixed a) infinite = true
fixed_lt infinite b = false

unfoldable pub fixed_le : Fixed → Fixed → Bool
fixed_le (fixed a) (fixed b) = leb a b
fixed_le a infinite = true
fixed_le infinite (fixed b) = false

unfoldable pub fixed_finite : Fixed → Bool
fixed_finite (fixed a) = true
fixed_finite infinite = false

pub fixed_lt_irrefl : (a : Fixed) → fixed_lt a a ≡ false
unfolding fixed_lt
fixed_lt_irrefl (fixed a) = ground arith
fixed_lt_irrefl infinite = refl

pub fixed_lt_asymm : (a b : Fixed) → fixed_lt a b ≡ true → fixed_lt b a ≡ false
unfolding fixed_lt
fixed_lt_asymm (fixed a) (fixed b) h = ground arith
fixed_lt_asymm (fixed a) infinite h = refl
fixed_lt_asymm infinite (fixed b) h = ground arith
fixed_lt_asymm infinite infinite h = refl

pub fixed_not_lt_trans :
    (a b c : Fixed) → fixed_lt a b ≡ false → fixed_lt b c ≡ false → fixed_lt a c ≡ false
unfolding fixed_lt
fixed_not_lt_trans (fixed a) (fixed b) (fixed c) h k = ground arith
fixed_not_lt_trans (fixed a) (fixed b) infinite h k = ground arith
fixed_not_lt_trans (fixed a) infinite c h k = ground arith
fixed_not_lt_trans infinite b c h k = refl

pub fixed_top : (a : Fixed) → fixed_lt infinite a ≡ false
unfolding fixed_lt
fixed_top (fixed a) = refl
fixed_top infinite = refl

abbrev pub millionths : Double
millionths = record {
  D = Fixed;
  add = fixed_map ◌+◌;
  sub = fixed_map ◌-◌;
  mul = fixed_map (λ a b. a * b / 1_000_000);
  div = fixed_map (λ a b. a * 1_000_000 / b);
  abs = λ a. a;
  of_nat = λ n. fixed (n * 1_000_000);
  decimal = λ n k. fixed (n * 1_000_000 / 10 ^ k);
  infinity = infinite;
  lt = fixed_lt;
  le = fixed_le;
  is_finite = fixed_finite;
  is_nan = λ a. false;
  lt_irrefl = fixed_lt_irrefl;
  lt_asymm = fixed_lt_asymm;
  lt-number = λ a b h. refl;
  not_lt_trans = λ a b c n h k. fixed_not_lt_trans a b c h k;
  infinity-number = refl;
  infinity_top = fixed_top;
}
