-- ===== src/Samples.antt =====
-- A model of the interfaces for what is not in the repository, on which the theorems' hypotheses can
-- be seen to hold: networks as an address and a prefix length, and numbers in place of floats.
mod Runs
pub mod Sites
use kubsd.Base.{
  ℕ, zero, suc, ◌+◌, ◌-◌, ◌*◌, ◌/◌, ◌^◌, ◌%◌, ◌≤◌, ◌<◌, ◌≡◌, refl, sym, ap, ◌∙◌, ◌↔◌, Bool, true,
  false, ◌&&◌, List, [], ◌∷◌, ◌++◌, Option, none, some, ltb, leb, ◌==◌, ==_iff, min, arith,
  if◌then◌else◌, &&-true,
}
use native.Mathlib.Nat.{
  mod-lt, div-add-mod, mul-mod_right, mod-eq_of_lt, lt_of_mul-lt-mul_left, mul-le-mul_left,
}
use mathlib.Core.Path.{ap₂, subst}
use kubsd.Base.Powers.{pow-pos, pow-split, pow_le}
use kubsd.Base.Str.{Str}
use kubsd.Base.Decimal.{to_string, parse_uint}
use kubsd.Extern.{Float, Ipnet, range_from}

instance pub number : Float ℕ
number = record {
  f_zero = 0;
  gt = λ a b. ltb b a;
  feq = λ a b. a == b;
  sub = λ a b. a - b;
  div = λ a b. a / b;
  fmin = min;
  add = λ a b. a + b;
  of_u64 = λ a. a;
  is_finite = λ a. true;
  parse_f64 = parse_uint (2 ^ 64);
  percent = λ a. a * 100;
  gt_irrefl = λ a. ground arith;
  gt_trans = λ a b c h k. ground arith;
  gt_feq = λ a b c h k. ground arith;
  feq_gt = λ a b c h k. ground arith;
  feq_trans = λ a b c h k. ground arith;
}

abbrev pub Cidr : Type 0
Cidr = ℕ × ℕ

abbrev pub cidr_prefix : Cidr → ℕ
cidr_prefix c = min c.1 32

abbrev pub cidr_network : Cidr → ℕ
cidr_network c = (c.0 % 2 ^ 32) - (c.0 % 2 ^ 32) % 2 ^ (32 - cidr_prefix c)

abbrev pub cidr_new : ℕ → ℕ → Option Cidr
cidr_new addr prefix = if leb prefix 32 then some (addr, prefix) else none

-- what is left of a number without its remainder
without : (x k : ℕ) → x - x % k ≡ k * (x / k)
without x k = omega (arith, div-add-mod x k)

aligned : (x k : ℕ) → (x - x % k) % k ≡ 0
aligned x k = rw (without x k) (mul-mod_right k (x / k))

below : (k q j : ℕ) → k * q < k * j → k * q + k ≤ k * j
below k q j h =
    let l : q + 1 ≤ j = omega (arith, lt_of_mul-lt-mul_left k h) in
    omega (arith, mul-le-mul_left k l)

fits : (x k j : ℕ) → x < k * j → x - x % k + k ≤ k * j
fits x k j l = rw (without x k) (below k (x / k) j (omega (arith, div-add-mod x k)))

network_of :
    (addr prefix : ℕ)
    → addr < 2 ^ 32
    → prefix ≤ 32
    → cidr_network (addr, prefix) ≡ addr - addr % 2 ^ (32 - prefix)
network_of addr prefix h k =
    let e : addr % 2 ^ 32 ≡ addr = mod-eq_of_lt h in
    let p : min prefix 32 ≡ prefix = omega arith in ap₂ (λ a l. a - a % 2 ^ (32 - l)) e p

block_fits : (x p : ℕ) → p ≤ 32 → x < 2 ^ 32 → x - x % 2 ^ (32 - p) + 2 ^ (32 - p) ≤ 2 ^ 32
block_fits x p h l =
    let e : 2 ^ 32 ≡ 2 ^ (32 - p) * 2 ^ p = pow-split p h in
    subst (λ t. x - x % 2 ^ (32 - p) + 2 ^ (32 - p) ≤ t) (sym e)
      (fits x (2 ^ (32 - p)) (2 ^ p) (subst (λ t. x < t) e l))

instance pub cidr : Ipnet Cidr
cidr = record {
  network = cidr_network;
  prefix_len = cidr_prefix;
  new = cidr_new;
  hosts = λ c. range_from (cidr_network c + 1) (2 ^ (32 - cidr_prefix c) - 2);
  net_eq = λ a b. a.0 == b.0 && a.1 == b.1;
  show = λ c. to_string c.0 ++ (b'/' ∷ to_string c.1);
  prefix_len-le = λ c. omega arith;
  network_aligned = λ c. aligned (c.0 % 2 ^ 32) (2 ^ (32 - cidr_prefix c));
  network_fits =
      λ c. block_fits (c.0 % 2 ^ 32) (cidr_prefix c) (omega arith) (mod-lt c.0 (pow-pos 32));
  new_total =
      λ addr prefix h k. ((addr, prefix), ground arith, omega arith, network_of addr prefix h k);
  hosts_range = λ c h. refl;
  net_eq_iff = λ a b. (
    λ h.
        ap₂ (λ x y. (x, y)) ((==_iff a.0 b.0).0 (&&-true (a.0 == b.0) (a.1 == b.1) h).0)
          ((==_iff a.1 b.1).0 (&&-true (a.0 == b.0) (a.1 == b.1) h).1),
    λ e. ground (arith, ap (λ (t : Cidr). t.0) e, ap (λ (t : Cidr). t.1) e),
  );
}
