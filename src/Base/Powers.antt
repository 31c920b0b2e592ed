-- ===== src/Base/Powers.antt =====
-- Powers of two and remainders by them.
use native.Mathlib.Nat.{
  pow-suc, mul-add-mod_self_left, div-add-mod, mod-lt, mod-eq_of_lt, mod-add-mod, add-mod_right,
  mul_comm, mul_assoc,
}
use Prim.Native.Nat.{ℕ, zero, suc, ◌+◌, ◌-◌, ◌*◌, ◌/◌, ◌%◌, ◌^◌, ◌≤◌, ◌<◌}
use mathlib.Core.Path.{◌≡◌, ap, sym, ◌∙◌}
use mathlib.Core.Logic.{inl, inr}
use native.Mathlib.Omega.{arith}
use kubsd.Base.Tests.{leb, leb→le, Bool-cases}

pub pow-pos : (n : ℕ) → 0 < 2 ^ n
pow-pos zero = omega arith
pow-pos (suc n) = rw pow-suc (omega (arith, pow-pos n))

pub pow-add : (a k : ℕ) → 2 ^ (a + k) ≡ 2 ^ a * 2 ^ k
pow-add a zero = let e : a + 0 ≡ a = omega arith in rw e (omega arith)
pow-add a (suc k) =
    let e : a + suc k ≡ suc (a + k) = omega arith in
    rw e (omega (arith, pow-suc 2 (a + k), ap (λ (t : ℕ). 2 ^ a * t) (pow-suc 2 k), pow-add a k))

-- the size of a network of prefix length `p`, in /24 blocks
pub size-blocks : (p : ℕ) → p ≤ 24 → 2 ^ (32 - p) ≡ 256 * 2 ^ (24 - p)
size-blocks p h =
    let e : 32 - p ≡ (24 - p) + 8 = omega arith in rw e (omega (arith, pow-add (24 - p) 8))

-- a power of two up to 2^32 divides 2^32
pub pow-split : (k : ℕ) → k ≤ 32 → 2 ^ 32 ≡ 2 ^ (32 - k) * 2 ^ k
pow-split k h =
    let e : 32 ≡ 32 - k + k = omega arith in ap (λ (t : ℕ). 2 ^ t) e ∙ pow-add (32 - k) k

pub mod-mod-mul : (x l k : ℕ) → x % (l * k) % k ≡ x % k
mod-mod-mul x l k =
    let e : x ≡ k * (l * (x / (l * k))) + x % (l * k) = omega (
      arith,
      div-add-mod x (l * k),
      mul_assoc l k (x / (l * k)),
      mul_comm l k,
      mul_assoc k l (x / (l * k)),
    ) in
    sym (ap (λ (t : ℕ). t % k) e ∙ mul-add-mod_self_left k (l * (x / (l * k))) (x % (l * k)))

-- to wrap at 32 bits before a remainder by a power of two changes nothing
pub mod-mod-pow : (x k : ℕ) → k ≤ 32 → x % 2 ^ 32 % 2 ^ k ≡ x % 2 ^ k
mod-mod-pow x k h =
    ap (λ (t : ℕ). x % t % 2 ^ k) (pow-split k h) ∙ mod-mod-mul x (2 ^ (32 - k)) (2 ^ k)

-- every residue is met: some `t` below `m` brings `h + t` to `j`
pub residue-met : (h m j : ℕ) → 0 < m → j < m → (t : ℕ) × (t < m) × ((h + t) % m ≡ j)
residue-met h m j p q =
    let r : ℕ = h % m in
    let small : r < m = mod-lt h p in
    elim (Bool-cases (leb r j)) [
      | inl e ↦
          let le = leb→le r j e in
          let whole : r + (j - r) ≡ j = omega arith in
          (
            j - r,
            omega arith,
            sym (mod-add-mod h m (j - r)) ∙ ap (λ (t : ℕ). t % m) whole ∙ mod-eq_of_lt q,
          )
      | inr e ↦
          let lt : j < r = ground arith in
          let whole : r + (j + m - r) ≡ j + m = omega arith in
          (
            j + m - r,
            omega arith,
            sym (mod-add-mod h m (j + m - r))
                ∙ ap (λ (t : ℕ). t % m) whole
                ∙ add-mod_right j m
                ∙ mod-eq_of_lt q,
          )
    ]

pow_le_add : (k d : ℕ) → 2 ^ k ≤ 2 ^ (d + k)
pow_le_add k zero = let e : 0 + k ≡ k = omega arith in rw e (omega arith)
pow_le_add k (suc d) =
    let e : suc d + k ≡ suc (d + k) = omega arith in rw (e, pow-suc) (omega (arith, pow_le_add k d))

pub pow_le : (k n : ℕ) → k ≤ n → 2 ^ k ≤ 2 ^ n
pow_le k n h = let e : n - k + k ≡ n = omega arith in rw e at (pow_le_add k (n - k))
