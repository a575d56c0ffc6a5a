-- ===== src/Prelude/Bytes.antt =====
-- Byte strings as numbers.
use Prim.Native.Nat.{ℕ, zero, suc, ◌+◌, ◌-◌, ◌*◌, ◌/◌, ◌%◌, ◌^◌, ◌<◌, ◌≤◌}
use mathlib.Core.Path.{◌≡◌, refl, ap, sym, ◌∙◌}
use mathlib.Core.List.{List, [], ◌∷◌, ◌++◌, reverse, reverse-append}
use native.Mathlib.Nat.{pow-suc, mod-one}
use native.Mathlib.Omega.{arith}
use keth.Prelude.Lists.{length, take, drop, All, length-append}
use keth.Prelude.Words.{to_le_bytes}
use keth.Prelude.Arith.{mod-mul, mod-digit, div-digit}

-- The number whose digits in base 256 are the bytes, the lowest first.
abbrev pub le_value : List ℕ → ℕ
le_value [] = 0
le_value (b ∷ bs) = b + 256 * le_value bs

pub le_value-to_le_bytes : (width n : ℕ) → le_value (to_le_bytes width n) ≡ n % 256 ^ width
unfolding to_le_bytes
le_value-to_le_bytes zero n = omega (arith, mod-one n)
le_value-to_le_bytes (suc width) n =
    let digits : 256 ^ suc width ≡ 256 * 256 ^ width = omega (arith, pow-suc 256 width) in
    omega (
      arith,
      le_value-to_le_bytes width (n / 256),
      mod-mul n 256 (256 ^ width),
      ap (λ (t : ℕ). n % t) digits,
    )

pub length-to_le_bytes : (width n : ℕ) → length (to_le_bytes width n) ≡ width
unfolding to_le_bytes
length-to_le_bytes zero n = refl
length-to_le_bytes (suc width) n = ap suc (length-to_le_bytes width (n / 256))

pub le_value-append :
    (xs ys : List ℕ) → le_value (xs ++ ys) ≡ le_value xs + 256 ^ length xs * le_value ys
le_value-append [] ys = omega arith
le_value-append (x ∷ xs) ys =
    omega (arith, le_value-append xs ys, ap (λ (t : ℕ). t * le_value ys) (pow-suc 256 (length xs)))

-- The first bytes stand for the number modulo a power of 256.
pub le_value-take :
    (n : ℕ) (xs : List ℕ) → All (λ b. b < 256) xs → le_value (take n xs) ≡ le_value xs % 256 ^ n
le_value-take zero xs h = omega (arith, mod-one (le_value xs))
le_value-take (suc n) [] h = omega arith
le_value-take (suc n) (x ∷ xs) h =
    let digits : 256 ^ suc n ≡ 256 * 256 ^ n = omega (arith, pow-suc 256 n) in
    omega (
      arith,
      le_value-take n xs h.1,
      mod-mul (x + 256 * le_value xs) 256 (256 ^ n),
      mod-digit x (le_value xs) 256 h.0,
      ap (λ (t : ℕ). 256 * (t % 256 ^ n)) (div-digit x (le_value xs) 256 h.0),
      ap (λ (t : ℕ). (x + 256 * le_value xs) % t) digits,
    )

pub pow-256 : (n : ℕ) → 2 ^ (n * 8) ≡ 256 ^ n
pow-256 zero = refl
pow-256 (suc n) =
    omega (arith, ap (λ (t : ℕ). 2 ^ t) (shift n), pow-suc 256 n, pow-256 n, pow_eight (n * 8))
  where
    shift : (n : ℕ) → suc n * 8 ≡ suc (suc (suc (suc (suc (suc (suc (suc (n * 8))))))))
    shift n = omega arith

    pow_eight : (k : ℕ) → 2 ^ suc (suc (suc (suc (suc (suc (suc (suc k))))))) ≡ 256 * 2 ^ k
    pow_eight k = omega (
      arith,
      pow-suc 2 k,
      pow-suc 2 (suc k),
      pow-suc 2 (suc (suc k)),
      pow-suc 2 (suc (suc (suc k))),
      pow-suc 2 (suc (suc (suc (suc k)))),
      pow-suc 2 (suc (suc (suc (suc (suc k))))),
      pow-suc 2 (suc (suc (suc (suc (suc (suc k)))))),
      pow-suc 2 (suc (suc (suc (suc (suc (suc (suc k))))))),
    )

pub length-reverse : (xs : List ℕ) → length (reverse xs) ≡ length xs
length-reverse [] = refl
length-reverse (x ∷ xs) =
    ap length (reverse-append (x ∷ []) xs)
    ∙ omega (arith, length-append (reverse xs) (x ∷ []), length-reverse xs)

drop_all : (n : ℕ) (xs : List ℕ) → length xs ≤ n → drop n xs ≡ []
drop_all zero [] h = refl
drop_all zero (x ∷ xs) h = absurd (omega arith)
drop_all (suc n) [] h = refl
drop_all (suc n) (x ∷ xs) h = drop_all n xs (omega arith)

drop-append : (n : ℕ) (xs ys : List ℕ) → n ≤ length xs → drop n (xs ++ ys) ≡ drop n xs ++ ys
drop-append zero xs ys h = refl
drop-append (suc n) [] ys h = absurd (omega arith)
drop-append (suc n) (x ∷ xs) ys h = drop-append n xs ys (omega arith)

-- The last bytes of the reversed string are the first ones, reversed.
pub drop-reverse :
    (n : ℕ) (xs : List ℕ) → n ≤ length xs → drop (length xs - n) (reverse xs) ≡ reverse (take n xs)
drop-reverse zero xs h = drop_all (length xs - 0) (reverse xs) (omega (arith, length-reverse xs))
drop-reverse (suc n) [] h = absurd (omega arith)
drop-reverse (suc n) (x ∷ xs) h =
    let position : suc (length xs) - suc n ≡ length xs - n = omega arith in
    ap (λ (t : ℕ). drop t (reverse (x ∷ xs))) position
    ∙ (ap (drop (length xs - n)) (reverse-append (x ∷ []) xs)
        ∙ (drop-append (length xs - n) (reverse xs) (x ∷ []) (omega (arith, length-reverse xs))
            ∙ (ap (λ (l : List ℕ). l ++ (x ∷ [])) (drop-reverse n xs (omega arith))
                ∙ sym (reverse-append (x ∷ []) (take n xs)))))
