-- ===== src/Hints/Utils/Jumpdest/Push.antt =====
-- The test on the bytes before a destination: where it passes, no PUSH covers the destination.
use mathlib.Core.List.{reverse-append}
use keth.Prelude.Bytes.{length-reverse}
use keth.Prelude.{
  In, ℕ, zero, suc, ◌+◌, ◌-◌, ◌≤◌, ◌<◌, min, List, [], ◌∷◌, ◌++◌, reverse, ◌≡◌, refl, ◌⊎◌, arith,
  true, false, ok, length, get_or, take, drop, ap, ◌∙◌, length-take, length-drop,
}
use native.Mathlib.Decide.{dec_lt}
use keth.Hints.Utils.Jumpdest.{advance_by, any_push, is_no_push_case, get_valid_jump_destinations}
use keth.Hints.Utils.Jumpdest.Scan.{
  Reach, here, next, first, Reach-BeginsAt, Reach-trans, advance_by-pos,
  get_valid_jump_destinations_iff,
}

-- Reading in a concatenation, a prefix, a suffix and a reversed list.
get_or-append_left :
    (xs ys : List ℕ) (i : ℕ) → i < length xs → get_or (xs ++ ys) i 0 ≡ get_or xs i 0
get_or-append_left [] ys i h = absurd (omega arith)
get_or-append_left (x ∷ xs) ys zero h = refl
get_or-append_left (x ∷ xs) ys (suc i) h = get_or-append_left xs ys i (omega arith)

get_or-append_right : (xs ys : List ℕ) (i : ℕ) → get_or (xs ++ ys) (length xs + i) 0 ≡ get_or ys i 0
get_or-append_right [] ys i = ap (λ (t : ℕ). get_or ys t 0) (omega arith)
get_or-append_right (x ∷ xs) ys i =
    let shift : suc (length xs) + i ≡ suc (length xs + i) = omega arith in
    ap (λ (t : ℕ). get_or (x ∷ (xs ++ ys)) t 0) shift ∙ get_or-append_right xs ys i

get_or-take : (n i : ℕ) (xs : List ℕ) → i < n → get_or (take n xs) i 0 ≡ get_or xs i 0
get_or-take zero i xs h = absurd (omega arith)
get_or-take (suc n) i [] h = refl
get_or-take (suc n) zero (x ∷ xs) h = refl
get_or-take (suc n) (suc i) (x ∷ xs) h = get_or-take n i xs (omega arith)

get_or-drop : (n i : ℕ) (xs : List ℕ) → get_or (drop n xs) i 0 ≡ get_or xs (n + i) 0
get_or-drop zero i xs = ap (λ (t : ℕ). get_or xs t 0) (omega arith)
get_or-drop (suc n) i [] = refl
get_or-drop (suc n) i (x ∷ xs) =
    let shift : suc (n + i) ≡ suc n + i = omega arith in
    get_or-drop n i xs ∙ ap (λ (t : ℕ). get_or (x ∷ xs) t 0) shift

-- The byte `i` places before the end, in a reversed list.
get_or-reverse :
    (xs : List ℕ) (i j : ℕ) → i + j + 1 ≡ length xs → get_or (reverse xs) i 0 ≡ get_or xs j 0
get_or-reverse [] i j h = refl
get_or-reverse (x ∷ xs) i zero h =
    let last : i ≡ length (reverse xs) + 0 = omega (arith, length-reverse xs) in
    ap (λ (l : List ℕ). get_or l i 0) (reverse-append (x ∷ []) xs)
    ∙ (ap (λ (t : ℕ). get_or (reverse xs ++ (x ∷ [])) t 0) last
        ∙ get_or-append_right (reverse xs) (x ∷ []) 0)
get_or-reverse (x ∷ xs) i (suc j) h =
    ap (λ (l : List ℕ). get_or l i 0) (reverse-append (x ∷ []) xs)
    ∙ (get_or-append_left (reverse xs) (x ∷ []) i (omega (arith, length-reverse xs))
        ∙ get_or-reverse xs i j (omega arith))

-- The byte `k` places before the destination is no PUSH that covers it.
abbrev pub DoesNotCover : List ℕ → ℕ → ℕ → Type 0
DoesNotCover code key k =
    (get_or code (key - 1 - k) 0 < 0x60 + k) ⊎ (0x7f < get_or code (key - 1 - k) 0)

any_push-false :
    (j k : ℕ) (bytes : List ℕ)
    → any_push j bytes ≡ false
    → k < length bytes
    → (get_or bytes k 0 < 0x60 + (j + k)) ⊎ (0x7f < get_or bytes k 0)
unfolding any_push
any_push-false j k [] h lt = absurd (omega arith)
any_push-false j zero (b ∷ bytes) h lt = ground arith
any_push-false j (suc k) (b ∷ bytes) h lt = ground (arith, any_push-false (j + 1) k bytes)

-- The bytes that the test walks.
abbrev last_bytes : List ℕ → ℕ → List ℕ
last_bytes code key = take (min key 32) (drop (key - min key 32) code)

no_push_inv :
    (code : List ℕ) (key : ℕ)
    → is_no_push_case code key ≡ ok true
    → (key ≤ length code) × (any_push 0 (reverse (last_bytes code key)) ≡ false)
unfolding is_no_push_case
no_push_inv code key h = ground arith

length-last_bytes :
    (code : List ℕ) (key : ℕ) → key ≤ length code → length (last_bytes code key) ≡ min key 32
length-last_bytes code key h =
    length-take (min key 32) (drop (key - min key 32) code)
    ∙ omega (arith, length-drop (key - min key 32) code)

get_or-last_bytes :
    (code : List ℕ) (key k : ℕ)
    → key ≤ length code
    → k < min key 32
    → get_or (reverse (last_bytes code key)) k 0 ≡ get_or code (key - 1 - k) 0
get_or-last_bytes code key k h lt =
    let m = min key 32 in
    let position : key - m + (m - 1 - k) ≡ key - 1 - k = omega arith in
    get_or-reverse (last_bytes code key) k (m - 1 - k) (omega (arith, length-last_bytes code key h))
    ∙ (get_or-take m (m - 1 - k) (drop (key - m) code) (omega arith)
        ∙ (get_or-drop (key - m) (m - 1 - k) code ∙ ap (λ (t : ℕ). get_or code t 0) position))

no_push-DoesNotCover :
    (code : List ℕ) (key k : ℕ)
    → is_no_push_case code key ≡ ok true
    → k < min key 32
    → DoesNotCover code key k
no_push-DoesNotCover code key k h lt =
    let (fits, none_pushes) = no_push_inv code key h in
    let bytes = reverse (last_bytes code key) in
    let clear : (get_or bytes k 0 < 0x60 + (0 + k)) ⊎ (0x7f < get_or bytes k 0) =
      any_push-false 0 k bytes none_pushes
        (omega (arith, length-reverse (last_bytes code key), length-last_bytes code key fits)) in
    ground (arith, clear, get_or-last_bytes code key k fits lt)

-- An instruction before the destination ends at or before it.
no_push_advance :
    (code : List ℕ) (key i : ℕ)
    → is_no_push_case code key ≡ ok true
    → i < key
    → i + advance_by (get_or code i 0) ≤ key
unfolding advance_by
no_push_advance code key i h lt = elim (dec_lt (key - 1 - i) 32) [
  | yes near ↦
      let place : key - 1 - (key - 1 - i) ≡ i = omega arith in
      ground (
        arith,
        no_push-DoesNotCover code key (key - 1 - i) h (omega arith),
        ap (λ (t : ℕ). get_or code t 0) place,
      )
  | no far ↦ ground arith
]

no_push_Reach :
    (code : List ℕ) (key fuel i : ℕ)
    → is_no_push_case code key ≡ ok true
    → key ≤ i + fuel
    → i ≤ key
    → Reach code i 0
    → Reach code key 0
no_push_Reach code key zero i h enough le reached = Reach-trans 0 reached (here i (omega arith))
no_push_Reach code key (suc fuel) i h enough le reached = elim (dec_lt i key) [
  | yes lt ↦
      no_push_Reach code key fuel (i + advance_by (get_or code i 0)) h
        (omega (arith, advance_by-pos (get_or code i 0))) (no_push_advance code key i h lt)
        (Reach-trans 0 reached (next i (omega (arith, (no_push_inv code key h).0)) (here _ refl)))
  | no ge ↦ Reach-trans 0 reached (here i (omega arith))
]

-- Where the test on the at most 32 bytes before a key finds no PUSH, and the key is inside the code
-- at a JUMPDEST byte, the scan of the whole code returns that key too.
pub no_push_is_valid :
    (code : List ℕ) (key : ℕ)
    → is_no_push_case code key ≡ ok true
    → key < length code
    → get_or code key 0 ≡ 0x5b
    → In key (get_valid_jump_destinations code)
no_push_is_valid code key h inside op = (get_valid_jump_destinations_iff code key).1 (
  Reach-BeginsAt code key 0 first
      (no_push_Reach code key key 0 h (omega arith) (omega arith) (here 0 refl)),
  inside,
  op,
)
