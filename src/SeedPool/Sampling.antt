-- ===== src/SeedPool/Sampling.antt =====
-- Rejection sampling: the index is in range, and no index is favoured.
use native.Mathlib.Nat.{div-add-mod, mod-lt, mul-zero, add-mul-mod_self_left, mod-eq_of_lt}
use orbitport.Base.{
  ℕ, zero, suc, ◌+◌, ◌-◌, ◌*◌, ◌/◌, ◌%◌, ◌^◌, ◌≤◌, ◌<◌, ◌≡◌, ap, ◌∙◌, Bool, false, List, [], ◌∷◌,
  ◌++◌, Option, none, some, arith, ltb, ◌==◌, if◌then◌else◌,
}
use orbitport.SeedPool.{
  picked, failed, panics, drawing, draw_loop, crypto_rand_index, limit, max_u32,
}

draw_loop-lt :
    (un i : ℕ) (draws rest : List (Option ℕ)) → 0 < un → draw_loop un draws ≡ picked i rest → i < un
unfolding draw_loop
draw_loop-lt un i [] rest h e = cc
draw_loop-lt un i (none ∷ draws) rest h e = cc
draw_loop-lt un i (some v ∷ draws) rest h e = ground (arith, draw_loop-lt un i draws rest h)

-- An index that is returned is an index of the list of length `n`.
pub crypto_rand_index-lt :
    (n i : ℕ) (draws rest : List (Option ℕ))
    → n < 2 ^ 32
    → crypto_rand_index n draws ≡ picked i rest
    → i < n
unfolding crypto_rand_index
crypto_rand_index-lt n i draws rest h e = ground (arith, draw_loop-lt n i draws rest)

-- The words below the limit make up whole rounds of `un`.
limit-rounds : (un : ℕ) → 0 < un → limit un ≡ un * (max_u32 / un)
unfolding limit
limit-rounds un h = omega (arith, div-add-mod max_u32 un)

round-le : (un q r : ℕ) → un * q + r ≡ max_u32 → r < un → un ≤ max_u32 → un ≤ un * q
round-le un zero r e lt le = absurd (omega arith)
round-le un (suc q) r e lt le = omega arith

-- More than half of the words are accepted, so that a draw ends the loop more often than not.
pub limit_more_than_half : (un : ℕ) → 0 < un → un ≤ max_u32 → max_u32 < 2 * limit un
limit_more_than_half un h le = omega (
  arith,
  limit-rounds un h,
  round-le un (max_u32 / un) (max_u32 % un) (div-add-mod max_u32 un) (mod-lt max_u32 h) le,
  div-add-mod max_u32 un,
  mod-lt max_u32 h,
)

-- The draws are words at the limit or above, and no failure of the source.
abbrev pub AllRejected : ℕ → List (Option ℕ) → Type 0
AllRejected n [] = Unit
AllRejected n (none ∷ draws) = ⊥
AllRejected n (some v ∷ draws) = (limit n ≤ v) × AllRejected n draws

-- Whether the single word `v` makes the function return the index `i`.
pub lands : ℕ → ℕ → ℕ → Bool
lands n i v = elim (crypto_rand_index n (some v ∷ [])) [
  | picked j rest ↦ j == i
  | failed e rest ↦ false
  | panics ↦ false
  | drawing ↦ false
]

-- How many of the words below `m` give the index `i`.
pub words_to : ℕ → ℕ → ℕ → ℕ
words_to n i zero = 0
words_to n i (suc m) = (if lands n i m then 1 else 0) + words_to n i m

lands-accepted : (n i v : ℕ) → 0 < n → n < 2 ^ 32 → v < limit n → lands n i v ≡ (v % n == i)
unfolding lands crypto_rand_index
lands-accepted n i v h lt below = ground arith

lands-rejected : (n i v : ℕ) → 0 < n → n < 2 ^ 32 → limit n ≤ v → lands n i v ≡ false
unfolding lands crypto_rand_index
lands-rejected n i v h lt above = ground arith

-- `q` whole rounds and `r` words of the next one.
words_to-rounds :
    (n i q r : ℕ)
    → i < n
    → n < 2 ^ 32
    → r ≤ n
    → n * q + r ≤ limit n
    → words_to n i (n * q + r) ≡ q + (if ltb i r then 1 else 0)
unfolding words_to
words_to-rounds n i zero zero hi lt hr hl = rw (mul-zero n) (ground arith)
words_to-rounds n i (suc q) zero hi lt hr hl =
    let before : n * suc q + 0 ≡ n * q + n = omega arith in
    rw before (ground (arith, words_to-rounds n i q n hi lt (omega arith) (omega arith)))
words_to-rounds n i q (suc r) hi lt hr hl =
    let before : n * q + suc r ≡ suc (n * q + r) = omega arith in
    let turned : n * q + r ≡ r + n * q = omega arith in
    let residue : (n * q + r) % n ≡ r =
      ap (λ t. t % n) turned ∙ add-mul-mod_self_left r n q ∙ mod-eq_of_lt hr in
    let at_word : lands n i (n * q + r) ≡ (r == i) =
      lands-accepted n i (n * q + r) (omega arith) lt (omega arith) ∙ ap (λ t. t == i) residue in
    rw (before, at_word) (ground (arith, words_to-rounds n i q r hi lt (omega arith) (omega arith)))

whole : (q i : ℕ) → q + (if ltb i 0 then 1 else 0) ≡ q
whole q i = ground arith

words_to-above :
    (n i k : ℕ) → 0 < n → n < 2 ^ 32 → words_to n i (limit n + k) ≡ words_to n i (limit n)
unfolding words_to
words_to-above n i zero h lt = ap (words_to n i) (omega arith)
words_to-above n i (suc k) h lt =
    let before : limit n + suc k ≡ suc (limit n + k) = omega arith in
    rw before (ground (arith, lands-rejected n i (limit n + k) h lt, words_to-above n i k h lt))

-- Every index below `n` is the result for the same number of the 2 ^ 32 words: no modulo bias.
pub words_to-uniform : (n i : ℕ) → i < n → n < 2 ^ 32 → words_to n i (2 ^ 32) ≡ max_u32 / n
words_to-uniform n i hi lt =
    let rounds : limit n ≡ n * (max_u32 / n) = limit-rounds n (omega arith) in
    let bound : limit n ≤ max_u32 = unfold limit in omega arith in
    let all : 2 ^ 32 ≡ limit n + (2 ^ 32 - limit n) = omega arith in
    ap (words_to n i) all
    ∙ words_to-above n i (2 ^ 32 - limit n) (omega arith) lt
    ∙ ap (words_to n i) (omega (arith, rounds))
    ∙ words_to-rounds n i (max_u32 / n) 0 hi lt (omega arith) (omega arith)
    ∙ whole (max_u32 / n) i

-- A word below the limit ends the loop, whatever was rejected in front of it.
pub draw_loop-returns :
    (n v : ℕ) (rejected post : List (Option ℕ))
    → AllRejected n rejected
    → v < limit n
    → draw_loop n (rejected ++ some v ∷ post) ≡ picked (v % n) post
unfolding draw_loop
draw_loop-returns n v [] post rej h = ground arith
draw_loop-returns n v (none ∷ rejected) post rej h = absurd rej
draw_loop-returns n v (some w ∷ rejected) post rej h =
    ground (arith, draw_loop-returns n v rejected post)
