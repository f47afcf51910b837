-- ===== src/Gates/Tokens.antt =====
-- The counting of saffron/gates/core/size.py: the shared ends of two token streams, and the
-- bit-parallel length of their longest common subsequence.
pub mod Longest
pub mod Row
pub mod Masks
pub mod Lcs
pub mod Trim
use Prim.Native.Nat.{bit_and, bit_or, min}
use mathlib.Core.List.{reverse}
use saffron.Prelude.{
  ℕ, zero, suc, ◌+◌, ◌-◌, ◌*◌, ◌/◌, ◌%◌, ◌^◌, Bool, true, false, not, ◌&&◌, List, [], ◌∷◌, ◌++◌,
  Text, codes, same, elem, filter, length, take, drop, ltb, ◌==◌, if◌then◌else◌,
}

-- A loop of `_trim_shared_ends`: how many tokens at the start agree, `limit` at most.
unfoldable pub shared : ℕ → List Text → List Text → ℕ
shared zero old new = 0
shared (suc limit) [] new = 0
shared (suc limit) (x ∷ old) [] = 0
shared (suc limit) (x ∷ old) (y ∷ new) =
    let more = shared limit old new in if same x y then suc more else 0

-- `tokens[start : stop]`
abbrev pub slice : ℕ → ℕ → List Text → List Text
slice start stop tokens = take (stop - start) (drop start tokens)

unfoldable pub trim_shared_ends : List Text → List Text → List Text × List Text
unfolding shared
trim_shared_ends old new =
    let limit = min (length old) (length new) in
    let start = shared limit old new in
    let end_ = shared (limit - start) (reverse old) (reverse new) in
    (slice start (length old - end_) old, slice start (length new - end_) new)

-- `masks.get(token, 0)`, for the masks of the tokens of `a` that `b` holds too.
abbrev pub Masks : Type 0
Masks = Text → ℕ

unfoldable pub set_mask : Masks → Text → ℕ → Masks
set_mask masks token mask other = if same token other then mask else masks other

-- `for index, token in enumerate(a): if token in shared: …`
unfoldable pub build_masks : List Text → ℕ → List Text → Masks → Masks
unfolding set_mask
build_masks b index [] masks = masks
build_masks b index (token ∷ a) masks =
    build_masks b (index + 1) a
      (if elem token b then set_mask masks token (bit_or (masks token) (2 ^ index)) else masks)

abbrev pub no_masks : Masks
no_masks token = 0

-- `for token in b: …`
unfoldable pub run_tokens : Masks → List Text → ℕ → ℕ
run_tokens masks [] vector = vector
run_tokens masks (token ∷ b) vector =
    let matched = bit_and vector (masks token) in
    run_tokens masks b (bit_or (vector + matched) (vector - matched))

-- `bin(n).count("1")`
count_ones : ℕ → ℕ → ℕ
count_ones zero n = 0
count_ones (suc fuel) n = n % 2 + count_ones fuel (n / 2)

unfoldable pub ones : ℕ → ℕ
unfolding count_ones
ones n = count_ones n n

-- `_lcs_length` for an `a` that is not longer than `b`
unfoldable pub lcs_of_shorter : List Text → List Text → ℕ
unfolding build_masks run_tokens ones
lcs_of_shorter [] b = 0
lcs_of_shorter (token ∷ a) b =
    let width = length (token ∷ a) in
    let all_ones = 2 ^ width - 1 in
    let masks = build_masks b 0 (token ∷ a) no_masks in
    width - ones (bit_and (run_tokens masks b all_ones) all_ones)

unfoldable pub lcs_length : List Text → List Text → ℕ
unfolding lcs_of_shorter
lcs_length a b = if ltb (length b) (length a) then lcs_of_shorter b a else lcs_of_shorter a b

-- `_TOKENS_PER_LINE` and `_TOKEN_DIFF_BOUND`
abbrev pub tokens_per_line : ℕ
tokens_per_line = 4

abbrev pub token_diff_bound : ℕ
token_diff_bound = 10 ^ 9

-- The count of one file in `_token_counts`, and whether it is an estimate, for trimmed streams.
unfoldable pub count_trimmed : List Text → List Text → ℕ → ℕ × Bool
count_trimmed old new physical =
    if ltb token_diff_bound (length old * length new)
    then (physical * tokens_per_line, true)
    else (length old + length new - 2 * lcs_length old new, false)

unfoldable pub token_count : List Text → List Text → ℕ → ℕ × Bool
token_count old new physical =
    let (trimmed_old, trimmed_new) = trim_shared_ends old new in
    count_trimmed trimmed_old trimmed_new physical
