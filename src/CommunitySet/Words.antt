-- ===== src/CommunitySet/Words.antt =====
-- Blocks of words. `lp_alloc` is the daemon's library, which the repository does not hold: a fresh
-- block has the size that was asked for and any contents.
use active_bgp_measurement.Base.{
  ℕ, ◌≤◌, ◌≡◌, zero, suc, ◌++◌, List, [], ◌∷◌, length, drop, drop-nil, arith, Option,
}
use active_bgp_measurement.Base.{none, some, Res, ok, fault, leb, if◌then◌else◌, append-nil}

pub record Alloc : Type 0 where
  pub fresh : ℕ → List ℕ
  pub length-fresh : (n : ℕ) → length (fresh n) ≡ n

-- A block after words were written from its start; the rest is what the block held.
unfoldable pub write_block : List ℕ → List ℕ → Res (List ℕ)
write_block words block =
    if leb (length words) (length block) then ok (words ++ drop (length words) block) else fault

-- The words of a set; the null pointer is the set with none.
abbrev pub words_of : Option (List ℕ) → List ℕ
words_of none = []
words_of (some words) = words

drop_all : (n : ℕ) (xs : List ℕ) → length xs ≤ n → drop n xs ≡ []
drop_all n [] h = drop-nil n
drop_all zero (x ∷ xs) h = absurd (omega arith)
drop_all (suc n) (x ∷ xs) h = drop_all n xs (omega arith)

-- A block that is filled holds the words alone.
pub write_block_full :
    (words block : List ℕ) → length words ≡ length block → write_block words block ≡ ok words
unfolding write_block
write_block_full words block h = ground (arith, drop_all (length words) block, append-nil words)
