-- ===== src/Go/Runes/Laws.antt =====
-- What a byte of ASCII behind a character changes for it.
use cache_22_server.Prelude.{
  ℕ, zero, suc, ◌≤◌, ◌<◌, true, [], ◌∷◌, ◌++◌, ◌≡◌, refl, Bytes, length, arith,
}
use cache_22_server.Go.Runes.{rune_tail, tail_length, follows, is_second}

-- A byte of ASCII belongs to no other character, whichever it is.
follows_blind :
    (n : ℕ) (s t : Bytes) (c d : ℕ)
    → c < 128
    → d < 128
    → follows n (s ++ c ∷ t) ≡ follows n (s ++ d ∷ t)
unfolding follows
follows_blind zero s t c d h k = refl
follows_blind (suc n) [] t c d h k = ground arith
follows_blind (suc n) (b ∷ s) t c d h k = ground (arith, follows_blind n s t c d h k)

follows_le : (n : ℕ) (s t : Bytes) (c : ℕ) → c < 128 → follows n (s ++ c ∷ t) ≡ true → n ≤ length s
unfolding follows
follows_le zero s t c h e = ground arith
follows_le (suc n) [] t c h e = ground arith
follows_le (suc n) (b ∷ s) t c h e = ground (arith, follows_le n s t c h)

is_second_blind :
    (b : ℕ) (s t : Bytes) (c d : ℕ)
    → c < 128
    → d < 128
    → is_second b (s ++ c ∷ t) ≡ is_second b (s ++ d ∷ t)
is_second_blind b [] t c d h k = ground arith
is_second_blind b (e ∷ s) t c d h k = refl

pub rune_tail_blind :
    (b : ℕ) (s t : Bytes) (c d : ℕ)
    → c < 128
    → d < 128
    → rune_tail b (s ++ c ∷ t) ≡ rune_tail b (s ++ d ∷ t)
unfolding rune_tail
rune_tail_blind b s t c d h k =
    rw (is_second_blind b s t c d h k, follows_blind (tail_length b) s t c d h k) refl

pub rune_tail_le : (b : ℕ) (s t : Bytes) (c : ℕ) → c < 128 → rune_tail b (s ++ c ∷ t) ≤ length s
unfolding rune_tail
rune_tail_le b s t c h = ground (arith, follows_le (tail_length b) s t c h)

pub rune_tail_ascii : (c : ℕ) (t : Bytes) → c < 128 → rune_tail c t ≡ 0
unfolding rune_tail
rune_tail_ascii c t h = ground arith
