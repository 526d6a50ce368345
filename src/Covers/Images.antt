-- ===== src/Covers/Images.antt =====
-- imagePath of internal/app/usecase/cover/cover.go: where the image of a game is kept.
use cache_22_server.Prelude.{
  ℕ, zero, suc, ◌≤◌, ◌<◌, false, ◌∙◌, if◌then◌else◌, ◌≡◌, ◌≢◌, refl, ap, [], ◌∷◌, ◌++◌, Bytes,
  codes, arith, All-append, length, length-append,
}
use cache_22_server.Go.FilePath.{FilePath, slash, dot, dot_dot}
use cache_22_server.Go.FilePath.Laws.{IsPlain, NoSlash}
use cache_22_server.Covers.{kept_from, kept_name, image_path, is_safe}
use cache_22_server.Go.Runes.{rune_tail}
use cache_22_server.Go.Runes.Laws.{rune_tail_blind, rune_tail_le, rune_tail_ascii}

kept_from-NoSlash : (n : ℕ) (s : Bytes) → NoSlash (kept_from n s)
unfolding kept_from
kept_from-NoSlash n [] = tt
kept_from-NoSlash zero (c ∷ s) = ground (arith, kept_from-NoSlash (rune_tail c s) s)
kept_from-NoSlash (suc n) (c ∷ s) = kept_from-NoSlash n s

jpg : Bytes → Bytes
jpg s = kept_name s ++ codes ".jpg"

jpg_longer : (s t : Bytes) → length t ≤ 3 → jpg s ≢ t
unfolding jpg
jpg_longer s t h e = omega (arith, ap length e, length-append (kept_name s) (codes ".jpg"))

jpg-IsPlain : (s : Bytes) → IsPlain (jpg s)
unfolding jpg
jpg-IsPlain s = record {
  no_slash =
      All-append (λ (c : ℕ). c ≢ slash) (kept_name s) (codes ".jpg") (kept_from-NoSlash 0 s)
        (ground arith);
  not_empty = jpg_longer s [] (omega arith);
  not_dot = jpg_longer s (dot ∷ []) (omega arith);
  not_dot_dot = jpg_longer s dot_dot (omega arith);
}

-- Whatever the serial, its image is one plain file of the folder of covers.
pub image_path-IsPlain :
    (dir : FilePath) (serial : Bytes)
    → (name : Bytes) × (image_path dir serial ≡ dir ++ name ∷ []) × IsPlain name
unfolding image_path jpg
image_path-IsPlain dir serial = (jpg serial, refl, jpg-IsPlain serial)

kept_from_blind :
    (n : ℕ) (s t : Bytes) (c : ℕ)
    → c < 128
    → is_safe c ≡ false
    → n ≤ length s
    → kept_from n (s ++ c ∷ t) ≡ kept_from n (s ++ b'_' ∷ t)
unfolding kept_from
kept_from_blind zero [] t c h k le =
    rw (k, rune_tail_ascii c t h, rune_tail_ascii b'_' t (omega arith)) refl
kept_from_blind zero (b ∷ s) t c h k le =
    ap (λ bs. (if is_safe b then b else b'_') ∷ bs)
      (kept_from_blind (rune_tail b (s ++ c ∷ t)) s t c h k (rune_tail_le b s t c h)
        ∙ ap (λ n. kept_from n (s ++ b'_' ∷ t)) (rune_tail_blind b s t c b'_' h (omega arith)))
kept_from_blind (suc n) [] t c h k le = ground arith
kept_from_blind (suc n) (b ∷ s) t c h k le = kept_from_blind n s t c h k (omega arith)

-- Serials that differ in one ASCII character which imagePath replaces, where the other serial has an
-- underscore, have the same image; the rest of the serials may be any bytes, UTF-8 or not.
pub image_path_collides :
    (dir : FilePath) (s t : Bytes) (c : ℕ)
    → c < 128
    → is_safe c ≡ false
    → image_path dir (s ++ c ∷ t) ≡ image_path dir (s ++ b'_' ∷ t)
unfolding image_path
image_path_collides dir s t c h k =
    ap (λ n. dir ++ (n ++ codes ".jpg") ∷ []) (kept_from_blind 0 s t c h k (omega arith))
