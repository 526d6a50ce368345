-- ===== src/Db/Schema/Keys.antt =====
-- Tables with a primary key under their statements.
use cache_22_server.Prelude.{
  ℕ, Bool, true, false, List, [], ◌∷◌, ◌≡◌, refl, Bytes, exists_if, keep_if, ◌==◌, nat_eq, list_eq,
  list_beq_iff, arith, if◌then◌else◌,
}
use cache_22_server.Entity.{Game, Cover, Save}
use cache_22_server.Db.Games.{put_game}
use cache_22_server.Db.Covers.{put_cover}
use cache_22_server.Db.Saves.{put_save, is_save}
use cache_22_server.Db.Schema.{Distinct, same_game, same_cover, same_card}

module _ {ℓ} {A : Type ℓ} where
  pub exists_if-keep_if :
      (q p : A → Bool) (xs : List A) → exists_if q xs ≡ false → exists_if q (keep_if p xs) ≡ false
  exists_if-keep_if q p [] e = refl
  exists_if-keep_if q p (x ∷ xs) e = ground (arith, exists_if-keep_if q p xs)

  -- Rows that go leave the keys distinct.
  pub Distinct-keep_if :
      (same : A → A → Bool) (p : A → Bool) (xs : List A)
      → Distinct same xs
      → Distinct same (keep_if p xs)
  Distinct-keep_if same p [] d = tt
  Distinct-keep_if same p (x ∷ xs) (n, d) =
      ground (arith, exists_if-keep_if (same x) p xs n, Distinct-keep_if same p xs d)

exists_if-put_game :
    (now : ℕ) (s : Bytes) (g : Game) (hs : List Game)
    → exists_if (λ (h : Game). h.serial == s) (put_game now g hs)
      ≡ (if g.serial == s then true else exists_if (λ (h : Game). h.serial == s) hs)
unfolding put_game
exists_if-put_game now s g [] = refl
exists_if-put_game now s g (h ∷ hs) =
    ground (arith, list_beq_iff nat_eq h.serial g.serial, exists_if-put_game now s g hs)

pub Distinct-put_game :
    (now : ℕ) (g : Game) (hs : List Game)
    → Distinct same_game hs
    → Distinct same_game (put_game now g hs)
unfolding put_game
Distinct-put_game now g [] d = (refl, tt)
Distinct-put_game now g (h ∷ hs) (n, d) = ground (
  arith,
  list_beq_iff nat_eq h.serial g.serial,
  list_beq_iff nat_eq g.serial h.serial,
  exists_if-put_game now h.serial g hs,
  Distinct-put_game now g hs d,
)

exists_if-put_cover :
    (now : ℕ) (s : Bytes) (c : Cover) (ds : List Cover)
    → exists_if (λ (d : Cover). d.serial == s) (put_cover now c ds)
      ≡ (if c.serial == s then true else exists_if (λ (d : Cover). d.serial == s) ds)
unfolding put_cover
exists_if-put_cover now s c [] = refl
exists_if-put_cover now s c (d ∷ ds) =
    ground (arith, list_beq_iff nat_eq d.serial c.serial, exists_if-put_cover now s c ds)

pub Distinct-put_cover :
    (now : ℕ) (c : Cover) (ds : List Cover)
    → Distinct same_cover ds
    → Distinct same_cover (put_cover now c ds)
unfolding put_cover
Distinct-put_cover now c [] d = (refl, tt)
Distinct-put_cover now c (d ∷ ds) (n, h) = ground (
  arith,
  list_beq_iff nat_eq d.serial c.serial,
  list_beq_iff nat_eq c.serial d.serial,
  exists_if-put_cover now d.serial c ds,
  Distinct-put_cover now c ds h,
)

exists_if-put_save :
    (now id slot : ℕ) (serial : Bytes) (s : Save) (ts : List Save)
    → exists_if (is_save id serial slot) (put_save now s ts)
      ≡ (if is_save id serial slot s then true else exists_if (is_save id serial slot) ts)
unfolding put_save
exists_if-put_save now id slot serial s [] = refl
exists_if-put_save now id slot serial s (t ∷ ts) =
    ground
      (arith, list_beq_iff nat_eq t.serial s.serial, exists_if-put_save now id slot serial s ts)

pub Distinct-put_save :
    (now : ℕ) (s : Save) (ts : List Save)
    → Distinct same_card ts
    → Distinct same_card (put_save now s ts)
unfolding put_save
Distinct-put_save now s [] d = (refl, tt)
Distinct-put_save now s (t ∷ ts) (n, d) = ground (
  arith,
  list_beq_iff nat_eq t.serial s.serial,
  list_beq_iff nat_eq s.serial t.serial,
  exists_if-put_save now t.user_id t.slot t.serial s ts,
  Distinct-put_save now s ts d,
)
