-- ===== src/Config/Origins.antt =====
-- csvOr: what its list never has.
use cache_22_server.Prelude.{
  false, List, [], ◌∷◌, ◌≡◌, ◌⊎◌, inl, inr, refl, Bytes, exists_if, ◌==◌, nat_eq, list_eq, arith,
}
use cache_22_server.Config.{keep_parts, split_at, csv_or}

keep_parts_blank :
    (s : Bytes) (parts : List Bytes)
    → s ≡ []
    → exists_if (λ (o : Bytes). o == s) (keep_parts parts) ≡ false
unfolding keep_parts
keep_parts_blank s [] e = refl
keep_parts_blank s (p ∷ ps) e = ground (arith, keep_parts_blank s ps e)

pub csv_or_closed :
    (getenv : Bytes → Bytes) (key s : Bytes)
    → (getenv key ≡ []) ⊎ (s ≡ [])
    → exists_if (λ (o : Bytes). o == s) (csv_or getenv key) ≡ false
unfolding csv_or
csv_or_closed getenv key s (inl e) = ground arith
csv_or_closed getenv key s (inr e) =
    ground (arith, keep_parts_blank s (split_at b',' [] (getenv key)) e)
