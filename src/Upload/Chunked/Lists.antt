-- ===== src/Upload/Chunked/Lists.antt =====
-- Lists in which one member is different from all others.
use cache_22_server.Prelude.{List, [], ◌∷◌, ◌++◌, ◌⊎◌, inl, inr, All}

-- One member has Q, and all others have P.
abbrev pub OneOf : {A : Type 0} → (A → Type 0) → (A → Type 0) → List A → Type 0
OneOf P Q [] = ⊥
OneOf P Q (a ∷ l) = (Q a × All P l) ⊎ (P a × OneOf P Q l)

module _ {A : Type 0} (P : A → Type 0) where
  pub All-split :
      (before : List A) (a : A) (after : List A)
      → All P (before ++ a ∷ after)
      → P a × All P (before ++ after)
  All-split [] a after h = h
  All-split (b ∷ before) a after (p, h) = let (q, k) = All-split before a after h in (q, (p, k))

  pub All-join :
      (before : List A) (a : A) (after : List A)
      → P a
      → All P (before ++ after)
      → All P (before ++ a ∷ after)
  All-join [] a after p h = (p, h)
  All-join (b ∷ before) a after p (q, h) = (q, All-join before a after p h)

  pub All-weaken : (Q : A → Type 0) (xs : List A) → ((a : A) → P a → Q a) → All P xs → All Q xs
  All-weaken Q [] f h = tt
  All-weaken Q (x ∷ xs) f (p, h) = (f x p, All-weaken Q xs f h)

  module _ (Q : A → Type 0) where
    abbrev pub One : List A → Type 0
    One = OneOf P Q

    pub One-weaken : (R : A → Type 0) (xs : List A) → ((a : A) → P a → R a) → One xs → OneOf R Q xs
    One-weaken R [] f h = h
    One-weaken R (x ∷ xs) f (inl (q, h)) = inl (q, All-weaken R xs f h)
    One-weaken R (x ∷ xs) f (inr (p, h)) = inr (f x p, One-weaken R xs f h)

    pub One-split :
        (before : List A) (a : A) (after : List A)
        → One (before ++ a ∷ after)
        → (Q a × All P (before ++ after)) ⊎ (P a × One (before ++ after))
    One-split [] a after h = h
    One-split (b ∷ before) a after (inl (q, h)) =
        let (p, k) = All-split before a after h in inr (p, inl (q, k))
    One-split (b ∷ before) a after (inr (p, h)) = elim (One-split before a after h) [
      | inl (q, k) ↦ inl (q, (p, k))
      | inr (q, k) ↦ inr (q, inr (p, k))
    ]

    pub One-here :
        (before : List A) (a : A) (after : List A)
        → Q a
        → All P (before ++ after)
        → One (before ++ a ∷ after)
    One-here [] a after q h = inl (q, h)
    One-here (b ∷ before) a after q (p, h) = inr (p, One-here before a after q h)

    pub One-there :
        (before : List A) (a : A) (after : List A)
        → P a
        → One (before ++ after)
        → One (before ++ a ∷ after)
    One-there [] a after p h = inr (p, h)
    One-there (b ∷ before) a after p (inl (q, h)) = inl (q, All-join before a after p h)
    One-there (b ∷ before) a after p (inr (q, h)) = inr (q, One-there before a after p h)
