-- ===== src/Igdb/Titles.antt =====
-- CleanTitle of internal/infra/igdb/igdb.go: where its loop ends.
use mathlib.Core.List.{reverse, reverse-cons}
use cache_22_server.Prelude.{
  ℕ, zero, suc, ◌≤◌, ◌<◌, Bool, false, ◌≡◌, ◌⊎◌, inl, inr, refl, ap, ◌∙◌, none, some, [], ◌∷◌,
  Bytes, codes, arith, length, take, length-append, length-take, Option-cases, Bool-cases,
}
use cache_22_server.Go.Text.{trim_space, drop_while, is_space, has_suffix, last_index}
use cache_22_server.Igdb.{cut_title, clean_from, clean_title, open_paren}

length-drop_while : (p : ℕ → Bool) (s : Bytes) → length (drop_while p s) ≤ length s
unfolding drop_while
length-drop_while p [] = omega arith
length-drop_while p (c ∷ s) = ground (arith, length-drop_while p s)

length-reverse : (s : Bytes) → length (reverse s) ≡ length s
length-reverse [] = refl
length-reverse (c ∷ s) =
    ap length (reverse-cons c s)
    ∙ omega (arith, length-append (reverse s) (c ∷ []), length-reverse s)

length-trim_space : (s : Bytes) → length (trim_space s) ≤ length s
unfolding trim_space
length-trim_space s =
    let front = drop_while is_space s in
    omega (
      arith,
      length-reverse (drop_while is_space (reverse front)),
      length-drop_while is_space (reverse front),
      length-reverse front,
      length-drop_while is_space s,
    )

last_index-lt : (s : Bytes) (b i : ℕ) → last_index s b ≡ some i → i < length s
unfolding last_index
last_index-lt [] b i e = cc
last_index-lt (c ∷ s) b i e = elim (Option-cases (last_index s b)) [
  | inl n ↦ ground arith
  | inr (j, f) ↦ ground (arith, last_index-lt s b j f)
]

cut_title_shorter : (s t : Bytes) → cut_title s ≡ some t → length t < length s
unfolding cut_title
cut_title_shorter s t e = elim (Option-cases (last_index s open_paren)) [
  | inl n ↦ ground arith
  | inr (i, f) ↦
      ground (arith, last_index-lt s open_paren i f, length-trim_space (take i s), length-take i s)
]

cut_title_empty : (s : Bytes) → length s ≤ 0 → cut_title s ≡ none
unfolding cut_title
cut_title_empty [] h = refl
cut_title_empty (c ∷ s) h = absurd (omega arith)

clean_from_ends : (fuel : ℕ) (s : Bytes) → length s ≤ fuel → cut_title (clean_from fuel s) ≡ none
unfolding clean_from
clean_from_ends zero s h = cut_title_empty s h
clean_from_ends (suc fuel) s h = elim (Option-cases (cut_title s)) [
  | inl n ↦ ground arith
  | inr (t, e) ↦ ground (arith, clean_from_ends fuel t, cut_title_shorter s t e)
]

cut_title_stops :
    (s : Bytes)
    → cut_title s ≡ none
    → (has_suffix s (codes ")") ≡ false)
      ⊎ (last_index s open_paren ≡ none)
      ⊎ (last_index s open_paren ≡ some 0)
unfolding cut_title
cut_title_stops s e = elim (Bool-cases (has_suffix s (codes ")"))) [
  | inr open_end ↦ inl open_end
  | inl closed ↦ elim (Option-cases (last_index s open_paren)) [
    | inl n ↦ inr (inl n)
    | inr (i, f) ↦ inr (inr (ground arith))
  ]
]

-- The loop of CleanTitle ends by its own tests, for every text: what it returns does not end with a
-- closing bracket, or has no opening bracket behind its first byte.
pub clean_title_ends :
    (serial : Bytes)
    → (has_suffix (clean_title serial) (codes ")") ≡ false)
      ⊎ (last_index (clean_title serial) open_paren ≡ none)
      ⊎ (last_index (clean_title serial) open_paren ≡ some 0)
unfolding clean_title
clean_title_ends serial =
    cut_title_stops (clean_title serial)
      (clean_from_ends (length (trim_space serial)) (trim_space serial) (omega arith))
