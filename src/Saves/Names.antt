-- ===== src/Saves/Names.antt =====
-- The order of names of internal/app/usecase/save/save.go, and what is left of a list without a part of it.
use cache_22_server.Prelude.{
  ℕ, zero, suc, ◌≤◌, Bool, true, false, not, List, [], ◌∷◌, ◌≡◌, inl, inr, refl, Bytes, length,
  take, drop, keep_if, exists_if, length-keep_if-le, ◌==◌, nat_eq, list_eq, beq_refl, arith, All,
  Bool-cases,
}
use cache_22_server.Go.Sort.{bytes_leb, insert_name, sort_names}

abbrev pub NotAfter : Bytes → Bytes → Type 0
NotAfter m n = bytes_leb m n ≡ true

bytes_leb_total : (m n : Bytes) → bytes_leb m n ≡ false → NotAfter n m
unfolding bytes_leb
bytes_leb_total [] n e = cc
bytes_leb_total (x ∷ m) [] e = refl
bytes_leb_total (x ∷ m) (y ∷ n) e = ground (arith, bytes_leb_total m n)

bytes_leb_trans : (l m n : Bytes) → NotAfter l m → NotAfter m n → NotAfter l n
unfolding bytes_leb
bytes_leb_trans [] m n e f = refl
bytes_leb_trans (x ∷ l) [] n e f = cc
bytes_leb_trans (x ∷ l) (y ∷ m) [] e f = cc
bytes_leb_trans (x ∷ l) (y ∷ m) (z ∷ n) e f = ground (arith, bytes_leb_trans l m n)

-- Each name is before all that follow it.
abbrev pub Sorted : List Bytes → Type 0
Sorted [] = Unit
Sorted (m ∷ ms) = All (NotAfter m) ms × Sorted ms

pub All-weaken {ℓ κ} :
    {A : Type ℓ} (P Q : A → Type κ) (xs : List A) → ((a : A) → P a → Q a) → All P xs → All Q xs
All-weaken P Q [] f h = tt
All-weaken P Q (x ∷ xs) f (p, h) = (f x p, All-weaken P Q xs f h)

All-insert_name :
    (P : Bytes → Type 0) (n : Bytes) (ms : List Bytes) → P n → All P ms → All P (insert_name n ms)
unfolding insert_name
All-insert_name P n [] p h = (p, tt)
All-insert_name P n (m ∷ ms) p (q, h) = elim (Bool-cases (bytes_leb n m)) [
  | inl e ↦ rw e (p, (q, h))
  | inr e ↦ rw e (q, All-insert_name P n ms p h)
]

pub All-sort_names : (P : Bytes → Type 0) (ns : List Bytes) → All P ns → All P (sort_names ns)
unfolding sort_names
All-sort_names P [] h = tt
All-sort_names P (n ∷ ns) (p, h) = All-insert_name P n (sort_names ns) p (All-sort_names P ns h)

pub All-take : (P : Bytes → Type 0) (k : ℕ) (ns : List Bytes) → All P ns → All P (take k ns)
All-take P zero ns h = tt
All-take P (suc k) [] h = tt
All-take P (suc k) (n ∷ ns) (p, h) = (p, All-take P k ns h)

pub All-keep_if_test : (p : Bytes → Bool) (ns : List Bytes) → All (λ n. p n ≡ true) (keep_if p ns)
All-keep_if_test p [] = tt
All-keep_if_test p (n ∷ ns) = elim (Bool-cases (p n)) [
  | inl e ↦ rw e (e, All-keep_if_test p ns)
  | inr e ↦ rw e (All-keep_if_test p ns)
]

All-insert_name_back :
    (P : Bytes → Type 0) (n : Bytes) (ms : List Bytes) → All P (insert_name n ms) → P n × All P ms
unfolding insert_name
All-insert_name_back P n [] = λ (p, h). (p, tt)
All-insert_name_back P n (m ∷ ms) = elim (Bool-cases (bytes_leb n m)) [
  | inl e ↦ rw e (λ h. h)
  | inr e ↦ rw e (λ (q, h). let (p, k) = All-insert_name_back P n ms h in (p, (q, k)))
]

insert_name-Sorted : (n : Bytes) (ms : List Bytes) → Sorted ms → Sorted (insert_name n ms)
unfolding insert_name
insert_name-Sorted n [] s = (tt, tt)
insert_name-Sorted n (m ∷ ms) (s, ss) = elim (Bool-cases (bytes_leb n m)) [
  | inl e ↦
      rw e ((e, All-weaken (NotAfter m) (NotAfter n) ms (λ a. bytes_leb_trans n m a e) s), (s, ss))
  | inr e ↦
      rw e (All-insert_name (NotAfter m) n ms (bytes_leb_total n m e) s, insert_name-Sorted n ms ss)
]

pub sort_names-Sorted : (ns : List Bytes) → Sorted (sort_names ns)
unfolding sort_names
sort_names-Sorted [] = tt
sort_names-Sorted (n ∷ ns) = insert_name-Sorted n (sort_names ns) (sort_names-Sorted ns)

pub All-sort_names_back : (P : Bytes → Type 0) (ns : List Bytes) → All P (sort_names ns) → All P ns
unfolding sort_names
All-sort_names_back P [] h = tt
All-sort_names_back P (n ∷ ns) h =
    let (p, k) = All-insert_name_back P n (sort_names ns) h in (p, All-sort_names_back P ns k)

length-keep_if-insert_name :
    (p : Bytes → Bool) (n : Bytes) (ms : List Bytes)
    → length (keep_if p (insert_name n ms)) ≡ length (keep_if p (n ∷ ms))
unfolding insert_name
length-keep_if-insert_name p n [] = refl
length-keep_if-insert_name p n (m ∷ ms) = ground (arith, length-keep_if-insert_name p n ms)

pub length-keep_if-sort_names :
    (p : Bytes → Bool) (ns : List Bytes)
    → length (keep_if p (sort_names ns)) ≡ length (keep_if p ns)
unfolding sort_names
length-keep_if-sort_names p [] = refl
length-keep_if-sort_names p (n ∷ ns) =
    ground (arith, length-keep_if-insert_name p n (sort_names ns), length-keep_if-sort_names p ns)

-- not one of the names
abbrev pub is_left : List Bytes → Bytes → Bool
is_left gone m = not (exists_if (λ n. n == m) gone)

length-keep_if-more :
    (n : Bytes) (gone ms : List Bytes)
    → length (keep_if (is_left (n ∷ gone)) ms) ≤ length (keep_if (is_left gone) ms)
length-keep_if-more n gone [] = omega arith
length-keep_if-more n gone (m ∷ ms) = ground (arith, length-keep_if-more n gone ms)

-- Without its first k members at most the others are left.
pub length-keep_if-take :
    (k : ℕ) (ms : List Bytes) → length (keep_if (is_left (take k ms)) ms) ≤ length (drop k ms)
length-keep_if-take zero ms = length-keep_if-le (is_left []) ms
length-keep_if-take (suc k) [] = omega arith
length-keep_if-take (suc k) (m ∷ ms) =
    ground (arith, beq_refl m, length-keep_if-more m (take k ms) ms, length-keep_if-take k ms)

-- In a sorted list the first k members come before the ones that are left without them.
abbrev pub Later : List Bytes → Bytes → Type 0
Later gone m = is_left gone m ≡ true → All (λ n. NotAfter n m) gone

Later-cons : (n m : Bytes) (gone : List Bytes) → NotAfter n m → Later gone m → Later (n ∷ gone) m
Later-cons n m gone e later h = (e, later (ground arith))

All-Later-cons :
    (n : Bytes) (gone ms : List Bytes)
    → All (NotAfter n) ms
    → All (Later gone) ms
    → All (Later (n ∷ gone)) ms
All-Later-cons n gone [] h k = tt
All-Later-cons n gone (m ∷ ms) (e, h) (later, k) =
    (Later-cons n m gone e later, All-Later-cons n gone ms h k)

All-Later-none : (ms : List Bytes) → All (Later []) ms
All-Later-none [] = tt
All-Later-none (m ∷ ms) = ((λ h. tt), All-Later-none ms)

pub All-Later-take : (k : ℕ) (ms : List Bytes) → Sorted ms → All (Later (take k ms)) ms
All-Later-take zero ms s = All-Later-none ms
All-Later-take (suc k) [] s = tt
All-Later-take (suc k) (m ∷ ms) (s, ss) = (
  (λ h. absurd (ground (arith, beq_refl m))),
  All-Later-cons m (take k ms) ms s (All-Later-take k ms ss),
)

pub All-keep_if {ℓ} :
    {A : Type 0} (P : A → Type ℓ) (p : A → Bool) (xs : List A)
    → All (λ a. p a ≡ true → P a) xs
    → All P (keep_if p xs)
All-keep_if P p [] h = tt
All-keep_if P p (x ∷ xs) (f, h) = elim (Bool-cases (p x)) [
  | inl e ↦ rw e (f e, All-keep_if P p xs h)
  | inr e ↦ rw e (All-keep_if P p xs h)
]
