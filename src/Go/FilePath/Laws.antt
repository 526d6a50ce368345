-- ===== src/Go/FilePath/Laws.antt =====
-- Joining components that are plain, and one that climbs out of its folder.
use mathlib.Core.List.{reverse, reverse-reverse, reverse-append, reverse-cons}
use cache_22_server.Prelude.{
  List, [], ◌∷◌, ◌++◌, Bytes, ◌≡◌, ◌≢◌, refl, ap, ◌∙◌, arith, All, list_beq_iff, nat_eq, append-nil,
  append_assoc, list_eq,
}
use cache_22_server.Go.FilePath.{
  FilePath, join, slash, dot, dot_dot, split, split_from, enter, enter_all, pop,
}

abbrev pub NoSlash : Bytes → Type 0
NoSlash = All (λ c. c ≢ slash)

-- One component of a path: not empty, no slash in it, and neither `.` nor `..`.
pub record IsPlain (s : Bytes) : Type 0 where
  pub no_slash : NoSlash s
  pub not_empty : s ≢ []
  pub not_dot : s ≢ dot ∷ []
  pub not_dot_dot : s ≢ dot_dot

split_from_plain : (cur s : Bytes) → NoSlash s → split_from cur s ≡ (cur ++ s) ∷ []
unfolding split_from
split_from_plain cur [] h = rw append-nil
split_from_plain cur (c ∷ s) h =
    ground (arith, split_from_plain (cur ++ c ∷ []) s h.1, append_assoc cur (c ∷ []) s)

split_from-slash :
    (cur s rest : Bytes)
    → NoSlash s
    → split_from cur (s ++ slash ∷ rest) ≡ (cur ++ s) ∷ split_from [] rest
unfolding split_from
split_from-slash cur [] rest h = rw append-nil
split_from-slash cur (c ∷ s) rest h =
    ground (arith, split_from-slash (cur ++ c ∷ []) s rest h.1, append_assoc cur (c ∷ []) s)

enter_plain : (stack : List Bytes) (s : Bytes) → IsPlain s → enter stack s ≡ s ∷ stack
unfolding enter
enter_plain stack s h = ground (
  arith,
  h.not_empty,
  h.not_dot,
  h.not_dot_dot,
  list_beq_iff nat_eq s [],
  list_beq_iff nat_eq s (dot ∷ []),
  list_beq_iff nat_eq s dot_dot,
)

pop_plain : (stack : List Bytes) (s : Bytes) → IsPlain s → pop (s ∷ stack) ≡ stack
unfolding pop
pop_plain stack s h = ground (arith, h.not_dot_dot, list_beq_iff nat_eq s dot_dot)

reverse_cons_back : (dir : FilePath) (s : Bytes) → reverse (s ∷ reverse dir) ≡ dir ++ s ∷ []
reverse_cons_back dir s = reverse-cons s (reverse dir) ∙ ap (λ l. l ++ s ∷ []) (reverse-reverse dir)

two_back : (dir : FilePath) (a b : Bytes) → reverse (b ∷ a ∷ reverse dir) ≡ dir ++ a ∷ b ∷ []
two_back dir a b =
    reverse-cons b (a ∷ reverse dir)
    ∙ ap (λ l. l ++ b ∷ []) (reverse_cons_back dir a)
    ∙ append_assoc dir (a ∷ []) (b ∷ [])

-- A plain component goes one folder down.
pub join_plain :
    (dir : FilePath) (s : Bytes) (ts : List Bytes)
    → IsPlain s
    → join dir (s ∷ ts) ≡ join (dir ++ s ∷ []) ts
unfolding join split
join_plain dir s ts h =
    rw (split_from_plain [] s h.no_slash, enter_plain (reverse dir) s h, reverse_cons_back dir s)

join_step :
    (dir : FilePath) (t : Bytes) (ts : List Bytes)
    → join dir (t ∷ ts) ≡ join (reverse (enter_all (reverse dir) (split t))) ts
unfolding join
join_step dir t ts = refl

climb_split :
    (a b : Bytes)
    → NoSlash a
    → NoSlash b
    → split (dot_dot ++ slash ∷ (a ++ slash ∷ b)) ≡ dot_dot ∷ a ∷ b ∷ []
unfolding split
climb_split a b ha hb =
    ap (λ l. dot_dot ∷ l) (split_from-slash [] a b ha ∙ ap (λ l. a ∷ l) (split_from_plain [] b hb))

enter_up : (stack : List Bytes) (own : Bytes) → IsPlain own → enter (own ∷ stack) dot_dot ≡ stack
unfolding enter
enter_up stack own h = pop_plain stack own h

climb_enter :
    (stack : List Bytes) (own a b : Bytes)
    → IsPlain own
    → IsPlain a
    → IsPlain b
    → enter_all (own ∷ stack) (dot_dot ∷ a ∷ b ∷ []) ≡ b ∷ a ∷ stack
unfolding enter_all
climb_enter stack own a b ho ha hb =
    ap (λ l. enter (enter l a) b) (enter_up stack own ho)
    ∙ ap (λ l. enter l b) (enter_plain stack a ha)
    ∙ enter_plain (a ∷ stack) b hb

-- A text `../a/b` behind a plain component leaves that folder.
pub join_climb :
    (dir : FilePath) (own a b : Bytes) (ts : List Bytes)
    → IsPlain own
    → IsPlain a
    → IsPlain b
    → join (dir ++ own ∷ []) ((dot_dot ++ slash ∷ (a ++ slash ∷ b)) ∷ ts)
      ≡ join (dir ++ a ∷ b ∷ []) ts
join_climb dir own a b ts ho ha hb =
    join_step (dir ++ own ∷ []) (dot_dot ++ slash ∷ (a ++ slash ∷ b)) ts
    ∙ ap (λ l. join (reverse (enter_all (reverse (dir ++ own ∷ [])) l)) ts)
        (climb_split a b ha.no_slash hb.no_slash)
    ∙ ap (λ l. join (reverse (enter_all l (dot_dot ∷ a ∷ b ∷ []))) ts)
        (reverse-append dir (own ∷ []))
    ∙ ap (λ l. join (reverse l) ts) (climb_enter (reverse dir) own a b ho ha hb)
    ∙ ap (λ d. join d ts) (two_back dir a b)

pub join_nil : (dir : FilePath) → join dir [] ≡ dir
unfolding join
join_nil dir = refl
