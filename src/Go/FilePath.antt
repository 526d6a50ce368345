-- ===== src/Go/FilePath.antt =====
-- Package `path/filepath` on Unix: Base, Ext, and Join with its Clean.
pub mod Laws
use mathlib.Core.List.{reverse}
use cache_22_server.Prelude.{
  ℕ, Bool, none, some, List, [], ◌∷◌, ◌++◌, ◌≡◌, refl, Bytes, codes, nat_beq, ◌==◌, list_eq, nat_eq,
  drop, if◌then◌else◌,
}
use cache_22_server.Go.Text.{drop_while, last_index}

abbrev pub slash : ℕ
slash = b'/'

abbrev pub dot : ℕ
dot = b'.'

abbrev pub is_slash : ℕ → Bool
is_slash c = nat_beq c slash

-- what follows the last slash, or the whole text
after_slash : Bytes → Bytes → Bytes
after_slash [] cur = cur
after_slash (c ∷ s) cur = after_slash s (if is_slash c then [] else cur ++ c ∷ [])

or_slash : Bytes → Bytes
or_slash [] = slash ∷ []
or_slash (c ∷ s) = c ∷ s

-- filepath.Base
unfoldable pub base : Bytes → Bytes
unfolding drop_while after_slash or_slash
base [] = dot ∷ []
base (c ∷ s) = or_slash (after_slash (reverse (drop_while is_slash (reverse (c ∷ s)))) [])

-- filepath.Ext of a name with no slash: from its last dot on
unfoldable pub ext : Bytes → Bytes
unfolding last_index
ext s = elim (last_index s dot) [ none ↦ [] | some i ↦ drop i s ]

-- A cleaned path, component by component: `Join` of texts is `clean` of all their parts.
abbrev pub FilePath : Type 0
FilePath = List Bytes

-- the parts of a text between its slashes
split_from : Bytes → Bytes → List Bytes
split_from cur [] = cur ∷ []
split_from cur (c ∷ s) =
    let cut = cur ∷ split_from [] s in
    let go_on = split_from (cur ++ c ∷ []) s in if is_slash c then cut else go_on

unfoldable pub split : Bytes → List Bytes
unfolding split_from
split s = split_from [] s

abbrev pub dot_dot : Bytes
dot_dot = dot ∷ dot ∷ []

-- `..` leaves the last directory, if there is one to leave: `stack` has the last one first.
pop : List Bytes → List Bytes
pop [] = dot_dot ∷ []
pop (d ∷ ds) = if d == dot_dot then dot_dot ∷ d ∷ ds else ds

-- one part on top of a cleaned relative path
pub enter : List Bytes → Bytes → List Bytes
unfolding pop
enter stack part =
    if part == []
    then stack
    else if part == (dot ∷ [])
    then stack
    else if part == dot_dot
    then pop stack
    else part ∷ stack

pub enter_all : List Bytes → List Bytes → List Bytes
enter_all stack [] = stack
enter_all stack (p ∷ ps) = enter_all (enter stack p) ps

-- filepath.Join of a cleaned relative directory and more texts
unfoldable pub join : FilePath → List Bytes → FilePath
unfolding split enter_all enter
join dir [] = dir
join dir (t ∷ ts) = join (reverse (enter_all (reverse dir) (split t))) ts

base_examples :
    (base (codes "a/b.iso") ≡ codes "b.iso")
    × (base (codes "a//") ≡ codes "a")
    × (base (codes "//") ≡ codes "/")
    × (ext (codes "x.tar.iso") ≡ codes ".iso")
unfolding base ext
base_examples = (refl, refl, refl, refl)

join_examples :
    (join (codes "data" ∷ []) (codes "1" ∷ codes "../2/x" ∷ [])
      ≡ codes "data" ∷ codes "2" ∷ codes "x" ∷ [])
    × (join [] (codes "../a" ∷ []) ≡ codes ".." ∷ codes "a" ∷ [])
unfolding join
join_examples = (refl, refl)
