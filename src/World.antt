-- ===== src/World.antt =====
-- The state that the server works on: the tables of the database (internal/infra/db/db.go), the
-- files on disk, the sessions of chunked uploads, the clock, the random source, and a schedule of
-- faults. Each call of the operating system or the database takes the next entry of the schedule,
-- and fails if that is `true`; past its end nothing fails. `torn` is how many bytes a failing write
-- gets through. `token` and `expiry` are those of the client of internal/infra/igdb, `replies` what
-- the remote service answers next, and `requests` what was sent to it, the last one first.
use cache_22_server.Prelude.{
  ℕ, Bool, true, false, Option, none, some, List, [], ◌∷◌, Bytes, if◌then◌else◌, ◌≡◌, ◌⊎◌, inl, inr,
  refl,
}
use cache_22_server.Prelude.Assoc.{Assoc}
use cache_22_server.Go.FilePath.{FilePath}
use cache_22_server.Entity.{User, Game, Cover, Save}
use cache_22_server.Remote.{Reply, Outgoing}

-- The errors that the program tells apart; `fault` is any other.
pub data Error : Type 0 where
  no_rows not_exist fault constraint : Error
  bad_status bad_json no_platform : Error
  setup_done bad_setup_token bad_credentials weak_password bad_username : Error
  password_too_long covers_disabled no_match no_cover_art empty_cover : Error

pub data Result {ℓ} (A : Type ℓ) : Type ℓ where
  ok : A → Result A
  err : Error → Result A

-- A row of the table `sessions`.
pub record SessionRow : Type 0 where
  pub token_hash : Bytes
  pub user_id : ℕ
  pub expires_at : ℕ

-- `uploadMeta`, the contents of meta.json; times in seconds.
pub record UploadMeta : Type 0 where
  pub id : Bytes
  pub serial : Bytes
  pub filename : Bytes
  pub size : ℕ
  pub title : Bytes
  pub ranges : List (ℕ × ℕ)
  pub created : ℕ

-- The directory of one upload: meta.json, absent while it is unreadable, and data.part.
pub record UploadDir : Type 0 where
  pub meta : Option UploadMeta
  pub part : Option Bytes

pub record World : Type 0 where
  pub faults : List Bool
  pub torn : ℕ
  pub now : ℕ
  pub randoms : List Bytes
  pub users : List User
  pub next_id : ℕ
  pub sessions : List SessionRow
  pub games : List Game
  pub covers : List Cover
  pub saves : List Save
  pub files : Assoc FilePath Bytes
  pub uploads : Assoc Bytes UploadDir
  pub upload_locks : List Bytes
  pub token : Bytes
  pub expiry : ℕ
  pub replies : List Reply
  pub requests : List Outgoing

-- A call without an error result, and one with.
abbrev pub Proc : Type 0 → Type 0
Proc A = World → A × World

abbrev pub Action : Type 0 → Type 0
Action A = World → Result A × World

module _ {A : Type 0} where
  abbrev pub pure : A → Action A
  pure a w = (ok a, w)

  abbrev pub fail : Error → Action A
  fail e w = (err e, w)

  abbrev pub or_fail : Option A → Error → Action A
  or_fail none e = fail e
  or_fail (some a) e = pure a

  abbrev pub gets : (World → A) → Action A
  gets f w = (ok (f w), w)

abbrev pub modify : (World → World) → Action (Unit {0})
modify f w = (ok tt, f w)

-- `if err != nil { return err }` after each step
infixl 5 ◌>>=◌ ◌>>◌
abbrev pub ◌>>=◌ : {A B : Type 0} → Action A → (A → Action B) → Action B
◌>>=◌ m f w = let (r, w') = m w in elim r [ ok a ↦ f a w' | err e ↦ (err e, w') ]

abbrev pub ◌>>◌ : {A B : Type 0} → Action A → Action B → Action B
m >> k = m >>= λ _. k

abbrev pub fail_if : Bool → Error → Action (Unit {0})
fail_if true e = fail e
fail_if false e = pure tt

-- The two ways on from a call: with its error, or with its value.
abbrev pub handle : {A B : Type 0} → Action A → (Error → Proc B) → (A → Proc B) → Proc B
handle m failed done w = let (r, w') = m w in elim r [ ok a ↦ done a w' | err e ↦ failed e w' ]

-- A call whose error the program drops.
abbrev pub ignore : {A : Type 0} → Action A → Action (Unit {0})
ignore m w = (ok tt, (m w).1)

abbrev pub next_fault : List Bool → Bool
next_fault [] = false
next_fault (b ∷ bs) = b

abbrev pub later_faults : List Bool → List Bool
later_faults [] = []
later_faults (b ∷ bs) = bs

-- The chance of any system call to fail.
unfoldable pub attempt : Action (Unit {0})
attempt w =
    (if next_fault w.faults then err fault else ok tt, record w { faults = later_faults w.faults })

abbrev pub random_result : List Bytes → Result Bytes
random_result [] = err fault
random_result (r ∷ rs) = ok r

abbrev pub later_randoms : List Bytes → List Bytes
later_randoms [] = []
later_randoms (r ∷ rs) = rs

-- `rand.Read`, printed in hex; it fails when the source is dry.
unfoldable pub read_random : Action Bytes
read_random w = (random_result w.randoms, record w { randoms = later_randoms w.randoms })

-- The world in which no further call fails.
abbrev pub quiet : World → World
quiet w = record w { faults = [] }

-- The world at the start: no row, no file.
abbrev pub empty_world : World
empty_world = record {
  faults = [];
  torn = 0;
  now = 0;
  randoms = [];
  users = [];
  next_id = 1;
  sessions = [];
  games = [];
  covers = [];
  saves = [];
  files = [];
  uploads = [];
  upload_locks = [];
  token = [];
  expiry = 0;
  replies = [];
  requests = [];
}

pub Result-cases {ℓ} :
    {A : Type ℓ} (r : Result A) → ((e : Error) × (r ≡ err e)) ⊎ ((a : A) × (r ≡ ok a))
Result-cases (ok a) = inr (a, refl)
Result-cases (err e) = inl (e, refl)
