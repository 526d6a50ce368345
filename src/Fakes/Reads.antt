-- ===== src/Fakes/Reads.antt =====
-- When the fakes of internal/testutil/fakes.go agree with the database, and the calls that only read.
use cache_22_server.Prelude.{
  ℕ, suc, ◌≤◌, true, false, Option, none, some, List, [], ◌∷◌, ◌≡◌, refl, ap, sym, ◌∙◌, subst,
  Bytes, length, find_if, exists_if, nat_eq, list_eq, arith, Bool-cases, inl, inr,
}
use cache_22_server.Entity.{User}
use cache_22_server.World.{World, ok, attempt}
use cache_22_server.Auth.Tables.{Ordered, has_id, has_name}
use cache_22_server.Db
use cache_22_server.Db.Schema.{WellFormed}
use cache_22_server.Db.Schema.Writes.{attempt-WellFormed}
use cache_22_server.Db.Sessions.{owner}
use cache_22_server.Fakes
use cache_22_server.Fakes.Users.{FakeUsers, or_no_rows}
use cache_22_server.Fakes.Tables.{undated_if, id_of, length-table}
use cache_22_server.Fakes.Tokens.{find_live}
use cache_22_server.Fakes.Calls.{
  Call, Given, FakeState, undated_result, call_db, call_fakes, Allowed,
}
use cache_22_server.Fakes.Maps.{Stands, Stands-same, found_by_id, found_by_name}
use cache_22_server.Fakes.Rows.{Injective, StandsFor, same-StandsFor}
use cache_22_server.Fakes.Effects.{count_effect, by_name_effect, by_id_effect, user_id_effect}

undated_found :
    (found : Option User) → undated_result (or_no_rows found) ≡ or_no_rows (undated_if found)
undated_found none = refl
undated_found (some u) = refl

-- The ids of the table are below its bound.
ids_below_from : (lo hi : ℕ) (us : List User) → Ordered lo hi us → lo ≤ hi
ids_below_from lo hi [] o = o
ids_below_from lo hi (u ∷ us) o = omega (arith, o.0, ids_below_from (suc u.id) hi us o.1)

pub ids_below :
    (lo hi id : ℕ) (us : List User) → Ordered lo hi us → hi ≤ id → exists_if (has_id id) us ≡ false
ids_below lo hi id [] o h = refl
ids_below lo hi id (u ∷ us) o h =
    ground (arith, ids_below_from (suc u.id) hi us o.1, ids_below (suc u.id) hi id us o.1 h)

pub found_user :
    (id : ℕ) (us : List User)
    → exists_if (has_id id) us ≡ true
    → (u : User) × (find_if (has_id id) us ≡ some u)
found_user id [] e = absurd (ground arith)
found_user id (u ∷ us) e = elim (Bool-cases (has_id id u)) [
  | inl h ↦ (u, rw h refl)
  | inr h ↦ let (v, k) = found_user id us (ground arith) in (v, rw h k)
]

module _ (IsToken : Bytes → Type 0) (sha256 : Bytes → Bytes)
    (injective : Injective IsToken sha256) where
  -- No call fails, the rows keep their constraints, and the fakes stand for them.
  pub record Agree (w : World) (s : FakeState) : Type 0 where
    pub calm : w.faults ≡ []
    pub rows : WellFormed w
    pub users : Stands w s.0
    pub sessions : StandsFor IsToken sha256 w s.1

  -- One call gives the same on both sides, and they agree afterwards.
  abbrev pub Step : Call → World → FakeState → Type 0
  Step c w s =
      ((call_db sha256 c w).0 ≡ (call_fakes c s).0)
      × Agree (call_db sha256 c w).1 (call_fakes c s).1

  -- a call that only reads
  read-Agree : (w : World) (s : FakeState) → Agree w s → Agree (attempt w).1 s
  unfolding attempt
  read-Agree w s a = record {
    calm = rw a.calm refl;
    rows = attempt-WellFormed w a.rows;
    users = Stands-same w (attempt w).1 s.0 refl refl a.users;
    sessions = same-StandsFor IsToken sha256 w (attempt w).1 s.1 a.sessions refl refl;
  }

  read-Step :
      (c : Call) (w v : World) (s : FakeState)
      → Agree w s
      → v ≡ (attempt w).1
      → (call_db sha256 c w).1 ≡ v
      → (call_fakes c s).1 ≡ s
      → (call_db sha256 c w).0 ≡ (call_fakes c s).0
      → Step c w s
  read-Step c w v s a e f g h = (
    h,
    subst (Agree (call_db sha256 c w).1) (sym g)
        (subst (λ u. Agree u s) (sym (f ∙ e)) (read-Agree w s a)),
  )

  pub count-Step : (w : World) (s : FakeState) → Agree w s → Step Call.count w s
  unfolding call_db call_fakes Db.Users.count Fakes.Users.count
  count-Step w (f, uids) a =
      let (given, left) = count_effect w a.calm in
      read-Step Call.count w (Db.Users.count w).1 (f, uids) a left refl refl
        (ap Given.number
          (given ∙ ap ok (sym (ap length a.users.by_id ∙ length-table id_of w.users))))

  pub by_name-Step :
      (name : Bytes) (w : World) (s : FakeState)
      → Agree w s
      → Allowed IsToken sha256 (Call.get_by_username name) w
      → Step (Call.get_by_username name) w s
  unfolding call_db call_fakes Db.Users.get_by_username Fakes.Users.get_by_username
  by_name-Step name w (f, uids) a normal =
      let (given, left) = by_name_effect name w a.calm normal in
      read-Step (Call.get_by_username name) w (Db.Users.get_by_username name w).1 (f, uids) a left
        refl refl
        (ap Given.account (
          ap undated_result given
          ∙ undated_found (find_if (has_name name) w.users)
          ∙ ap or_no_rows (sym (found_by_name w f name a.users))))

  pub by_id-Step : (id : ℕ) (w : World) (s : FakeState) → Agree w s → Step (Call.get_by_id id) w s
  unfolding call_db call_fakes Db.Users.get_by_id Fakes.Users.get_by_id
  by_id-Step id w (f, uids) a =
      let (given, left) = by_id_effect id w a.calm in
      read-Step (Call.get_by_id id) w (Db.Users.get_by_id id w).1 (f, uids) a left refl refl
        (ap Given.account (
          ap undated_result given
          ∙ undated_found (find_if (has_id id) w.users)
          ∙ ap or_no_rows (sym (found_by_id w f id a.users))))

  pub user_id-Step :
      (token : Bytes) (w : World) (s : FakeState)
      → Agree w s
      → IsToken token
      → Step (Call.user_id token) w s
  unfolding call_db call_fakes Db.Sessions.user_id Fakes.Sessions.user_id
  user_id-Step token w (f, uids) a k =
      let (given, left) = user_id_effect sha256 token w a.calm in
      let live = ap owner (find_live sha256 token w.now w.sessions a.sessions.live) in
      read-Step (Call.user_id token) w (Db.Sessions.user_id sha256 token w).1 (f, uids) a left refl
        refl (ap Given.holder (given ∙ ap ok (live ∙ sym (a.sessions.same token k))))
