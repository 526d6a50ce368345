-- ===== src/Apart.antt =====
-- Operations that leave the accounts alone: the tables of users and sessions, and the next id.
use cache_22_server.Prelude.{◌≡◌, refl, sym, ◌∙◌, subst, inl, inr, arith}
use cache_22_server.World.{
  World, Proc, Action, Error, ok, err, attempt, read_random, handle, Result-cases, ◌>>=◌,
}

abbrev pub SameAccounts : World → World → Type 0
SameAccounts w v = (v.users ≡ w.users) × (v.sessions ≡ w.sessions) × (v.next_id ≡ w.next_id)

abbrev pub Apart : {A : Type 0} → Proc A → Type 0
Apart m = (w : World) → SameAccounts w (m w).1

pub SameAccounts-trans : (u v w : World) → SameAccounts u v → SameAccounts v w → SameAccounts u w
SameAccounts-trans u v w (a, b, c) (d, e, f) = (d ∙ a, e ∙ b, f ∙ c)

pub attempt-Apart : Apart attempt
unfolding attempt
attempt-Apart w = (refl, refl, refl)

pub read_random-Apart : Apart read_random
unfolding read_random
read_random-Apart w = (refl, refl, refl)

module _ {A B : Type 0} where
  handle_error :
      (m : Action A) (failed : Error → Proc B) (done : A → Proc B) (e : Error) (w : World)
      → (m w).0 ≡ err e
      → handle m failed done w ≡ failed e (m w).1
  handle_error m failed done e w h = ground arith

  handle_value :
      (m : Action A) (failed : Error → Proc B) (done : A → Proc B) (a : A) (w : World)
      → (m w).0 ≡ ok a
      → handle m failed done w ≡ done a (m w).1
  handle_value m failed done a w h = ground arith

  -- Both ways on from a call.
  pub handle-Apart :
      (m : Action A) (failed : Error → Proc B) (done : A → Proc B)
      → Apart m
      → ((e : Error) → Apart (failed e))
      → ((a : A) → Apart (done a))
      → Apart (handle m failed done)
  handle-Apart m failed done first f d w = elim (Result-cases (m w).0) [
    | inl (e, h) ↦
        subst (λ (r : B × World). SameAccounts w r.1) (sym (handle_error m failed done e w h))
          (SameAccounts-trans w (m w).1 (failed e (m w).1).1 (first w) (f e (m w).1))
    | inr (a, h) ↦
        subst (λ (r : B × World). SameAccounts w r.1) (sym (handle_value m failed done a w h))
          (SameAccounts-trans w (m w).1 (done a (m w).1).1 (first w) (d a (m w).1))
  ]

  pub bind_error :
      (m : Action A) (f : A → Action B) (e : Error) (w : World)
      → (m w).0 ≡ err e
      → (m >>= f) w ≡ (err e, (m w).1)
  bind_error m f e w h = ground arith

  pub bind_value :
      (m : Action A) (f : A → Action B) (a : A) (w : World)
      → (m w).0 ≡ ok a
      → (m >>= f) w ≡ f a (m w).1
  bind_value m f a w h = ground arith

  pub bind-Apart :
      (m : Action A) (f : A → Action B) → Apart m → ((a : A) → Apart (f a)) → Apart (m >>= f)
  bind-Apart m f first d w = elim (Result-cases (m w).0) [
    | inl (e, h) ↦ ground (arith, bind_error m f e w h, first w)
    | inr (a, h) ↦ ground (arith, bind_value m f a w h, first w, d a (m w).1)
  ]
