-- ===== src/Upload/Store/Laws.antt =====
-- The folders of the sessions under each primitive, whatever fails.
use cache_22_server.Prelude.{
  none, some, ◌≡◌, ◌≢◌, ◌⊎◌, inl, inr, Bytes, arith, beq_refl, list_eq, nat_eq, ◌==◌, Bool-cases,
}
use cache_22_server.Prelude.Assoc.{insert, lookup-insert}
use cache_22_server.World.{World, UploadMeta, UploadDir, Result, ok, err, fault}
use cache_22_server.Upload.Store.{dir_of, set_dir, write_meta}

pub dir_of-set_dir_self : (id : Bytes) (d : UploadDir) (w : World) → dir_of id (set_dir id d w) ≡ d
dir_of-set_dir_self id d w = rw (lookup-insert id id d w.uploads, beq_refl id)

pub dir_of-set_dir_ne :
    (id j : Bytes) (d : UploadDir) (w : World) → id ≢ j → dir_of j (set_dir id d w) ≡ dir_of j w
dir_of-set_dir_ne id j d w h = elim (Bool-cases (id == j)) [
  | inl e ↦ absurd (h ((list_eq.beq_iff id j).0 e))
  | inr e ↦ rw (lookup-insert id j d w.uploads, e)
]

-- How writing meta.json may end: as it was, unreadable, or written.
abbrev pub Written : UploadMeta → UploadDir → Result (Unit {0}) → UploadDir → Type 0
Written m d r d' =
    ((r ≡ err fault) × (d' ≡ d))
    ⊎ ((r ≡ err fault) × (d' ≡ record d { meta = none }))
    ⊎ ((r ≡ ok tt) × (d' ≡ record d { meta = some m }))

pub write_meta-Written :
    (m : UploadMeta) (w : World)
    → let (r, w') = write_meta m w in Written m (dir_of m.id w) r (dir_of m.id w')
unfolding write_meta
write_meta-Written m w = ground (
  arith,
  beq_refl m.id,
  lookup-insert m.id m.id (record (dir_of m.id w) { meta = none }) w.uploads,
  lookup-insert m.id m.id (record (dir_of m.id w) { meta = some m })
      (insert m.id (record (dir_of m.id w) { meta = none }) w.uploads),
)
