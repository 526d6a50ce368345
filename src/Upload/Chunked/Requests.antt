-- ===== src/Upload/Chunked/Requests.antt =====
-- Whole chunk requests on an upload session.
use cache_22_server.Prelude.{
  ℕ, ◌<◌, none, some, ◌≡◌, ◌⊎◌, inl, inr, subst, Bytes, arith, length, Option-cases, sym, ap, ◌∙◌,
  list_eq, nat_eq,
}
use cache_22_server.Prelude.Assoc.{lookup}
use cache_22_server.Go.Number.{parse_int}
use cache_22_server.World.{World, UploadMeta, attempt}
use cache_22_server.Upload.Store.{or_empty, dir_of, read_meta, upload_lock}
use cache_22_server.Upload.Chunked.{chunk_offset, store_chunk, locked_chunk, upload_chunk}
use cache_22_server.Upload.Chunked.Integrity.{IsSlice, Partial, Holds, store_chunk-Holds}

pub upload_lock_uploads : (id : Bytes) (w : World) → (upload_lock id w).uploads ≡ w.uploads
unfolding upload_lock
upload_lock_uploads id w = ground arith

pub read_meta_uploads : (id : Bytes) (w : World) → (read_meta id w).1.uploads ≡ w.uploads
unfolding read_meta attempt
read_meta_uploads id w = ground arith

-- A chunk request for a session without meta changes no session.
locked_chunk_unknown :
    (id : Bytes) (offset : ℕ) (body : Bytes) (w : World)
    → (dir_of id w).meta ≡ none
    → (locked_chunk id offset body w).1.uploads ≡ w.uploads
unfolding locked_chunk attempt
locked_chunk_unknown id offset body w e = ground arith

locked_chunk_known :
    (id : Bytes) (offset : ℕ) (body : Bytes) (m : UploadMeta) (w : World)
    → (dir_of id w).meta ≡ some m
    → ((locked_chunk id offset body w).1.uploads ≡ w.uploads)
      ⊎ ((locked_chunk id offset body w).1 ≡ (store_chunk m id offset body (read_meta id w).1).1)
unfolding locked_chunk attempt
locked_chunk_known id offset body m w e = ground arith

chunk_refused :
    (id text body : Bytes) (w : World)
    → chunk_offset (parse_int text) ≡ none
    → (upload_chunk id text (some body) w).1 ≡ w
unfolding upload_chunk
chunk_refused id text body w e = ground arith

-- A request with an offset is refused, or it has a body and goes on under the session's lock.
chunk_accepted :
    (id text body : Bytes) (offset : ℕ) (w : World)
    → chunk_offset (parse_int text) ≡ some offset
    → (((upload_chunk id text (some body) w).1 ≡ w)
        ⊎ ((0 < length body)
            × (upload_chunk id text (some body) w
                ≡ locked_chunk id offset body (upload_lock id w))))
unfolding upload_chunk
chunk_accepted id text body offset w e = ground arith

module _ (content : Bytes) where
  pub Holds-uploads :
      (id : Bytes) (w w' : World)
      → w'.uploads ≡ w.uploads
      → Holds content id w
      → Holds content id w'
  Holds-uploads id w w' e held =
      subst (λ u. Partial content id (or_empty (lookup id u)).meta (or_empty (lookup id u)).part)
        (sym e) held

  locked_chunk-Holds :
      (id : Bytes) (offset : ℕ) (body : Bytes) (w : World)
      → IsSlice content offset body
      → 0 < length body
      → Holds content id w
      → Holds content id (locked_chunk id offset body w).1
  locked_chunk-Holds id offset body w slice h held = elim (Option-cases (dir_of id w).meta) [
    | inl e ↦
        Holds-uploads id w (locked_chunk id offset body w).1
          (locked_chunk_unknown id offset body w e) held
    | inr (m, e) ↦
        let w1 = (read_meta id w).1 in
        let stored =
          store_chunk-Holds content id m offset body slice h w1
            (ap (λ u. (or_empty (lookup id u)).meta) (read_meta_uploads id w) ∙ e)
            (Holds-uploads id w w1 (read_meta_uploads id w) held) in
        elim (locked_chunk_known id offset body m w e) [
          | inl same ↦ Holds-uploads id w (locked_chunk id offset body w).1 same held
          | inr same ↦ rw same stored
        ]
  ]

  -- Any chunk request whose body is a slice of the content at its offset keeps the promise, whatever
  -- fails on the way.
  pub upload_chunk-Holds :
      (id text body : Bytes) (w : World)
      → ((offset : ℕ) → chunk_offset (parse_int text) ≡ some offset → IsSlice content offset body)
      → Holds content id w
      → Holds content id (upload_chunk id text (some body) w).1
  upload_chunk-Holds id text body w slice held =
      elim (Option-cases (chunk_offset (parse_int text))) [
        | inl e ↦ rw (chunk_refused id text body w e) held
        | inr (offset, e) ↦ elim (chunk_accepted id text body offset w e) [
          | inl same ↦ rw same held
          | inr (h, same) ↦ rw same (
              locked_chunk-Holds id offset body (upload_lock id w) (slice offset e) h
                (Holds-uploads id w (upload_lock id w) (upload_lock_uploads id w) held))
        ]
      ]
