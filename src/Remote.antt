-- ===== src/Remote.antt =====
-- The remote service behind internal/infra/igdb/igdb.go as the client meets it: what the client
-- sends, and what comes back, which is an input of the model.
use cache_22_server.Prelude.{ℕ, Option, List, Bytes}

-- An element of the answer of `/platforms`.
pub record Platform : Type 0 where
  pub id : ℕ
  pub name : Bytes
  pub abbreviation : Bytes

-- An element of the answer of `/games`; without cover art there is no url.
pub record Match : Type 0 where
  pub id : ℕ
  pub name : Bytes
  pub cover : Option Bytes

-- An exchange that breaks off, an answer with a status other than 200, and the bodies that decode
-- as what the client may ask for. Any other body does not decode. A token comes with the seconds
-- that it stays valid for.
pub data Reply : Type 0 where
  unreachable : Reply
  status : ℕ → Reply
  undecodable : Reply
  granted : Bytes → ℕ → Reply
  platforms : List Platform → Reply
  matches : List Match → Reply
  image : Bytes → Reply

-- The request for a token, a query with its token, path and body, and a download.
pub data Outgoing : Type 0 where
  ask_token : Outgoing
  query : Bytes → Bytes → Bytes → Outgoing
  download : Bytes → Outgoing
