-- ===== src/Http.antt =====
-- What the handlers answer: a status and a body. The texts of writeJSON's `error` fields are kept;
-- JSON itself and the headers that carry no state are not modelled.
use Prim.Native.String.{String}
use cache_22_server.Prelude.{ℕ, Bool, Option, List, Bytes}
use cache_22_server.Entity.{User, Game, Save, Manifest, HealthCheck}
use cache_22_server.World.{Proc, Error}

pub data Body : Type 0 where
  problem : String → Body
  -- err.Error() in place of a fixed text
  raised : Error → Body
  status_ok : Body
  upload_created : Bytes → ℕ → Body
  chunk_received : ℕ → Bool → Body
  game : Game → Body
  games : List Game → Body
  user : User → Body
  users : List User → Body
  logged_in : Bytes → User → Body
  manifest : Manifest → Body
  save : Save → Body
  -- the save's row with its bytes, which HEAD leaves out
  card : Save → Option Bytes → Body
  -- http.ServeContent: the etag and the content
  content : Bytes → Bytes → Body
  health : HealthCheck → Body
  scanned : ℕ → Body
  fetched : ℕ → Body

pub record Response : Type 0 where
  pub code : ℕ
  pub body : Body

-- writeJSON(w, code, map[string]string{"error": text})
abbrev pub problem_response : ℕ → String → Response
problem_response code text = record { code = code; body = problem text }

-- writeJSON(w, code, map[string]string{"error": err.Error()})
abbrev pub raise_with : ℕ → Error → Proc Response
raise_with code e w = (record { code = code; body = Body.raised e }, w)

abbrev pub respond : ℕ → Body → Proc Response
respond code body w = (record { code = code; body = body }, w)

abbrev pub refuse : ℕ → String → Proc Response
refuse code text w = (problem_response code text, w)

-- h.internalErr
abbrev pub internal_err : Proc Response
internal_err w = (problem_response 500 "internal error", w)
