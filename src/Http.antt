-- ===== src/Http.antt =====
-- What the handlers use of `net/http` and `encoding/json`: JSON documents, the request, and the
-- response writer as a value that is passed on.
use Prim.Native.String
use merkle_evidence_vault.Prelude.{
  Bool, List, Option, String, [], none, some, ℕ, ◌++◌, ◌∷◌, string_key,
}
use merkle_evidence_vault.Prelude.Int.{ℤ}
use merkle_evidence_vault.Prelude.Dict.{Dict, insert}

mutual
  pub data Json : Type 0 where
    null : Json
    bool : Bool → Json
    int : ℤ → Json
    str : String → Json
    arr : Items → Json
    obj : Fields → Json

  pub data Items : Type 0 where
    nil : Items
    cons : Json → Items → Items

  pub data Fields : Type 0 where
    end : Fields
    field : String → Json → Fields → Fields

abbrev pub items : List Json → Items
items [] = nil
items (j ∷ js) = cons j (items js)

abbrev pub fields : List (String × Json) → Fields
fields [] = end
fields ((k, j) ∷ js) = field k j (fields js)

abbrev pub object : List (String × Json) → Json
object kvs = obj (fields kvs)

-- `status` is none until the header is written; `last_code` is the code of the last call of WriteHeader,
-- `body` lists the documents written, and `text` is what is written without the JSON encoder.
pub record Response : Type 0 where
  pub headers : Dict String String
  pub status : Option ℕ
  pub last_code : Option ℕ
  pub body : List Json
  pub text : String

abbrev pub new_response : Response
new_response = record { headers = []; status = none; last_code = none; body = []; text = "" }

unfoldable pub set_header : String → String → Response → Response
set_header k v w = record w { headers = insert k v w.headers }

abbrev written : Option ℕ → ℕ → Option ℕ
written none code = some code
written (some old) code = some old

-- A second call of WriteHeader does not change the status.
unfoldable pub write_header : ℕ → Response → Response
write_header code w = record w { status = written w.status code; last_code = some code }

-- json.NewEncoder(w).Encode(j): a write before any header sends the status 200.
unfoldable pub encode : Json → Response → Response
encode j w = record w { status = written w.status 200; body = w.body ++ j ∷ [] }

-- w.Write(t): a write before any header sends the status 200.
unfoldable pub write_text : String → Response → Response
write_text t w = record w { status = written w.status 200; text = String.◌++◌ w.text t }

-- The status that the client sees: 200 if the handler wrote nothing.
abbrev pub sent_status : Response → ℕ
sent_status w = elim w.status [ none ↦ 200 | some code ↦ code ]

-- The values that the JWT middleware put into the request's context.
pub record Context : Type 0 where
  pub roles : Option (List String)
  pub subject : Option String

abbrev pub no_context : Context
no_context = record { roles = none; subject = none }

-- The body of an ingest request once decoded.
pub record IngestRequest : Type 0 where
  pub content_type : String
  pub payload : List ℕ

-- `body` is what the JSON decoder makes of the request's body, none where it returns an error.
pub record Request : Type 0 where
  pub method : String
  pub path : String
  pub authorization : String
  pub body : Option IngestRequest
  pub context : Context
