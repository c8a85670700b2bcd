-- ===== src/Sources/Base.antt =====
-- backend/app/sources/base.py: what the sync engine sees of a connector. The methods call the API of a
-- provider, so their answers are functions that the engine is given; `fetch_doc` and the upload also
-- take the number of the call, since the answer may change from one call to the next.
use know_gate.Prelude.{ℕ, String, Bool, Option, List}

-- `ConnectorAuthError`, `ConnectorRateLimitError` and any other exception, with `str(e)`.
pub data Failure : Type 0 where
  auth rate_limit other : String → Failure

pub data Outcome (A : Type 0) : Type 0 where
  returned : A → Outcome A
  raised : Failure → Outcome A

pub record SourceDoc : Type 0 where
  pub id : String
  pub title : String
  pub mime_type : Option String
  pub size_bytes : Option ℕ
  pub is_deleted : Bool

pub record BaseSourceConnector : Type 0 where
  pub validate_credentials : Outcome (Unit {0})
  pub list_changes : Option String → Outcome (List SourceDoc × Option String)
  pub fetch_doc : ℕ → String → Outcome (String × SourceDoc)
