-- ===== src/Sources/Http.antt =====
-- `httpx.Response` as the connectors of backend/app/sources read it: the status, and the JSON or the
-- bytes of the content unless it is empty.
use know_gate.Prelude.{ℕ, Option, none, some}

pub record Response (A : Type 0) : Type 0 where
  pub status_code : ℕ
  pub content : Option A

-- `resp.json() if resp.content else {}`
abbrev pub content_or : {A : Type 0} → A → Option A → A
content_or nothing none = nothing
content_or nothing (some a) = a
