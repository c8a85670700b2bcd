-- ===== src/Cache/Keys.antt =====
-- backend/app/cache/keys.py, and the key of backend/app/auth/magic_link.py.
use Prim.Native.String.{◌++◌}
use text.Mathlib.TextLemmas.{append_cancel_left}
use know_gate.Prelude.{◌≡◌, String, str_eq, eq_iff, arith}

unfoldable pub session_jti_key : String → String
session_jti_key jti = "kg:session:" ++ jti

unfoldable pub oauth_state_key : String → String
oauth_state_key state = "kg:oauth:state:" ++ state

unfoldable pub magic_key : String → String
magic_key token_hash = "kg:magic:" ++ token_hash

unfoldable pub query_embed_key : String → String
query_embed_key text_hash = "kg:query:embed:" ++ text_hash

unfoldable pub query_result_key : String → String → String
query_result_key query_hash filter_hash = "kg:query:result:" ++ query_hash ++ ":" ++ filter_hash

-- `window` is the text of the number of seconds.
unfoldable pub rate_limit_user_key : String → String → String
rate_limit_user_key user_id window = "kg:rate:user:" ++ user_id ++ ":" ++ window

unfoldable pub rate_limit_ip_key : String → String → String
rate_limit_ip_key ip window = "kg:rate:ip:" ++ ip ++ ":" ++ window

pub session_jti_key_eq :
    (a b : String) → str_eq (session_jti_key a) (session_jti_key b) ≡ str_eq a b
unfolding session_jti_key
session_jti_key_eq a b = ground (
  arith,
  eq_iff a b,
  eq_iff ("kg:session:" ++ a) ("kg:session:" ++ b),
  append_cancel_left "kg:session:" a b,
)

pub magic_key_eq : (a b : String) → str_eq (magic_key a) (magic_key b) ≡ str_eq a b
unfolding magic_key
magic_key_eq a b = ground (
  arith,
  eq_iff a b,
  eq_iff ("kg:magic:" ++ a) ("kg:magic:" ++ b),
  append_cancel_left "kg:magic:" a b,
)
