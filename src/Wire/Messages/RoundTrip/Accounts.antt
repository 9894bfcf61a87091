-- ===== src/Wire/Messages/RoundTrip/Accounts.antt =====
-- The messages of login and registration, encoded and decoded.
use arena_game.Prelude.{
  ◌^◌, ◌≤◌, ◌<◌, ◌≡◌, refl, Bool, true, false, some, [], ◌∷◌, ◌++◌, length, arith, if◌then◌else◌,
}
use arena_game.Wire.Protocol.{max_string_bytes}
use arena_game.Wire.Stream.Layout.{le_bytes, string_bytes, writes, lengths}
use arena_game.Wire.Stream.Reads.{
  reading, bind-ReadsAll, last-ReadsAll, u8-Reads, u32-Reads, string-Reads, end-ReadsAll,
}
use arena_game.Wire.Messages.{
  LoginRequest, RegisterRequest, LoginResponse, RegisterResponse, empty_login_response,
  empty_register_response,
}
use arena_game.Wire.Messages.Accounts.{
  encode_login_request, decode_login_request, encode_login_response, decode_login_response,
  encode_register_request, decode_register_request, encode_register_response,
  decode_register_response,
}
use arena_game.Wire.Messages.RoundTrip.{sent, sent_as, sent_lem, refusal-ReadsAll}

pub record IsShortLogin (r : LoginRequest) : Type 0 where
  pub user_name_fits : length r.user_name ≤ max_string_bytes
  pub password_fits : length r.password ≤ max_string_bytes

-- A login request with strings of at most 1024 bytes is received as it was sent.
pub login_request-sent :
    (r : LoginRequest) → IsShortLogin r → sent encode_login_request decode_login_request r ≡ some r
unfolding encode_login_request decode_login_request
login_request-sent r h =
    let (n, p) : (length r.user_name ≤ 1024) × (length r.password ≤ 1024) =
      (h.user_name_fits, h.password_fits) in
    sent_lem encode_login_request decode_login_request r
      (string_bytes r.user_name ++ string_bytes r.password) (simp (writes, n, p) refl)
      (search (reading, n, p)) (simp lengths (omega arith))

pub record FitsLoginResponse (r : LoginResponse) : Type 0 where
  pub user_id_fits : r.user_id < 2 ^ 32
  pub elo_fits : r.elo < 2 ^ 32
  pub user_name_fits : length r.user_name ≤ max_string_bytes
  pub error_code_fits : r.error_code < 2 ^ 16
  pub error_message_fits : length r.error_message ≤ max_string_bytes

-- The fields that go over the wire; the receiver sees the others at their initial values.
abbrev pub shown_login : LoginResponse → LoginResponse
shown_login r =
    if r.success
    then record r { error_code = 0; error_message = [] }
    else record empty_login_response { error_code = r.error_code; error_message = r.error_message }

login_response-sent_flag :
    (r : LoginResponse) (b : Bool)
    → FitsLoginResponse r
    → sent encode_login_response
        (decode_login_response empty_login_response)
        (record r { success = b })
      ≡ some (shown_login (record r { success = b }))
unfolding encode_login_response decode_login_response
login_response-sent_flag r true h =
    let (u, e, n) : (r.user_id < 2 ^ 32) × (r.elo < 2 ^ 32) × (length r.user_name ≤ 1024) =
      (h.user_id_fits, h.elo_fits, h.user_name_fits) in
    sent_as encode_login_response (decode_login_response empty_login_response)
      (record r { success = true }) (shown_login (record r { success = true }))
      ((1 ∷ []) ++ (le_bytes 4 r.user_id ++ (le_bytes 4 r.elo ++ string_bytes r.user_name)))
      (simp (writes, n) refl)
      (bind-ReadsAll _ (u8-Reads 1) (
        bind-ReadsAll _ (u32-Reads r.user_id u) (
          bind-ReadsAll _ (u32-Reads r.elo e)
            (last-ReadsAll _ (string-Reads r.user_name n) (end-ReadsAll _)))))
      (simp lengths (omega arith))
login_response-sent_flag r false h =
    let (c, m) : (r.error_code < 2 ^ 16) × (length r.error_message ≤ 1024) =
      (h.error_code_fits, h.error_message_fits) in
    sent_as encode_login_response (decode_login_response empty_login_response)
      (record r { success = false }) (shown_login (record r { success = false }))
      ((0 ∷ []) ++ (le_bytes 2 r.error_code ++ string_bytes r.error_message))
      (simp (writes, m) refl)
      (bind-ReadsAll _ (u8-Reads 0) (refusal-ReadsAll _ r.error_code r.error_message c m))
      (simp lengths (omega arith))

-- A login response whose numbers fit their fields and whose strings have at most 1024 bytes is
-- received with the fields of its branch as they were sent, accepted or refused, and the others
-- initial.
pub login_response-sent :
    (r : LoginResponse)
    → FitsLoginResponse r
    → sent encode_login_response (decode_login_response empty_login_response) r
      ≡ some (shown_login r)
login_response-sent r h = login_response-sent_flag r r.success h

pub record FitsRegisterResponse (r : RegisterResponse) : Type 0 where
  pub user_id_fits : r.user_id < 2 ^ 32
  pub user_name_fits : length r.user_name ≤ max_string_bytes
  pub error_code_fits : r.error_code < 2 ^ 16
  pub error_message_fits : length r.error_message ≤ max_string_bytes

abbrev pub shown_register : RegisterResponse → RegisterResponse
shown_register r =
    if r.success
    then record r { error_code = 0; error_message = [] }
    else record empty_register_response {
      error_code = r.error_code;
      error_message = r.error_message;
    }

register_response-sent_flag :
    (r : RegisterResponse) (b : Bool)
    → FitsRegisterResponse r
    → sent encode_register_response
        (decode_register_response empty_register_response)
        (record r { success = b })
      ≡ some (shown_register (record r { success = b }))
unfolding encode_register_response decode_register_response
register_response-sent_flag r true h =
    let (u, n) : (r.user_id < 2 ^ 32) × (length r.user_name ≤ 1024) =
      (h.user_id_fits, h.user_name_fits) in
    sent_as encode_register_response (decode_register_response empty_register_response)
      (record r { success = true }) (shown_register (record r { success = true }))
      ((1 ∷ []) ++ (le_bytes 4 r.user_id ++ string_bytes r.user_name)) (simp (writes, n) refl)
      (bind-ReadsAll _ (u8-Reads 1) (
        bind-ReadsAll _ (u32-Reads r.user_id u)
          (last-ReadsAll _ (string-Reads r.user_name n) (end-ReadsAll _))))
      (simp lengths (omega arith))
register_response-sent_flag r false h =
    let (c, m) : (r.error_code < 2 ^ 16) × (length r.error_message ≤ 1024) =
      (h.error_code_fits, h.error_message_fits) in
    sent_as encode_register_response (decode_register_response empty_register_response)
      (record r { success = false }) (shown_register (record r { success = false }))
      ((0 ∷ []) ++ (le_bytes 2 r.error_code ++ string_bytes r.error_message))
      (simp (writes, m) refl)
      (bind-ReadsAll _ (u8-Reads 0) (refusal-ReadsAll _ r.error_code r.error_message c m))
      (simp lengths (omega arith))

pub register_response-sent :
    (r : RegisterResponse)
    → FitsRegisterResponse r
    → sent encode_register_response (decode_register_response empty_register_response) r
      ≡ some (shown_register r)
register_response-sent r h = register_response-sent_flag r r.success h

pub register_request-sent :
    (r : RegisterRequest)
    → length r.user_name ≤ max_string_bytes
    → length r.password ≤ max_string_bytes
    → sent encode_register_request decode_register_request r ≡ some r
unfolding encode_register_request decode_register_request
register_request-sent r n p =
    sent_lem encode_register_request decode_register_request r
      (string_bytes r.user_name ++ string_bytes r.password) (simp (writes, n, p) refl)
      (search (reading, n, p)) (simp lengths (omega arith))
