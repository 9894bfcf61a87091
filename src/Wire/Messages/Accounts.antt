-- ===== src/Wire/Messages/Accounts.antt =====
-- common/GameMessages.h: the messages of login and registration.
use arena_game.Prelude.{true, false, Option, not, ◌==◌, nat_eq, if◌then◌else◌}
use mathlib.Core.Option
use arena_game.Wire.Stream.{
  Writer, write_u8, write_u16, write_u32, write_string, Read, ◌>>=◌, ◌>>◌, pure, read_u8, read_u16,
  read_u32, read_string, at_end,
}
use arena_game.Wire.Messages.{LoginRequest, RegisterRequest, LoginResponse, RegisterResponse, flag}

unfoldable pub encode_login_request : LoginRequest → Writer → Option Writer
unfolding Option.bind
encode_login_request value writer =
    Option.bind (write_string value.user_name writer) (write_string value.password)

unfoldable pub decode_login_request : Read LoginRequest
decode_login_request = do
  user_name ← read_string
  password ← read_string
  at_end
  pure (record { user_name = user_name; password = password })

unfoldable pub encode_register_request : RegisterRequest → Writer → Option Writer
unfolding Option.bind
encode_register_request value writer =
    Option.bind (write_string value.user_name writer) (write_string value.password)

unfoldable pub decode_register_request : Read RegisterRequest
decode_register_request = do
  user_name ← read_string
  password ← read_string
  at_end
  pure (record { user_name = user_name; password = password })

unfoldable pub encode_login_response : LoginResponse → Writer → Option Writer
encode_login_response value writer =
    let begun = write_u8 (flag value.success) writer in
    if value.success
    then write_string value.user_name (write_u32 value.elo (write_u32 value.user_id begun))
    else write_string value.error_message (write_u16 value.error_code begun)

-- The decoder writes into `value` and leaves the fields of the other branch as they were.
unfoldable pub decode_login_response : LoginResponse → Read LoginResponse
decode_login_response value = do
  success ← read_u8
  if not (success == 0)
      then (do
        user_id ← read_u32
        elo ← read_u32
        user_name ← read_string
        at_end
        pure (record value { success = true; user_id = user_id; elo = elo; user_name = user_name }))
      else (do
        error_code ← read_u16
        error_message ← read_string
        at_end
        pure (record value {
          success = false;
          error_code = error_code;
          error_message = error_message;
        }))

unfoldable pub encode_register_response : RegisterResponse → Writer → Option Writer
encode_register_response value writer =
    let begun = write_u8 (flag value.success) writer in
    if value.success
    then write_string value.user_name (write_u32 value.user_id begun)
    else write_string value.error_message (write_u16 value.error_code begun)

unfoldable pub decode_register_response : RegisterResponse → Read RegisterResponse
decode_register_response value = do
  success ← read_u8
  if not (success == 0)
      then (do
        user_id ← read_u32
        user_name ← read_string
        at_end
        pure (record value { success = true; user_id = user_id; user_name = user_name }))
      else (do
        error_code ← read_u16
        error_message ← read_string
        at_end
        pure (record value {
          success = false;
          error_code = error_code;
          error_message = error_message;
        }))
