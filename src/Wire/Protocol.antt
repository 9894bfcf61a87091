-- ===== src/Wire/Protocol.antt =====
-- common/GameProtocol.h: the message numbers and the limits of a frame.
use arena_game.Prelude.{ℕ, ◌+◌, ◌*◌}

-- `enum MsgType : uint16_t`
abbrev pub MsgType : Type 0
MsgType = ℕ

abbrev pub msg_heartbeat_req : MsgType
msg_heartbeat_req = 0x0001

abbrev pub msg_heartbeat_rsp : MsgType
msg_heartbeat_rsp = 0x0002

abbrev pub msg_login_req : MsgType
msg_login_req = 0x0010

abbrev pub msg_login_rsp : MsgType
msg_login_rsp = 0x0011

abbrev pub msg_register_req : MsgType
msg_register_req = 0x0012

abbrev pub msg_register_rsp : MsgType
msg_register_rsp = 0x0013

abbrev pub msg_match_join_req : MsgType
msg_match_join_req = 0x0030

abbrev pub msg_match_join_rsp : MsgType
msg_match_join_rsp = 0x0031

abbrev pub msg_match_found_ntf : MsgType
msg_match_found_ntf = 0x0032

abbrev pub msg_match_cancel_req : MsgType
msg_match_cancel_req = 0x0033

abbrev pub msg_match_cancel_rsp : MsgType
msg_match_cancel_rsp = 0x0034

abbrev pub msg_hero_select_req : MsgType
msg_hero_select_req = 0x0040

abbrev pub msg_hero_select_rsp : MsgType
msg_hero_select_rsp = 0x0041

abbrev pub msg_battle_start_ntf : MsgType
msg_battle_start_ntf = 0x0042

abbrev pub msg_room_closed_ntf : MsgType
msg_room_closed_ntf = 0x0043

abbrev pub msg_battle_attack_req : MsgType
msg_battle_attack_req = 0x0050

abbrev pub msg_battle_state_ntf : MsgType
msg_battle_state_ntf = 0x0051

abbrev pub msg_battle_result_ntf : MsgType
msg_battle_result_ntf = 0x0052

abbrev pub header_size : ℕ
header_size = 4 + 2

abbrev pub max_payload_bytes : ℕ
max_payload_bytes = 8192

abbrev pub max_frame_size : ℕ
max_frame_size = 64 * 1024

abbrev pub max_string_bytes : ℕ
max_string_bytes = 1024
