-- ===== src/Codec/Opcodes.antt =====
-- binary.go: the frame opcodes and the flag bits.
use realtime_go.Common.{ℕ}

abbrev pub op_auth : ℕ
op_auth = 1

abbrev pub op_sub : ℕ
op_sub = 2

abbrev pub op_unsub : ℕ
op_unsub = 3

abbrev pub op_pub : ℕ
op_pub = 4

abbrev pub op_pres : ℕ
op_pres = 5

abbrev pub op_pres_sub : ℕ
op_pres_sub = 6

abbrev pub op_pres_unsub : ℕ
op_pres_unsub = 7

abbrev pub op_hist : ℕ
op_hist = 8

abbrev pub op_fetch : ℕ
op_fetch = 9

abbrev pub op_ping : ℕ
op_ping = 10

abbrev pub op_connected : ℕ
op_connected = 11

abbrev pub op_ack : ℕ
op_ack = 12

abbrev pub op_msg : ℕ
op_msg = 13

abbrev pub op_pres_evt : ℕ
op_pres_evt = 14

abbrev pub op_err : ℕ
op_err = 15

abbrev pub op_pong : ℕ
op_pong = 16

abbrev pub op_hist_res : ℕ
op_hist_res = 17

abbrev pub op_fetch_res : ℕ
op_fetch_res = 18

abbrev pub op_batch : ℕ
op_batch = 19

abbrev pub flag_ephemeral : ℕ
flag_ephemeral = 1

abbrev pub flag_batch : ℕ
flag_batch = 2

abbrev pub flag_response_set : ℕ
flag_response_set = 1

abbrev pub auth_protocol_version : ℕ
auth_protocol_version = 0
