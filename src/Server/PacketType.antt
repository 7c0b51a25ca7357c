-- ===== src/Server/PacketType.antt =====
-- `proc_packet_type_e` and the flag bits of include/csp_proc/proc_server.h: the first byte of a packet.
use csp_proc.Common.{ℕ}

abbrev pub del_request : ℕ
del_request = 0

abbrev pub del_response : ℕ
del_response = 1

abbrev pub pull_request : ℕ
pull_request = 2

abbrev pub pull_response : ℕ
pull_response = 3

abbrev pub push_request : ℕ
push_request = 4

abbrev pub push_response : ℕ
push_response = 5

abbrev pub slots_request : ℕ
slots_request = 6

abbrev pub slots_response : ℕ
slots_response = 7

abbrev pub run_request : ℕ
run_request = 8

abbrev pub run_response : ℕ
run_response = 9

abbrev pub type_mask : ℕ
type_mask = 0b00001111

abbrev pub flag_end : ℕ
flag_end = 0b10000000

abbrev pub flag_error : ℕ
flag_error = 0b01000000
