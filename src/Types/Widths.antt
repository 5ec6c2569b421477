-- ===== src/Types/Widths.antt =====
-- The column widths and the positions in a key of pkg/types/types.go.
use go_probe.Common.{ℕ, ◌+◌, ◌*◌}

abbrev pub ipv6_width : ℕ
ipv6_width = 16

abbrev pub ipv4_width : ℕ
ipv4_width = 4

abbrev pub dport_width : ℕ
dport_width = 2

abbrev pub proto_width : ℕ
proto_width = 1

abbrev pub timestamp_width : ℕ
timestamp_width = 8

abbrev pub sip_pos : ℕ
sip_pos = 0

abbrev pub dip_pos_ipv4 : ℕ
dip_pos_ipv4 = ipv4_width

abbrev pub dip_pos_ipv6 : ℕ
dip_pos_ipv6 = ipv6_width

abbrev pub sip_dip_ipv4_width : ℕ
sip_dip_ipv4_width = 2 * ipv4_width

abbrev pub sip_dip_ipv6_width : ℕ
sip_dip_ipv6_width = 2 * ipv6_width

abbrev pub dport_pos_ipv4 : ℕ
dport_pos_ipv4 = sip_dip_ipv4_width

abbrev pub dport_pos_ipv6 : ℕ
dport_pos_ipv6 = sip_dip_ipv6_width

abbrev pub proto_pos_ipv4 : ℕ
proto_pos_ipv4 = dport_pos_ipv4 + dport_width

abbrev pub proto_pos_ipv6 : ℕ
proto_pos_ipv6 = dport_pos_ipv6 + dport_width

abbrev pub non_ip_keys_width : ℕ
non_ip_keys_width = dport_width + proto_width

abbrev pub key_width_ipv4 : ℕ
key_width_ipv4 = sip_dip_ipv4_width + non_ip_keys_width

abbrev pub key_width_ipv6 : ℕ
key_width_ipv6 = sip_dip_ipv6_width + non_ip_keys_width
