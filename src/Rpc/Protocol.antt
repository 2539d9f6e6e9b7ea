-- ===== src/Rpc/Protocol.antt =====
-- acid/rpc/protocol.h and protocol.cpp: a message's header and content, and its bytes. `host` is the
-- byte order of the machine.
pub mod Layout
pub mod RoundTrip
use acid_compute.Prelude.{ℕ, ◌%◌, ◌^◌, List, [], length}
use acid_compute.Outcome.{Outcome, ok, ◌>>=◌}
use acid_compute.ByteArray.Store.{ByteArray, Endian, big, make, set_position}
use acid_compute.ByteArray.Ints.{
  write_fix_int, read_fix_int, write_fix_uint8, read_fix_uint8, write_string_fix, read_string_fix,
}

pub data MessageType : Type 0 where
  heartbeat_packet rpc_provider rpc_comsumer rpc_request rpc_response rpc_method_request :
      MessageType
  rpc_method_response rpc_service_register rpc_service_register_response : MessageType
  rpc_service_discover rpc_service_discover_response rpc_subscribe_request : MessageType
  rpc_subscribe_response rpc_publish_request rpc_publish_response : MessageType

unfoldable pub type_code : MessageType → ℕ
type_code heartbeat_packet = 0
type_code rpc_provider = 1
type_code rpc_comsumer = 2
type_code rpc_request = 3
type_code rpc_response = 4
type_code rpc_method_request = 5
type_code rpc_method_response = 6
type_code rpc_service_register = 7
type_code rpc_service_register_response = 8
type_code rpc_service_discover = 9
type_code rpc_service_discover_response = 10
type_code rpc_subscribe_request = 11
type_code rpc_subscribe_response = 12
type_code rpc_publish_request = 13
type_code rpc_publish_response = 14

pub record Protocol : Type 0 where
  pub magic : ℕ
  pub version : ℕ
  pub type : ℕ
  pub sequence_id : ℕ
  pub content_length : ℕ
  pub content : List ℕ

abbrev pub magic_byte : ℕ
magic_byte = 0xcc

abbrev pub default_version : ℕ
default_version = 1

abbrev pub base_length : ℕ
base_length = 11

-- A Protocol as it is constructed.
abbrev pub blank : Protocol
blank = record {
  magic = magic_byte;
  version = default_version;
  type = 0;
  sequence_id = 0;
  content_length = 0;
  content = [];
}

-- `set_content_length(content.size())` keeps 32 bits.
unfoldable pub create : MessageType → List ℕ → ℕ → Protocol
unfolding type_code
create t content id = record blank {
  type = type_code t;
  content = content;
  content_length = length content % 2 ^ 32;
  sequence_id = id;
}

unfoldable pub heartbeat : Protocol
unfolding create
heartbeat = create heartbeat_packet [] 0

-- ByteArray()
abbrev pub default_array : ByteArray
default_array = make 4096 big

unfoldable pub write_header : Endian → Protocol → Outcome ByteArray
write_header host p = do
  b1 ← write_fix_uint8 p.magic default_array
  b2 ← write_fix_uint8 p.version b1
  b3 ← write_fix_uint8 p.type b2
  write_fix_int host 4 p.sequence_id b3

unfoldable pub encode_meta : Endian → Protocol → Outcome ByteArray
encode_meta host p = do
  b4 ← write_header host p
  b5 ← write_fix_int host 4 (length p.content % 256 ^ 4) b4
  set_position 0 b5

unfoldable pub encode : Endian → Protocol → Outcome ByteArray
encode host p = do
  b4 ← write_header host p
  b5 ← write_string_fix host 4 p.content b4
  set_position 0 b5

unfoldable pub read_header : Endian → ByteArray → Protocol → Outcome (Protocol × ByteArray)
read_header host b p = do
  (magic, b1) ← read_fix_uint8 b
  (version, b2) ← read_fix_uint8 b1
  (type, b3) ← read_fix_uint8 b2
  (id, b4) ← read_fix_int host 4 b3
  ok (record p { magic = magic; version = version; type = type; sequence_id = id }, b4)

unfoldable pub decode_meta : Endian → ByteArray → Protocol → Outcome (Protocol × ByteArray)
decode_meta host b p = do
  (q, b4) ← read_header host b p
  (len, b5) ← read_fix_int host 4 b4
  ok (record q { content_length = len }, b5)

unfoldable pub decode : Endian → ByteArray → Protocol → Outcome (Protocol × ByteArray)
decode host b p = do
  (q, b4) ← read_header host b p
  (content, b5) ← read_string_fix host 4 b4
  ok (record q { content = content; content_length = length content % 2 ^ 32 }, b5)
