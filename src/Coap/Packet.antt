-- ===== src/Coap/Packet.antt =====
-- messaging/coap/coap.h: the parsed message, its map of the options that are set, and the codes that
-- its parser returns.
-- The fields that point into a buffer are modelled by the bytes that they point to, an array with its
-- length by the list of its elements. The build is one without OC_TCP, so that the transport is UDP.
-- `observe`, an int32_t, is held as its bit pattern.
pub mod Bitmap
use knx_iot_stack.Prelude.{
  ℕ, ◌+◌, ◌-◌, ◌*◌, ◌/◌, ◌%◌, ◌^◌, Bool, true, false, not, List, [], ◌∷◌, ◌++◌, ◌==◌, if◌then◌else◌,
  length, bit_and, bit_or, get_or, set, replicate,
}

pub record Packet : Type 0 where
  pub version : ℕ
  pub kind : ℕ
  pub code : ℕ
  pub mid : ℕ
  pub token : List ℕ
  pub options : List ℕ
  pub content_format : ℕ
  pub max_age : ℕ
  pub etag : List ℕ
  pub proxy_uri : List ℕ
  pub uri_host : List ℕ
  pub uri_port : ℕ
  pub uri_path : List ℕ
  pub observe : ℕ
  pub accept : ℕ
  pub block2_num : ℕ
  pub block2_more : ℕ
  pub block2_size : ℕ
  pub block2_offset : ℕ
  pub block1_num : ℕ
  pub block1_more : ℕ
  pub block1_size : ℕ
  pub block1_offset : ℕ
  pub size2 : ℕ
  pub size1 : ℕ
  pub uri_query : List ℕ
  pub oscore_flags : ℕ
  pub piv : List ℕ
  pub kid_ctx : List ℕ
  pub kid : List ℕ
  pub echo : List ℕ
  pub payload : List ℕ

-- The codes that the parser returns, besides COAP_NO_ERROR.
pub data Status : Type 0 where
  bad_request : Status
  bad_option : Status
  not_acceptable : Status
  unsupported_media_type : Status

-- The bytes of the map: one bit for each number up to that of Echo, 252.
abbrev pub options_size : ℕ
options_size = 32

-- `memset` of the map to zero
unfoldable pub no_options : List ℕ
no_options = replicate options_size 0

-- `memset` of the packet to zero
unfoldable pub empty_packet : Packet
unfolding no_options
empty_packet = record {
  version = 0;
  kind = 0;
  code = 0;
  mid = 0;
  token = [];
  options = no_options;
  content_format = 0;
  max_age = 0;
  etag = [];
  proxy_uri = [];
  uri_host = [];
  uri_port = 0;
  uri_path = [];
  observe = 0;
  accept = 0;
  block2_num = 0;
  block2_more = 0;
  block2_size = 0;
  block2_offset = 0;
  block1_num = 0;
  block1_more = 0;
  block1_size = 0;
  block1_offset = 0;
  size2 = 0;
  size1 = 0;
  uri_query = [];
  oscore_flags = 0;
  piv = [];
  kid_ctx = [];
  kid = [];
  echo = [];
  payload = [];
}

-- `coap_udp_init_message`
unfoldable pub udp_init_message : ℕ → ℕ → ℕ → Packet
udp_init_message kind code mid = record empty_packet { kind = kind; code = code; mid = mid }

-- `SET_OPTION`
unfoldable pub set_option : ℕ → List ℕ → List ℕ
set_option opt options = set options (opt / 8) (bit_or (get_or options (opt / 8) 0) (2 ^ (opt % 8)))

-- `IS_OPTION`
unfoldable pub is_option : ℕ → List ℕ → Bool
is_option opt options = not (bit_and (get_or options (opt / 8) 0) (2 ^ (opt % 8)) == 0)
