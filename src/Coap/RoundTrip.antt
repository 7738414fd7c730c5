-- ===== src/Coap/RoundTrip.antt =====
-- messaging/coap/coap.c: messages that are serialised and then parsed. What a packet needs so that its
-- options are read back, and the packet that is read.
pub mod BlockValue
pub mod Steps
pub mod Fields
pub mod Options
pub mod Messages
pub mod Marks
mod Tests
use knx_iot_stack.Prelude.{
  ℕ, ◌+◌, ◌*◌, ◌/◌, ◌%◌, ◌^◌, ◌≤◌, ◌<◌, ◌≡◌, Bool, true, false, ◌&&◌, List, [], ◌∷◌, if◌then◌else◌,
  length,
}
use knx_iot_stack.Coap.Packet.{Packet, no_options, set_option, is_option}
use knx_iot_stack.Coap.OscoreOption.RoundTrip.{HasOscore}
use knx_iot_stack.Coap.Parse.{is_acceptable}
use knx_iot_stack.Coap.Serialize.{inside, outside}
use knx_iot_stack.Coap.Serialize.Parts.{begins_with, ends_with}
use knx_iot_stack.Coap.RoundTrip.BlockValue.{IsBlock}

-- The fields of a packet are in their ranges. A path and a query neither begin nor end with their
-- separator. The fields of a block and of Accept count only if the option is set.
pub record IsSendable (pkt : Packet) : Type 0 where
  pub uri_host_length : length pkt.uri_host < 2 ^ 16
  pub etag_length : length pkt.etag ≤ 8
  pub observe_range : pkt.observe < 2 ^ 32
  pub uri_port_range : pkt.uri_port < 2 ^ 16
  pub oscore_parts : HasOscore pkt
  pub uri_path_length : length pkt.uri_path < 2 ^ 16
  pub uri_path_begin : begins_with b'/' pkt.uri_path ≡ false
  pub uri_path_end : ends_with b'/' pkt.uri_path ≡ false
  pub content_format_range : pkt.content_format < 2 ^ 16
  pub max_age_range : pkt.max_age < 2 ^ 32
  pub uri_query_length : length pkt.uri_query < 2 ^ 16
  pub uri_query_begin : begins_with b'&' pkt.uri_query ≡ false
  pub uri_query_end : ends_with b'&' pkt.uri_query ≡ false
  pub accept_range : pkt.accept < 2 ^ 16
  pub accept_known : is_option 17 pkt.options ≡ true → is_acceptable pkt.accept ≡ true
  pub block2_fits :
      is_option 23 pkt.options ≡ true → IsBlock pkt.block2_num pkt.block2_more pkt.block2_size
  pub block1_fits :
      is_option 27 pkt.options ≡ true → IsBlock pkt.block1_num pkt.block1_more pkt.block1_size
  pub size2_range : pkt.size2 < 2 ^ 32
  pub proxy_uri_length : length pkt.proxy_uri < 2 ^ 16
  pub size1_range : pkt.size1 < 2 ^ 32
  pub echo_length : length pkt.echo ≤ 40

-- The numbers that are sent are marked in the map of options.
unfoldable pub mark : List (Bool × ℕ) → List ℕ → List ℕ
mark [] options = options
mark ((sent, number) ∷ more) options =
    mark more (if sent then set_option number options else options)

-- A field that is sent, or empty.
abbrev pub when : Bool → List ℕ → List ℕ
when sent text = if sent then text else []

abbrev pub when_nat : Bool → ℕ → ℕ
when_nat sent value = if sent then value else 0

module _ (inner outer oscore : Bool) (pkt : Packet) where
  -- The options that are sent, in the order in which they are sent.
  abbrev pub sent_options : List (Bool × ℕ)
  sent_options =
      (outside inner outer oscore pkt 3, 3)
      ∷ (inside inner outer oscore pkt 4, 4)
      ∷ (is_option 6 pkt.options, 6)
      ∷ (outside inner outer oscore pkt 7, 7)
      ∷ (oscore && outside inner outer oscore pkt 9, 9)
      ∷ (inside inner outer oscore pkt 11, 11)
      ∷ (inside inner outer oscore pkt 12, 12)
      ∷ (outside inner outer oscore pkt 14, 14)
      ∷ (inside inner outer oscore pkt 15, 15)
      ∷ (inside inner outer oscore pkt 17, 17)
      ∷ (inside inner outer oscore pkt 23, 23)
      ∷ (inside inner outer oscore pkt 27, 27)
      ∷ (inside inner outer oscore pkt 28, 28)
      ∷ (outside inner outer oscore pkt 35, 35)
      ∷ (inside inner outer oscore pkt 60, 60)
      ∷ (inside inner outer oscore pkt 252, 252)
      ∷ []

  -- The packet that is read: the fields whose options are sent, on a packet without options.
  unfoldable pub with_options : Packet → Packet
  with_options q =
      let outs = outside inner outer oscore pkt in
      let ins = inside inner outer oscore pkt in
      record q {
        options = mark sent_options q.options;
        uri_host = when (outs 3) pkt.uri_host;
        etag = when (ins 4) pkt.etag;
        observe = when_nat (is_option 6 pkt.options) pkt.observe;
        uri_port = when_nat (outs 7) pkt.uri_port;
        oscore_flags = when_nat (oscore && outs 9) pkt.oscore_flags;
        piv = when (oscore && outs 9) pkt.piv;
        kid_ctx = when (oscore && outs 9) pkt.kid_ctx;
        kid = when (oscore && outs 9) pkt.kid;
        uri_path = when (ins 11) pkt.uri_path;
        content_format = when_nat (ins 12) pkt.content_format;
        max_age = when_nat (outs 14) pkt.max_age;
        uri_query = when (ins 15) pkt.uri_query;
        accept = when_nat (ins 17) pkt.accept;
        block2_num = when_nat (ins 23) pkt.block2_num;
        block2_more = when_nat (ins 23) pkt.block2_more;
        block2_size = when_nat (ins 23) pkt.block2_size;
        block2_offset = when_nat (ins 23) (pkt.block2_num * pkt.block2_size % 2 ^ 32);
        block1_num = when_nat (ins 27) pkt.block1_num;
        block1_more = when_nat (ins 27) pkt.block1_more;
        block1_size = when_nat (ins 27) pkt.block1_size;
        block1_offset = when_nat (ins 27) (pkt.block1_num * pkt.block1_size % 2 ^ 32);
        size2 = when_nat (ins 28) pkt.size2;
        proxy_uri = when (outs 35) pkt.proxy_uri;
        size1 = when_nat (ins 60) pkt.size1;
        echo = when (ins 252) pkt.echo;
      }
