-- ===== src/Coap/RoundTrip/Tests.antt =====
-- A message that is sent and read back.
use knx_iot_stack.Prelude.{ℕ, ◌≡◌, refl, arith, some, List, [], ◌∷◌}
use knx_iot_stack.Coap.Options.{
  serialize_int_option, int_value, set_option_header, option_nibble, extended,
}
use knx_iot_stack.Coap.Packet.{Packet, empty_packet, no_options, set_option, is_option}
use knx_iot_stack.Coap.OscoreOption.RoundTrip.{HasOscore}
use knx_iot_stack.Coap.Parse.{parsed, udp_parse_message}
use knx_iot_stack.Coap.Serialize.{
  serialize_message, serialize_options, serialize_array_option, block_value, udp_header,
  pack_payload,
}
use knx_iot_stack.Coap.RoundTrip.{IsSendable}
use knx_iot_stack.Coap.RoundTrip.BlockValue.{IsBlock}
use knx_iot_stack.Coap.RoundTrip.Messages.{HasHeader, received, udp_parse_message-serialize_message}

-- POST /p/1 with a CBOR payload, the second block of a transfer.
abbrev post : Packet
post = record empty_packet {
  code = 2;
  mid = 0x1234;
  token = 7 ∷ 8 ∷ [];
  options = set_option 27 (set_option 12 (set_option 11 no_options));
  uri_path = b'p' ∷ b'/' ∷ b'1' ∷ [];
  content_format = 60;
  block1_num = 1;
  block1_more = 1;
  block1_size = 64;
  payload = 0xa1 ∷ 1 ∷ 2 ∷ [];
}

abbrev behind_post : ℕ → ℕ × ℕ
behind_post n = (0, 0)

post_serialized :
    serialize_message behind_post [] post
    ≡ some (
        0x42 ∷ 2 ∷ 0x12 ∷ 0x34 ∷ 7 ∷ 8 ∷ 0xb1 ∷ b'p' ∷ 0x01 ∷ b'1' ∷ 0x11 ∷ 60 ∷ 0xd1 ∷ 2 ∷ 0x1a
        ∷ 0xff ∷ 0xa1 ∷ 1 ∷ 2 ∷ [])
unfolding serialize_message serialize_options serialize_array_option serialize_int_option int_value
    set_option_header option_nibble extended block_value udp_header pack_payload empty_packet
    no_options set_option is_option
post_serialized = refl

post-HasHeader : HasHeader post
unfolding empty_packet
post-HasHeader = omega arith

post-HasOscore : HasOscore post
unfolding empty_packet
post-HasOscore = record {
  piv_flags = refl;
  piv_fits = omega arith;
  kid_ctx_flag = refl;
  kid_ctx_fits = omega arith;
  kid_flag = refl;
  kid_fits = omega arith;
}

post-IsBlock : IsBlock 1 1 64
post-IsBlock = record {
  szx = 2;
  szx_bound = omega arith;
  size_is = refl;
  num_bound = omega arith;
  more_bound = omega arith;
}

post-IsSendable : IsSendable post
unfolding empty_packet no_options set_option is_option
post-IsSendable = record {
  uri_host_length = omega arith;
  etag_length = omega arith;
  observe_range = omega arith;
  uri_port_range = omega arith;
  oscore_parts = post-HasOscore;
  uri_path_length = omega arith;
  uri_path_begin = refl;
  uri_path_end = refl;
  content_format_range = omega arith;
  max_age_range = omega arith;
  uri_query_length = omega arith;
  uri_query_begin = refl;
  uri_query_end = refl;
  accept_range = omega arith;
  accept_known = λ h. cc;
  block2_fits = λ h. cc;
  block1_fits = λ h. post-IsBlock;
  size2_range = omega arith;
  proxy_uri_length = omega arith;
  size1_range = omega arith;
  echo_length = omega arith;
}

udp_parse_message-serialize_message_example :
    (bytes : List ℕ) × (serialize_message behind_post [] post ≡ some bytes)
    × (udp_parse_message 1024 bytes ≡ parsed (received behind_post [] post))
unfolding serialize_options serialize_array_option serialize_int_option int_value set_option_header
    option_nibble extended block_value empty_packet no_options set_option is_option
udp_parse_message-serialize_message_example =
    udp_parse_message-serialize_message behind_post [] post 1024 post-HasHeader post-IsSendable refl
      (omega arith) (omega arith)
