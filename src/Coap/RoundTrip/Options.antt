-- ===== src/Coap/RoundTrip/Options.antt =====
-- The options of a packet: what `coap_serialize_options` writes is read back by the option loop.
use knx_iot_stack.Prelude.{ℕ, ◌≡◌, refl, arith, Bool, List, [], ◌++◌}
use knx_iot_stack.Coap.Packet.{Packet, empty_packet}
use knx_iot_stack.Coap.Serialize.{Writer, serialize_options}
use knx_iot_stack.Coap.RoundTrip.{IsSendable, mark, with_options}
use knx_iot_stack.Coap.RoundTrip.Steps.{Carries, reads}
use knx_iot_stack.Coap.RoundTrip.Fields.{
  uri_host_step, etag_step, observe_step, uri_port_step, oscore_option_step, uri_path_step,
  content_format_step, max_age_step, uri_query_step, accept_step, block2_step, block1_step,
  size2_step, proxy_uri_step, size1_step, echo_step,
}

-- A packet with the fields of a header and a token only.
abbrev pub header_only : ℕ → ℕ → ℕ → ℕ → List ℕ → Packet
header_only version kind code mid token = record empty_packet {
  version = version;
  kind = kind;
  code = code;
  mid = mid;
  token = token;
}

module _ (max_app_data_size : ℕ) (inner outer oscore : Bool) (behind : ℕ → ℕ × ℕ) (stale : List ℕ)
    (version kind code mid : ℕ) (token : List ℕ) (pkt : Packet) (ok : IsSendable pkt) where
  abbrev start : Packet
  start = header_only version kind code mid token

  serialize_options-Carries :
      Carries max_app_data_size inner outer oscore 252 start
        (serialize_options inner outer oscore pkt behind stale)
        (with_options inner outer oscore pkt start)
  unfolding serialize_options with_options mark empty_packet
  serialize_options-Carries =
      let w0 : Writer = record { current_number = 0; bytes = [] } in
      let c0 : Carries max_app_data_size inner outer oscore 0 start w0 start = record {
        below = omega arith;
        leads = λ rest. refl;
      } in
      let c3 = uri_host_step max_app_data_size inner outer oscore behind stale start pkt ok c0 in
      let c4 = etag_step max_app_data_size inner outer oscore behind stale start pkt ok c3 in
      let c6 = observe_step max_app_data_size inner outer oscore behind stale start pkt ok c4 in
      let c7 = uri_port_step max_app_data_size inner outer oscore behind stale start pkt ok c6 in
      let c9 =
        oscore_option_step max_app_data_size inner outer oscore behind stale start pkt ok refl refl
          refl refl c7 in
      let c11 =
        uri_path_step max_app_data_size inner outer oscore behind stale start pkt ok refl c9 in
      let c12 =
        content_format_step max_app_data_size inner outer oscore behind stale start pkt ok refl
          c11 in
      let c14 = max_age_step max_app_data_size inner outer oscore behind stale start pkt ok c12 in
      let c15 =
        uri_query_step max_app_data_size inner outer oscore behind stale start pkt ok refl c14 in
      let c17 = accept_step max_app_data_size inner outer oscore behind stale start pkt ok c15 in
      let c23 = block2_step max_app_data_size inner outer oscore behind stale start pkt ok c17 in
      let c27 = block1_step max_app_data_size inner outer oscore behind stale start pkt ok c23 in
      let c28 = size2_step max_app_data_size inner outer oscore behind stale start pkt ok c27 in
      let c35 =
        proxy_uri_step max_app_data_size inner outer oscore behind stale start pkt ok refl c28 in
      let c60 = size1_step max_app_data_size inner outer oscore behind stale start pkt ok c35 in
      echo_step max_app_data_size inner outer oscore behind stale start pkt ok c60

  -- After the options that were written the parser has the packet with these options.
  pub reads-serialize_options :
      (rest : List ℕ)
      → (current : ℕ) × (reads max_app_data_size inner outer oscore
            ((serialize_options inner outer oscore pkt behind stale).bytes ++ rest)
            0
            start
          ≡ reads max_app_data_size inner outer oscore rest current
              (with_options inner outer oscore pkt start))
  reads-serialize_options rest = (_, serialize_options-Carries.leads rest)
