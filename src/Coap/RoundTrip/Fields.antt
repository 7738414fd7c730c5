-- ===== src/Coap/RoundTrip/Fields.antt =====
-- Each option of a packet in turn: the parser takes over the field that was serialised.
use knx_iot_stack.Prelude.{
  ℕ, ◌*◌, ◌%◌, ◌^◌, ◌<◌, ◌≡◌, refl, sym, ap, ◌∙◌, arith, append_assoc, append-nil, Bool, true, ◌&&◌,
  ltb, not, List, [], ◌++◌, leb, if◌then◌else◌, length, take, take-append, min,
}
use knx_iot_stack.Coap.Options.{
  set_option_header, serialize_int_option, int_value, parse_int_option,
}
use knx_iot_stack.Coap.Options.Integers.{parse-int_value}
use knx_iot_stack.Coap.Packet.{Packet, unsupported_media_type, set_option, is_option}
use knx_iot_stack.Coap.Packet.Bitmap.{set_option_idem}
use knx_iot_stack.Coap.OscoreOption.{serialize_oscore_option, oscore_value}
use knx_iot_stack.Coap.OscoreOption.RoundTrip.{
  length-oscore_value, length-oscore_value-le, parse-oscore_value,
}
use knx_iot_stack.Coap.Parse.{
  parsed, take_option, note_option, failed, take_content_format, is_supported, take_oscore,
  merge_multi_option,
}
use knx_iot_stack.Coap.Serialize.{
  Writer, write, write_int, write_array, inside, outside, block_value, serialize_array_option,
  delta_of,
}
use knx_iot_stack.Coap.RoundTrip.{IsSendable}
use knx_iot_stack.Coap.RoundTrip.BlockValue.{
  block_value-lt, take_block2-block_value, take_block1-block_value,
}
use knx_iot_stack.Coap.RoundTrip.Steps.{
  Carries, carry, one_option, int_option, whole_option, split_option, reads,
}

both : (a b : Bool) → (a && b) ≡ true → a ≡ true
both a b h = ground arith

second : (a b : Bool) → (a && b) ≡ true → b ≡ true
second a b h = ground arith

-- An integer that fits into 16 bits.
read_16 : (v : ℕ) → v < 2 ^ 16 → parse_int_option (int_value v) % 2 ^ 16 ≡ v
read_16 v h = omega (arith, h, parse-int_value v (omega (arith, h)))

take_all : (xs : List ℕ) → take (length xs) xs ≡ xs
take_all xs = ap (take (length xs)) (sym (append-nil xs)) ∙ take-append xs []

module _ (max_app_data_size : ℕ) (inner outer oscore : Bool) (behind : ℕ → ℕ × ℕ) (stale : List ℕ)
    (start pkt : Packet) (ok : IsSendable pkt) where
  -- The parser at what is written so far, up to an option number.
  abbrev Carries' : ℕ → Writer → Packet → Type 0
  Carries' bound = Carries max_app_data_size inner outer oscore bound start

  abbrev ins : ℕ → Bool
  ins = inside inner outer oscore pkt

  abbrev out : ℕ → Bool
  out = outside inner outer oscore pkt

  abbrev with_uri_host : Packet → Bool → Packet
  with_uri_host q sent = record q {
    options = if sent then set_option 3 q.options else q.options;
    uri_host = if sent then pkt.uri_host else q.uri_host;
  }

  pub uri_host_step :
      {w : Writer} {q : Packet}
      → Carries' 0 w q
      → Carries' 3 (write_array (out 3) 3 pkt.uri_host 0 (behind 3) w) (with_uri_host q (out 3))
  unfolding take_option note_option
  uri_host_step {w} {q} =
      carry max_app_data_size inner outer oscore (out 3) 3
        (λ current. serialize_array_option 3 current pkt.uri_host 0 (behind 3)) start w
        (with_uri_host q) 0
        (λ current rest on le.
          whole_option max_app_data_size inner outer oscore 3 current pkt.uri_host rest (behind 3) q
            _ (omega (arith, le)) (omega arith) (omega (arith, ok.uri_host_length))
            (rw (both outer (is_option 3 pkt.options) on) (refl)))
        (omega arith)

  abbrev with_etag : Packet → Bool → Packet
  with_etag q sent = record q {
    options = if sent then set_option 4 q.options else q.options;
    etag = if sent then pkt.etag else q.etag;
  }

  pub etag_step :
      {w : Writer} {q : Packet}
      → Carries' 3 w q
      → Carries' 4 (write_array (ins 4) 4 pkt.etag 0 (behind 4) w) (with_etag q (ins 4))
  unfolding take_option note_option
  etag_step {w} {q} =
      carry max_app_data_size inner outer oscore (ins 4) 4
        (λ current. serialize_array_option 4 current pkt.etag 0 (behind 4)) start w (with_etag q) 3
        (λ current rest on le.
          whole_option max_app_data_size inner outer oscore 4 current pkt.etag rest (behind 4) q _
            (omega (arith, le)) (omega arith) (omega (arith, ok.etag_length))
            (rw (both inner (is_option 4 pkt.options) on) (
              let m : min 8 (length pkt.etag) ≡ length pkt.etag = omega (arith, ok.etag_length) in
              rw (m, take_all pkt.etag) refl)))
        (omega arith)

  abbrev with_observe : Packet → Bool → Packet
  with_observe q sent = record q {
    options = if sent then set_option 6 q.options else q.options;
    observe = if sent then pkt.observe else q.observe;
  }

  pub observe_step :
      {w : Writer} {q : Packet}
      → Carries' 4 w q
      → Carries' 6
          (write_int (is_option 6 pkt.options) 6 pkt.observe w)
          (with_observe q (is_option 6 pkt.options))
  unfolding take_option note_option
  observe_step {w} {q} =
      carry max_app_data_size inner outer oscore (is_option 6 pkt.options) 6
        (λ current. serialize_int_option 6 current pkt.observe) start w (with_observe q) 4
        (λ current rest on le.
          int_option max_app_data_size inner outer oscore 6 current pkt.observe rest q _
            (omega (arith, le)) (omega arith) ok.observe_range
            (rw (parse-int_value pkt.observe ok.observe_range) refl))
        (omega arith)

  abbrev with_uri_port : Packet → Bool → Packet
  with_uri_port q sent = record q {
    options = if sent then set_option 7 q.options else q.options;
    uri_port = if sent then pkt.uri_port else q.uri_port;
  }

  pub uri_port_step :
      {w : Writer} {q : Packet}
      → Carries' 6 w q
      → Carries' 7 (write_int (out 7) 7 pkt.uri_port w) (with_uri_port q (out 7))
  unfolding take_option note_option
  uri_port_step {w} {q} =
      carry max_app_data_size inner outer oscore (out 7) 7
        (λ current. serialize_int_option 7 current pkt.uri_port) start w (with_uri_port q) 6
        (λ current rest on le.
          int_option max_app_data_size inner outer oscore 7 current pkt.uri_port rest q _
            (omega (arith, le)) (omega arith) (omega (arith, ok.uri_port_range))
            (rw (both outer (is_option 7 pkt.options) on)
              (rw (read_16 pkt.uri_port ok.uri_port_range) refl)))
        (omega arith)

  abbrev with_oscore_option : Packet → Bool → Packet
  with_oscore_option q sent = record q {
    options = if sent then set_option 9 q.options else q.options;
    oscore_flags = if sent then pkt.oscore_flags else q.oscore_flags;
    piv = if sent then pkt.piv else q.piv;
    kid_ctx = if sent then pkt.kid_ctx else q.kid_ctx;
    kid = if sent then pkt.kid else q.kid;
  }

  taken_oscore :
      (q : Packet) (rest : List ℕ)
      → outer ≡ true
      → oscore ≡ true
      → q.oscore_flags ≡ 0
      → q.piv ≡ []
      → q.kid_ctx ≡ []
      → q.kid ≡ []
      → take_option inner outer oscore 9 (oscore_value stale pkt) rest (note_option 9 q)
        ≡ parsed (with_oscore_option q true)
  unfolding take_option note_option
  taken_oscore q rest o s a b c d =
      rw (o, s)
        (ap take_oscore
          (parse-oscore_value stale pkt ok.oscore_parts rest (note_option 9 q) a b c d))

  pub oscore_option_step :
      {w : Writer} {q : Packet}
      → q.oscore_flags ≡ 0
      → q.piv ≡ []
      → q.kid_ctx ≡ []
      → q.kid ≡ []
      → Carries' 7 w q
      → Carries' 9
          (write (oscore && out 9) 9 (λ current. serialize_oscore_option stale current pkt) w)
          (with_oscore_option q (oscore && out 9))
  unfolding serialize_oscore_option
  oscore_option_step {w} {q} a b c d =
      carry max_app_data_size inner outer oscore (oscore && out 9) 9
        (λ current. serialize_oscore_option stale current pkt) start w (with_oscore_option q) 7
        (λ current rest on le.
          ap
            (λ n.
              reads max_app_data_size inner outer oscore
                ((set_option_header (delta_of 9 current) n ++ oscore_value stale pkt) ++ rest)
                current q)
            (sym (length-oscore_value stale pkt ok.oscore_parts))
          ∙ ap (λ l. reads max_app_data_size inner outer oscore l current q)
              (append_assoc
                (set_option_header (delta_of 9 current) (length (oscore_value stale pkt)))
                (oscore_value stale pkt) rest)
          ∙ one_option max_app_data_size inner outer oscore 9 current (oscore_value stale pkt) rest
              q _ (omega (arith, le)) (omega arith)
              (omega (arith, length-oscore_value-le stale pkt ok.oscore_parts))
              (taken_oscore q rest (both outer _ (second oscore _ on)) (both oscore _ on) a b c d))
        (omega arith)

  abbrev with_uri_path : Packet → Bool → Packet
  with_uri_path q sent = record q {
    options = if sent then set_option 11 q.options else q.options;
    uri_path = if sent then pkt.uri_path else q.uri_path;
  }

  pub uri_path_step :
      {w : Writer} {q : Packet}
      → q.uri_path ≡ []
      → Carries' 9 w q
      → Carries' 11
          (write_array (ins 11) 11 pkt.uri_path b'/' (behind 11) w)
          (with_uri_path q (ins 11))
  unfolding take_option note_option
  uri_path_step {w} {q} e =
      carry max_app_data_size inner outer oscore (ins 11) 11
        (λ current. serialize_array_option 11 current pkt.uri_path b'/' (behind 11)) start w
        (with_uri_path q) 9
        (λ current rest on le.
          ap
            (λ t.
              reads max_app_data_size inner outer oscore
                (serialize_array_option 11 current pkt.uri_path b'/' (behind 11) ++ rest) current
                (record q { uri_path = t }))
            e
          ∙ split_option max_app_data_size inner outer oscore 11 b'/' (omega arith)
              (λ o t. record q { options = o; uri_path = t })
              (λ o t value following. rw (both inner (is_option 11 pkt.options) on) refl) q.options
              (set_option_idem 11 q.options) current pkt.uri_path rest (behind 11)
              (omega (arith, le)) refl ok.uri_path_length ok.uri_path_begin ok.uri_path_end)
        (omega arith)

  -- The parser has no payload yet, so that it does not look at the format.
  no_payload :
      (q : Packet)
      → q.payload ≡ []
      → take_content_format pkt.content_format (note_option 12 q)
        ≡ parsed
            (record q { options = set_option 12 q.options; content_format = pkt.content_format })
  unfolding take_content_format note_option
  no_payload q e =
      ap
        (λ (p : List ℕ).
          if ltb 0 (length p) && not (is_supported pkt.content_format)
          then failed unsupported_media_type
              (record q { options = set_option 12 q.options; content_format = pkt.content_format })
          else parsed
              (record q { options = set_option 12 q.options; content_format = pkt.content_format }))
        e

  abbrev with_content_format : Packet → Bool → Packet
  with_content_format q sent = record q {
    options = if sent then set_option 12 q.options else q.options;
    content_format = if sent then pkt.content_format else q.content_format;
  }

  pub content_format_step :
      {w : Writer} {q : Packet}
      → q.payload ≡ []
      → Carries' 11 w q
      → Carries' 12 (write_int (ins 12) 12 pkt.content_format w) (with_content_format q (ins 12))
  unfolding take_option note_option
  content_format_step {w} {q} e =
      carry max_app_data_size inner outer oscore (ins 12) 12
        (λ current. serialize_int_option 12 current pkt.content_format) start w
        (with_content_format q) 11
        (λ current rest on le.
          int_option max_app_data_size inner outer oscore 12 current pkt.content_format rest q _
            (omega (arith, le)) (omega arith) (omega (arith, ok.content_format_range))
            (rw (both inner (is_option 12 pkt.options) on)
              (rw (read_16 pkt.content_format ok.content_format_range) (no_payload q e))))
        (omega arith)

  abbrev with_max_age : Packet → Bool → Packet
  with_max_age q sent = record q {
    options = if sent then set_option 14 q.options else q.options;
    max_age = if sent then pkt.max_age else q.max_age;
  }

  pub max_age_step :
      {w : Writer} {q : Packet}
      → Carries' 12 w q
      → Carries' 14 (write_int (out 14) 14 pkt.max_age w) (with_max_age q (out 14))
  unfolding take_option note_option
  max_age_step {w} {q} =
      carry max_app_data_size inner outer oscore (out 14) 14
        (λ current. serialize_int_option 14 current pkt.max_age) start w (with_max_age q) 12
        (λ current rest on le.
          int_option max_app_data_size inner outer oscore 14 current pkt.max_age rest q _
            (omega (arith, le)) (omega arith) ok.max_age_range
            (rw (parse-int_value pkt.max_age ok.max_age_range) refl))
        (omega arith)

  abbrev with_uri_query : Packet → Bool → Packet
  with_uri_query q sent = record q {
    options = if sent then set_option 15 q.options else q.options;
    uri_query = if sent then pkt.uri_query else q.uri_query;
  }

  pub uri_query_step :
      {w : Writer} {q : Packet}
      → q.uri_query ≡ []
      → Carries' 14 w q
      → Carries' 15
          (write_array (ins 15) 15 pkt.uri_query b'&' (behind 15) w)
          (with_uri_query q (ins 15))
  unfolding take_option note_option
  uri_query_step {w} {q} e =
      carry max_app_data_size inner outer oscore (ins 15) 15
        (λ current. serialize_array_option 15 current pkt.uri_query b'&' (behind 15)) start w
        (with_uri_query q) 14
        (λ current rest on le.
          ap
            (λ t.
              reads max_app_data_size inner outer oscore
                (serialize_array_option 15 current pkt.uri_query b'&' (behind 15) ++ rest) current
                (record q { uri_query = t }))
            e
          ∙ split_option max_app_data_size inner outer oscore 15 b'&' (omega arith)
              (λ o t. record q { options = o; uri_query = t })
              (λ o t value following. rw (both inner (is_option 15 pkt.options) on) refl) q.options
              (set_option_idem 15 q.options) current pkt.uri_query rest (behind 15)
              (omega (arith, le)) refl ok.uri_query_length ok.uri_query_begin ok.uri_query_end)
        (omega arith)

  abbrev with_accept : Packet → Bool → Packet
  with_accept q sent = record q {
    options = if sent then set_option 17 q.options else q.options;
    accept = if sent then pkt.accept else q.accept;
  }

  pub accept_step :
      {w : Writer} {q : Packet}
      → Carries' 15 w q
      → Carries' 17 (write_int (ins 17) 17 pkt.accept w) (with_accept q (ins 17))
  unfolding take_option note_option
  accept_step {w} {q} =
      carry max_app_data_size inner outer oscore (ins 17) 17
        (λ current. serialize_int_option 17 current pkt.accept) start w (with_accept q) 15
        (λ current rest on le.
          int_option max_app_data_size inner outer oscore 17 current pkt.accept rest q _
            (omega (arith, le)) (omega arith) (omega (arith, ok.accept_range))
            (rw (both inner (is_option 17 pkt.options) on)
              (rw (read_16 pkt.accept ok.accept_range, ok.accept_known (second inner _ on)) refl)))
        (omega arith)

  abbrev with_block2 : Packet → Bool → Packet
  with_block2 q sent = record q {
    options = if sent then set_option 23 q.options else q.options;
    block2_num = if sent then pkt.block2_num else q.block2_num;
    block2_more = if sent then pkt.block2_more else q.block2_more;
    block2_size = if sent then pkt.block2_size else q.block2_size;
    block2_offset = if sent then pkt.block2_num * pkt.block2_size % 2 ^ 32 else q.block2_offset;
  }

  pub block2_step :
      {w : Writer} {q : Packet}
      → Carries' 17 w q
      → Carries' 23
          (write_int (ins 23) 23 (block_value pkt.block2_num pkt.block2_more pkt.block2_size) w)
          (with_block2 q (ins 23))
  unfolding take_option note_option
  block2_step {w} {q} =
      carry max_app_data_size inner outer oscore (ins 23) 23
        (λ current.
          serialize_int_option 23 current
            (block_value pkt.block2_num pkt.block2_more pkt.block2_size))
        start w (with_block2 q) 17
        (λ current rest on le.
          int_option max_app_data_size inner outer oscore 23 current
            (block_value pkt.block2_num pkt.block2_more pkt.block2_size) rest q _
            (omega (arith, le)) (omega arith)
            (block_value-lt pkt.block2_num pkt.block2_more pkt.block2_size
              (ok.block2_fits (second inner _ on)))
            (rw (both inner (is_option 23 pkt.options) on) (
              rw
                (parse-int_value (block_value pkt.block2_num pkt.block2_more pkt.block2_size) (
                  block_value-lt pkt.block2_num pkt.block2_more pkt.block2_size
                    (ok.block2_fits (second inner _ on))))
                (ap parsed (
                  take_block2-block_value pkt.block2_num pkt.block2_more pkt.block2_size
                    (ok.block2_fits (second inner _ on)) (note_option 23 q))))))
        (omega arith)

  abbrev with_block1 : Packet → Bool → Packet
  with_block1 q sent = record q {
    options = if sent then set_option 27 q.options else q.options;
    block1_num = if sent then pkt.block1_num else q.block1_num;
    block1_more = if sent then pkt.block1_more else q.block1_more;
    block1_size = if sent then pkt.block1_size else q.block1_size;
    block1_offset = if sent then pkt.block1_num * pkt.block1_size % 2 ^ 32 else q.block1_offset;
  }

  pub block1_step :
      {w : Writer} {q : Packet}
      → Carries' 23 w q
      → Carries' 27
          (write_int (ins 27) 27 (block_value pkt.block1_num pkt.block1_more pkt.block1_size) w)
          (with_block1 q (ins 27))
  unfolding take_option note_option
  block1_step {w} {q} =
      carry max_app_data_size inner outer oscore (ins 27) 27
        (λ current.
          serialize_int_option 27 current
            (block_value pkt.block1_num pkt.block1_more pkt.block1_size))
        start w (with_block1 q) 23
        (λ current rest on le.
          int_option max_app_data_size inner outer oscore 27 current
            (block_value pkt.block1_num pkt.block1_more pkt.block1_size) rest q _
            (omega (arith, le)) (omega arith)
            (block_value-lt pkt.block1_num pkt.block1_more pkt.block1_size
              (ok.block1_fits (second inner _ on)))
            (rw (both inner (is_option 27 pkt.options) on) (
              rw
                (parse-int_value (block_value pkt.block1_num pkt.block1_more pkt.block1_size) (
                  block_value-lt pkt.block1_num pkt.block1_more pkt.block1_size
                    (ok.block1_fits (second inner _ on))))
                (ap parsed (
                  take_block1-block_value pkt.block1_num pkt.block1_more pkt.block1_size
                    (ok.block1_fits (second inner _ on)) (note_option 27 q))))))
        (omega arith)

  abbrev with_size2 : Packet → Bool → Packet
  with_size2 q sent = record q {
    options = if sent then set_option 28 q.options else q.options;
    size2 = if sent then pkt.size2 else q.size2;
  }

  pub size2_step :
      {w : Writer} {q : Packet}
      → Carries' 27 w q
      → Carries' 28 (write_int (ins 28) 28 pkt.size2 w) (with_size2 q (ins 28))
  unfolding take_option note_option
  size2_step {w} {q} =
      carry max_app_data_size inner outer oscore (ins 28) 28
        (λ current. serialize_int_option 28 current pkt.size2) start w (with_size2 q) 27
        (λ current rest on le.
          int_option max_app_data_size inner outer oscore 28 current pkt.size2 rest q _
            (omega (arith, le)) (omega arith) ok.size2_range
            (rw (both inner (is_option 28 pkt.options) on)
              (rw (parse-int_value pkt.size2 ok.size2_range) refl)))
        (omega arith)

  abbrev with_proxy_uri : Packet → Bool → Packet
  with_proxy_uri q sent = record q {
    options = if sent then set_option 35 q.options else q.options;
    proxy_uri = if sent then pkt.proxy_uri else q.proxy_uri;
  }

  pub proxy_uri_step :
      {w : Writer} {q : Packet}
      → q.proxy_uri ≡ []
      → Carries' 28 w q
      → Carries' 35
          (write_array (out 35) 35 pkt.proxy_uri 0 (behind 35) w)
          (with_proxy_uri q (out 35))
  unfolding take_option note_option merge_multi_option
  proxy_uri_step {w} {q} e =
      carry max_app_data_size inner outer oscore (out 35) 35
        (λ current. serialize_array_option 35 current pkt.proxy_uri 0 (behind 35)) start w
        (with_proxy_uri q) 28
        (λ current rest on le.
          whole_option max_app_data_size inner outer oscore 35 current pkt.proxy_uri rest
            (behind 35) q _ (omega (arith, le)) (omega arith) (omega (arith, ok.proxy_uri_length))
            (rw (both outer (is_option 35 pkt.options) on) (
              ap
                (λ t. parsed (record q {
                  options = set_option 35 q.options;
                  proxy_uri = merge_multi_option t pkt.proxy_uri 0;
                }))
                e)))
        (omega arith)

  abbrev with_size1 : Packet → Bool → Packet
  with_size1 q sent = record q {
    options = if sent then set_option 60 q.options else q.options;
    size1 = if sent then pkt.size1 else q.size1;
  }

  pub size1_step :
      {w : Writer} {q : Packet}
      → Carries' 35 w q
      → Carries' 60 (write_int (ins 60) 60 pkt.size1 w) (with_size1 q (ins 60))
  unfolding take_option note_option
  size1_step {w} {q} =
      carry max_app_data_size inner outer oscore (ins 60) 60
        (λ current. serialize_int_option 60 current pkt.size1) start w (with_size1 q) 35
        (λ current rest on le.
          int_option max_app_data_size inner outer oscore 60 current pkt.size1 rest q _
            (omega (arith, le)) (omega arith) ok.size1_range
            (rw (both inner (is_option 60 pkt.options) on)
              (rw (parse-int_value pkt.size1 ok.size1_range) refl)))
        (omega arith)

  abbrev with_echo : Packet → Bool → Packet
  with_echo q sent = record q {
    options = if sent then set_option 252 q.options else q.options;
    echo = if sent then pkt.echo else q.echo;
  }

  pub echo_step :
      {w : Writer} {q : Packet}
      → Carries' 60 w q
      → Carries' 252 (write_array (ins 252) 252 pkt.echo 0 (behind 252) w) (with_echo q (ins 252))
  unfolding take_option note_option
  echo_step {w} {q} =
      carry max_app_data_size inner outer oscore (ins 252) 252
        (λ current. serialize_array_option 252 current pkt.echo 0 (behind 252)) start w
        (with_echo q) 60
        (λ current rest on le.
          whole_option max_app_data_size inner outer oscore 252 current pkt.echo rest (behind 252) q
            _ (omega (arith, le)) (omega arith) (omega (arith, ok.echo_length))
            (rw (both inner (is_option 252 pkt.options) on) (
              let l : leb (length pkt.echo) 40 ≡ true = ground (arith, ok.echo_length) in
              rw l refl)))
        (omega arith)
