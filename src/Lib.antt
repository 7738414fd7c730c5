-- ===== src/Lib.antt =====
-- This library models parts of the KNX IoT stack, a CoAP and OSCORE stack for KNX devices written
-- in C, and proves what they do.
--
-- The program. A device runs one event loop. Messages come in from a port, are decrypted by OSCORE,
-- whose replay records (api/oc_replay.c) refuse sequence numbers that were received before, and are
-- parsed and answered by the CoAP engine (messaging/coap), which keeps open transactions for
-- confirmable messages and block-wise buffers (api/oc_blockwise.c) for payloads that need several
-- messages. A request that the scope of its access token allows (api/oc_knx_sec.c) is handled by a
-- resource of the device, such as the load state machine /a/lsm (api/oc_knx.c); the tables of group
-- objects (api/oc_knx_fp.c) say which resources a group message is for. Most of these keep their
-- records in linked lists and memory pools and wait on event timers; processes pass events (util).
--
-- The files and the code.
-- Prelude: names of the libraries passed on, tests on numbers, sequences measured by native
-- numbers, lists of records known by their addresses, and bit operations.
-- Access: of api/oc_knx_sec.c, whether a request may call a method of a resource: `check_acl` is
-- `oc_knx_sec_check_acl`. Masks has masks of bits, Grants the interfaces that have a method,
-- Protection what a request needs.
-- Replay: api/oc_replay.c. `check_client`, `add_client` and `free_client` are the functions
-- `oc_replay_check_client`, `oc_replay_add_client` and `oc_replay_free_client` on the array of
-- records; `check_record` is the part of the check behind the lookup. Window states its verdicts,
-- Store its runs, Records the table. Messages models the table of tracked messages of the same
-- file.
-- Base64: api/oc_base64.c. `encode` and `decode` are `oc_base64_encode` and `oc_base64_decode`.
-- Lengths are taken to fit in an int. Stream is the decoder with its input and output apart, Masks
-- and Blocks have its arithmetic, RoundTrip has the theorem.
-- Endpoint: the comparison `oc_endpoint_compare` of api/oc_endpoint.c, for IPv6.
-- Blockwise: api/oc_blockwise.c. `alloc_request_buffer`, `alloc_response_buffer`, `scrub_buffers`,
-- `dispatch_block` and `handle_block` are the functions of those names with the prefix
-- oc_blockwise_; `scrub_buffers` acts on one of the two lists, and Store has both. Blocks relates
-- the two ends to an abstract receiver, Transfer runs them against each other, Lists has allocation
-- and lookup.
-- Coap.Options: of messaging/coap/coap.c, the option headers (`coap_set_option_header` and the
-- start of the loop of `coap_oscore_parse_options`) and the integer options
-- (`coap_serialize_int_option`, `coap_parse_int_option`).
-- Coap.Packet: `coap_packet_t` and its map of options. Coap.Parse: `coap_udp_parse_message` and the
-- loop of `coap_oscore_parse_options`; `take_option` is its `switch`. Loop has one round and the
-- fuel, Ends the end of the loop, Critical the options that are refused, Errors the codes.
-- Coap.Serialize: `coap_oscore_serialize_message`, `coap_serialize_options` with the macros
-- COAP_SERIALIZE_*_OPTION, and `coap_serialize_array_option`; Parts has the texts that are split.
-- Coap.OscoreOption: `coap_parse_oscore_option` and `coap_serialize_oscore_option` of
-- messaging/coap/oscore.c; a write or a read past the end of a buffer is a result of its own.
-- Coap.RoundTrip puts the two ends together: Steps simulates one option, Fields each option in
-- turn, Options all of them, Messages the header and the payload, Marks the map.
-- Coap.Transactions: messaging/coap/transactions.c, one definition for each function. Calls into
-- other components are recorded in the state; what the application does to the list of transactions
-- when the callbacks of a message are freed is an argument, and the loops start again as the code
-- does when it removed some. Table has the list, Walk the check of every transaction, Endpoints
-- what happens for one endpoint, Expiry what one timeout does, Schedule the retransmissions.
-- GroupTables: the tables of group objects and recipients of api/oc_knx_fp.c. Visits is the loop of
-- a client (api/oc_knx_client.c) over the entries with a group address, Recipients the new entries
-- and the check of the addresses of a recipient.
-- LinkedList: util/oc_list.c over a memory of words. Chains says what a memory holds, Refine and
-- Ends have the operations on sequences, Blocks the addition of a block.
-- EventTimers: util/oc_timer.c and util/oc_etimer.c. Time has the arithmetic of the clock, Poll the
-- process, whose readings of the clock are a sequence.
-- LoadState: the load state machine in api/oc_knx.c: `a_lsm_post_handler` is
-- `oc_core_a_lsm_post_handler`, `lsm_event_to_state` is `oc_lsm_event_to_state`. Machine is the
-- automaton of one device, Handlers the answers.
-- Process: util/oc_process.c. Events is the ring of events of `oc_process_post`, with its growth
-- and its refinement to a sequence; Process has the list of processes, `call_process`,
-- `exit_process`, `do_poll`, `do_event` and `oc_process_run`, with the threads as an argument;
-- Delivery states what a sequence of runs dispatches.
-- MemoryBlocks: util/oc_memb.c, with Blocks for allocation and freeing.
-- Text: texts of identifiers, bytes and numbers. Text.Uuid is api/oc_uuid.c; Text.Hex and
-- Text.Numbers are the conversions `oc_conv_*` of api/oc_helpers.c, whose `sscanf` and `printf` are
-- those of the C standard.
--
-- State is passed explicitly, as records of lists; machine words are native numbers with their
-- wrap-around written out; a text or an array is the list of its elements; a pointer to a record is
-- its address or its index. Where C leaves a result undefined, the model has a value for it.
--
-- Bounds and fuel. The loops over links of LinkedList take fuel, and the theorems ask for one unit
-- more than there are items, or as many. A poll of the event timers takes one unit of fuel more
-- than there are timers, since each walk but the last removes one. The loops over the transactions
-- go by address and count a start from the head as a round; one round more than there are
-- transactions is enough while the application leaves the list alone. The loop over the options of
-- a message takes one unit more than the message has bytes, and is proved to end with it. The
-- scheduler takes fuel for its loops and for the depth of the calls; twice the length of the list
-- of processes and one more is enough while no process exits. A visit of the entries with a group
-- address takes one round more than the table has entries. A decimal text counts at most 20 digits,
-- as many as a number of 64 bits has. All other loops are structural.
--
-- What is not modelled. Ports, cryptography and TLS are input, output and libraries. The message
-- engine, observers, the TCP framing, the encryption of OSCORE messages, CBOR, the storage of the
-- KNX tables and the other resources are not modelled. Debug output has no effect and is left
-- out. Allocation inside the models succeeds or fails as an argument says.
pub mod Access
pub mod Base64
pub mod Blockwise
pub mod Coap
pub mod Endpoint
pub mod EventTimers
pub mod GroupTables
pub mod LinkedList
pub mod LoadState
pub mod MemoryBlocks
pub mod Prelude
pub mod Process
pub mod Replay
pub mod Text
