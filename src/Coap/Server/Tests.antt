-- ===== src/Coap/Server/Tests.antt =====
-- Runs of the server on a confirmable GET that comes twice.
use shark_socket.Base.{
  ℕ, ◌+◌, ◌*◌, ◌%◌, ◌^◌, ◌≤◌, ◌≡◌, refl, Bool, true, false, Option, none, some, List, [], ◌∷◌,
  length, replicate, arith,
}
use shark_socket.Base.Maps.{lookup, insert}
use shark_socket.Coap.Message.{
  parse, marshal, parse_options, parse_loop, parse_option, decode_option_header,
  read_option_extended, encode_options, encode_option, encode_option_header, encode_extended_field,
  ack, first_byte, sorted_option_nums,
}
use shark_socket.Coap.Observe.{Text, empty_registry, subs_of, observer_key}
use shark_socket.Coap.Server.{
  Exchange, Server, Service, PluginAnswer, passes, Handling, responder, handle_coap_message,
  encode_observe_seq,
}
use shark_socket.Coap.Server.Bounds.{runs_of, recorded}
use shark_socket.Coap.Server.Once.{Datagram, handle_all, handle_all_once}
use shark_socket.Coap.Server.Fetch.{fetch, fetch_whole}

abbrev new_server : Server
new_server = record { observers = empty_registry; pending = []; seen = [] }

abbrev echo : Service
echo = record {
  on_message = λ payload. passes payload;
  handling = responder (λ payload. some payload);
  max_block_size = 0;
}

-- CON GET 0x1234 with a payload of one byte, no token.
abbrev get_once : List ℕ
get_once = 0x40 ∷ 1 ∷ 0x12 ∷ 0x34 ∷ 0xff ∷ 65 ∷ []

abbrev peer : Text
peer = b'p' ∷ []

abbrev twice : List Datagram
twice = (false, peer, get_once) ∷ (false, peer, get_once) ∷ []

handle_all_once_example :
    runs_of (peer, 0x1234) (handle_all echo twice new_server).1 + recorded (peer, 0x1234) new_server
    ≤ 1
handle_all_once_example = handle_all_once (peer, 0x1234) echo twice new_server

-- The handler ran, and both datagrams were answered.
one_run : runs_of (peer, 0x1234) (handle_all echo twice new_server).1 ≡ 1
unfolding handle_all runs_of handle_coap_message shark_socket.Coap.Server.exchange_beq parse marshal
    lookup insert shark_socket.Base.Maps.text_beq parse_options parse_loop parse_option
    decode_option_header read_option_extended encode_options encode_option encode_option_header
    encode_extended_field ack first_byte sorted_option_nums subs_of observer_key
one_run = refl

answered : length (handle_all echo twice new_server).1 ≡ 3
unfolding handle_all runs_of handle_coap_message shark_socket.Coap.Server.exchange_beq parse marshal
    lookup insert shark_socket.Base.Maps.text_beq parse_options parse_loop parse_option
    decode_option_header read_option_extended encode_options encode_option encode_option_header
    encode_extended_field ack first_byte sorted_option_nums subs_of observer_key
answered = refl

abbrev page : List ℕ
page = replicate 40 9

-- 40 bytes in blocks of 16, which is the server's limit; the client starts with 64.
fetch_whole_example : fetch 40 0 2 page (2 ^ (0 + 4)) ≡ some page
fetch_whole_example = fetch_whole page 0 2 (omega arith) (omega arith) (omega arith) (omega arith)
