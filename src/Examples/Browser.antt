-- ===== src/Examples/Browser.antt =====
-- The theorems of the messages and connections of browsers, at small inputs.
use m5stack_core_s3se_dmx_co.Base.{
  ℕ, zero, suc, sym, ◌∙◌, ◌≡◌, ◌≤◌, ◌⊎◌, true, false, none, List, [], ◌∷◌, ◌++◌, arith, refl,
  length, codes, replicate, length-replicate, pos, bytes_eq,
}
use m5stack_core_s3se_dmx_co.Archive.Reader.{digits_loop, eat, number, number_at, space}
use m5stack_core_s3se_dmx_co.Command.{Command, CommandSource}
use m5stack_core_s3se_dmx_co.Connections.{Client, Connections, Metrics, is_live, no_client, place}
use m5stack_core_s3se_dmx_co.Connections.Server.{
  close, send_failed, count_failure, Operation, operate_all, receive, take_event,
}
use m5stack_core_s3se_dmx_co.Connections.Invariant.{
  IsClient, IsValid, active_count, no_client-IsClient,
}
use m5stack_core_s3se_dmx_co.Connections.Receive.{
  admitted, handed, queued, waiting, receive-waiting, take_event-queued,
}
use m5stack_core_s3se_dmx_co.Connections.Tokens.{operate_all-dead}
use m5stack_core_s3se_dmx_co.Examples.{desk}
use m5stack_core_s3se_dmx_co.Websocket.{Request, Token, no_request}
use m5stack_core_s3se_dmx_co.Websocket.Decode.{
  Decoded, body, complete, decode, message_of, request_of,
}
use m5stack_core_s3se_dmx_co.Websocket.Decode.Sound.{IsSound, decode-IsSound}
use m5stack_core_s3se_dmx_co.Websocket.Fields.{
  field, field_value, fields_loop, index_of, key_index, message_fields, no_fields, string,
  string_loop,
}

abbrev pub set_one : List ℕ
set_one = codes "{\"v\":1,\"id\":7,\"type\":\"channel.set\",\"channel\":1,\"value\":200}"

abbrev pub one_set : Request
one_set = record no_request {
  id = 7;
  command = record {
    command = Command.set_channel (record { channel = pos 1; value = pos 200 });
    source = CommandSource.external;
    request_id = 0;
  };
}

set_one-decoded : decode set_one ≡ Decoded.accepted one_set
unfolding decode request_of body complete message_of message_fields fields_loop field field_value
    index_of key_index string string_loop no_fields no_request bytes_eq space eat number number_at
    digits_loop replicate
set_one-decoded = refl

decode-IsSound_example : (1 ≤ length set_one) × (length set_one ≤ 256) × IsSound desk one_set
decode-IsSound_example = decode-IsSound desk set_one one_set set_one-decoded

-- A browser that is ready, in the first place, after its request 3.
abbrev pub browser : Client
browser = record no_client { generation = 1; last_id = 3; active = true; is_ready = true }

abbrev pub token : Token
token = record { generation = 1; slot = 0 }

abbrev no_count : Metrics
no_count = record {
  clients = 1;
  inbox = 0;
  inbox_high = 0;
  outbox_high = 0;
  accepted = 0;
  rejected = 0;
  applied = 0;
  broadcasts = 0;
  send_failures = 0;
  slow_closes = 0;
  opened = 1;
  closed = 0;
  outbox = 0;
  outstanding = 0;
  updates_enqueued = 0;
  updates_taken = 0;
  queue_full = 0;
  controller_events = 0;
  last_controller_revision = 0;
  first = none;
}

abbrev pub one_browser : Connections
one_browser = record {
  clients = browser ∷ no_client ∷ no_client ∷ no_client ∷ [];
  inbox = replicate 16 no_request;
  head = 0;
  count = 0;
  generation = 1;
  metrics = no_count;
  clock = 5;
}

browser-IsClient : IsClient 1 browser
unfolding no_client
browser-IsClient = record {
  size = refl;
  head_in = omega arith;
  count_in = omega arith;
  outstanding_in = omega arith;
  rate_in = λ h. omega arith;
  old = omega arith;
  numbered = λ h e. absurd (omega arith);
  closed = λ h. cc;
}

only_first : (i : ℕ) → (place i one_browser).active ≡ true → i ≡ 0
unfolding no_client
only_first zero h = refl
only_first (suc zero) h = cc
only_first (suc (suc zero)) h = cc
only_first (suc (suc (suc zero))) h = cc
only_first (suc (suc (suc (suc i)))) h = cc

pub one_browser-IsValid : IsValid one_browser
unfolding no_client active_count
one_browser-IsValid = record {
  places = refl;
  clients = (
    browser-IsClient,
    (no_client-IsClient 1, (no_client-IsClient 1, (no_client-IsClient 1, tt))),
  );
  inbox_size = length-replicate 16 no_request;
  head_in = omega arith;
  count_in = omega arith;
  generation_in = omega arith;
  distinct = λ i j p q e. only_first i p ∙ sym (only_first j q);
  counted = refl;
}

receive-waiting_example :
    waiting (receive token set_one 6 one_browser)
    ≡ waiting one_browser ++ admitted token set_one 6 one_browser
receive-waiting_example = receive-waiting one_browser one_browser-IsValid token set_one 6

take_event-queued_example :
    (queued 0 one_browser
      ≡ handed (take_event token one_browser).1 ++ queued 0 (take_event token one_browser).0)
    × ((take_event token one_browser).1 ≡ none
        → (is_live token one_browser ≡ false) ⊎ (queued 0 one_browser ≡ []))
take_event-queued_example = take_event-queued one_browser one_browser-IsValid token

-- Another browser in the same place, and the token of the first.
abbrev two_browsers : Connections
two_browsers = record one_browser {
  clients = record browser { generation = 2 } ∷ no_client ∷ no_client ∷ no_client ∷ [];
  generation = 2;
}

abbrev later : List Operation
later = Operation.closing (record { generation = 2; slot = 0 }) ∷ Operation.opening 9 ∷ []

token-dead : is_live token two_browsers ≡ false
unfolding is_live
token-dead = refl

operate_all-dead_example :
    let k = operate_all later two_browsers in
    (is_live token k ≡ false)
    × (close token k ≡ k)
    × (receive token set_one 6 k ≡ k)
    × (take_event token k ≡ (k, none))
    × (send_failed token k ≡ record k { metrics = count_failure k.metrics })
operate_all-dead_example =
    operate_all-dead later two_browsers token set_one 6 (omega arith) token-dead
