-- ===== src/Examples/Turns.antt =====
-- The theorems of the bridge, at small inputs.
use m5stack_core_s3se_dmx_co.Base.{
  take, ◌<◌, ℕ, ◌≡◌, ◌≢◌, ◌≤◌, Bool, true, false, none, some, List, [], ◌∷◌, ◌++◌, arith, refl,
  codes, replicate, length-replicate, length, ltb, ◌&&◌, pos,
}
use m5stack_core_s3se_dmx_co.Bridge.Answers.{finish-answers}
use m5stack_core_s3se_dmx_co.Bridge.Bounds.{Within}
use m5stack_core_s3se_dmx_co.Bridge.Reads.{Brings, archive_request-in_buffer}
use m5stack_core_s3se_dmx_co.Connections.Invariant.{IsValid}
use m5stack_core_s3se_dmx_co.Bridge.Flight.{Same, owner_poll-Same}
use m5stack_core_s3se_dmx_co.Bridge.Poll.{finish, owner_poll}
use m5stack_core_s3se_dmx_co.Bridge.Transfer.{archive_request}
use m5stack_core_s3se_dmx_co.Command.{CommandStatus}
use m5stack_core_s3se_dmx_co.Controller.Types.{Result}
use m5stack_core_s3se_dmx_co.Dispatcher.Types.{DispatchResult}
use m5stack_core_s3se_dmx_co.Websocket.{Event, Kind, no_event}
use m5stack_core_s3se_dmx_co.Websocket.Encode.{encode, is_archive, pieces}
use m5stack_core_s3se_dmx_co.Websocket.Encode.Whole.{encode-whole, joined}
use m5stack_core_s3se_dmx_co.Websocket.Fields.Fuel.{fields_loop-agrees, fueled, fueled-round, round}
use m5stack_core_s3se_dmx_co.Bridge.{Bridge, Interfaces}
use m5stack_core_s3se_dmx_co.Bridge.Valid
use m5stack_core_s3se_dmx_co.Bridge.Turns.{Turn, run_turns, run_turns-IsSound}
use m5stack_core_s3se_dmx_co.Connections.{is_live, no_client, place}
use m5stack_core_s3se_dmx_co.Connections.Server.{Operation}
use m5stack_core_s3se_dmx_co.Connections.Receive.{queued}
use m5stack_core_s3se_dmx_co.Examples.{flash, idle_dispatcher}
use m5stack_core_s3se_dmx_co.Examples.Browser.{
  one_browser, one_browser-IsValid, one_set, set_one, token,
}
use m5stack_core_s3se_dmx_co.Examples.Device.{blank, defaults, prompt}
use m5stack_core_s3se_dmx_co.Examples.Network.{network}
use m5stack_core_s3se_dmx_co.Websocket.{Request, no_request}
use m5stack_core_s3se_dmx_co.Websocket.Fields.{fields_loop, no_fields}

abbrev interfaces : Interfaces Bool ℕ ℕ ℕ
interfaces = record { store = flash; settings = blank; maintenance = prompt; wifi = network }

-- The bridge of a device with settings and no more.
abbrev bridge : Bridge Bool ℕ ℕ ℕ ℕ
bridge = record {
  connections = one_browser;
  dispatcher = idle_dispatcher;
  settings = some defaults;
  maintenance = none;
  wifi = none;
  flight = no_request;
  in_flight = false;
  sender = false;
  internal_id = 0;
  sequence = 0;
  presets = replicate 8 0;
  presets_ready = false;
  archive = record {
    buffer = [];
    mode = 0;
    count = 0;
    owner = 0;
    token = 0;
    counter = 0;
    total = 0;
    received = 0;
    started = 0;
    touched = 0;
    base = 0;
  };
  wifi_revision = 0;
  maintenance_revision = 0;
  settings_revision = 0;
}

abbrev turns : List Turn
turns =
    Turn.serving (Operation.receiving token set_one 6)
    ∷ Turn.polling true
    ∷ Turn.serving (Operation.taking token)
    ∷ []

run_turns-IsSound_example : Valid.IsSound (run_turns interfaces turns bridge)
run_turns-IsSound_example =
    run_turns-IsSound interfaces turns bridge (record { connections = one_browser-IsValid })

-- A browser asks for the first bytes of an export of 100.
abbrev data_request : Request
data_request = record no_request { archive = 2; archive_token = 5; token = token; id = 4 }

abbrev exporting : Bridge Bool ℕ ℕ ℕ ℕ
exporting = record bridge {
  archive = record bridge.archive {
    buffer = replicate 32768 0;
    mode = 1;
    owner = token.generation;
    token = 5;
    total = 100;
  };
}

exporting-Within : Within 32768 exporting
exporting-Within = record {
  archive = record {
    size = length-replicate 32768 0;
    total_in = omega arith;
    received_in = omega arith;
  };
}

not_announced : data_request.archive ≡ 3 → data_request.archive_total ≤ 32768
not_announced e = omega arith

archive_request-in_buffer_example :
    let out = (archive_request interfaces data_request exporting).0 in
    Within 32768 out
    × (IsValid one_browser
        → is_live token one_browser ≡ true
        → (place 0 one_browser).count ≢ 8
        → data_request.archive ≡ 2
        → (e : Event) × (queued 0 out.connections ≡ queued 0 one_browser ++ e ∷ [])
          × (e.archive_length ≢ 0 → Brings exporting e))
archive_request-in_buffer_example =
    archive_request-in_buffer 32768 interfaces data_request exporting exporting-Within not_announced

abbrev flying : Bridge Bool ℕ ℕ ℕ ℕ
flying = record bridge { in_flight = true; flight = record one_set { token = token } }

owner_poll-Same_example : Same flying (owner_poll interfaces true flying)
owner_poll-Same_example = owner_poll-Same interfaces true flying refl

abbrev applied : DispatchResult
applied = record {
  status = CommandStatus.applied;
  domain = Result.ok;
  ticket = 1;
  revision_before = 0;
  revision_after = 1;
  transport_result = pos 0;
}

token-live : is_live token one_browser ≡ true
unfolding is_live
token-live = refl

queue-free : (place 0 one_browser).count ≢ 8
unfolding no_client
queue-free e = absurd (omega arith)

finish-answers_example :
    ((finish interfaces applied flying).in_flight ≡ false)
    × ((e : Event) × (queued 0 (finish interfaces applied flying).connections
          ≡ queued 0 one_browser ++ e ∷ [])
        × (e.id ≡ 7)
        × (e.result ≡ CommandStatus.applied)
        × (e.kind ≡ Kind.ack))
unfolding no_request
finish-answers_example =
    finish-answers interfaces applied flying one_browser-IsValid token-live queue-free refl

fields_loop-agrees_example :
    let s = codes "\"v\":1}" in
    (fueled no_fields s ≡ round fueled no_fields s)
    × (fields_loop 1000 no_fields s ≡ fueled no_fields s)
fields_loop-agrees_example =
    fields_loop-agrees fueled fueled-round 1000 no_fields (codes "\"v\":1}") (omega arith)

abbrev hello : Event
hello = record no_event { kind = Kind.hello; id = 3 }

abbrev array : List ℕ
array = replicate 256 0

array-nonempty : length array ≢ 0
array-nonempty e = absurd (omega (arith, length-replicate {A = ℕ} 256 0))

encode-whole_example :
    let (n, bytes) = encode hello array in
    let text = joined (pieces hello) in
    let too_large = is_archive hello.kind && ltb 512 hello.archive_length in
    (length bytes ≡ length array)
    × (too_large ≡ true → (n ≡ 0) × (bytes ≡ array))
    × (too_large ≡ false → length text < length array → (n ≡ length text) × (take n bytes ≡ text))
    × (too_large ≡ false → length array ≤ length text → n ≡ 0)
encode-whole_example = encode-whole hello array array-nonempty
