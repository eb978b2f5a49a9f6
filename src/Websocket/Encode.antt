-- ===== src/Websocket/Encode.antt =====
-- src/websocket_protocol.cpp: `encode`, the writer of events as JSON, as the pieces that it adds one by one. The numbers have
-- at most 64 bits, and so at most 20 digits.
pub mod Whole
use m5stack_core_s3se_dmx_co.Base.{
  ℕ, zero, suc, ◌+◌, ◌-◌, not, Bool, true, false, Option, none, some, List, [], ◌∷◌, ◌++◌, length,
  take, get_or, codes, ◌==◌, ltb, leb, ◌||◌, ◌&&◌, if◌then◌else◌,
}
use m5stack_core_s3se_dmx_co.Archive.Wire.{base64, digits}
use m5stack_core_s3se_dmx_co.Bridge.Transfer.{splice}
use m5stack_core_s3se_dmx_co.Settings.{SettingsEdit}
use m5stack_core_s3se_dmx_co.SoftAp.{c_string}
use m5stack_core_s3se_dmx_co.Websocket.{Event, Kind}
use m5stack_core_s3se_dmx_co.Websocket.Names.{
  action_name, edit_name, kind_name, maintenance_phase, maintenance_reason, maintenance_status,
  origin_name, setting_name, settings_status, status_name, truth, wifi_phase, wifi_reason,
  wifi_status,
}

-- `Writer`, with the array that it writes to; its length is the capacity.
pub record Writer : Type 0 where
  pub bytes : List ℕ
  pub used : ℕ
  pub ok : Bool

-- `vsnprintf` of a text into the array from a place on: what leaves room for a zero, and the zero.
pub print : List ℕ → ℕ → List ℕ → List ℕ
unfolding splice
print piece used bytes =
    let room = length bytes - used in
    if room == 0 then bytes else splice used (take (room - 1) piece ++ 0 ∷ []) bytes

pub add : List ℕ → Writer → Writer
unfolding print
add piece w =
    let w1 : Writer = record w { bytes = print piece w.used w.bytes } in
    if not w.ok
    then w
    else if leb (length w.bytes - w.used) (length piece)
    then record w1 { ok = false }
    else record w1 { used = w.used + length piece }

pub add_all : List (List ℕ) → Writer → Writer
unfolding add
add_all [] w = w
add_all (p ∷ ps) w = add_all ps (add p w)

-- `%lu`, `%llu` and `%u`
pub decimal : ℕ → List ℕ
decimal value = digits 20 value

-- A piece with a text, a number or a truth value between others.
abbrev named : List ℕ → List ℕ → List ℕ
named label value = codes ",\"" ++ label ++ codes "\":\"" ++ value ++ codes "\""

abbrev numbered : List ℕ → ℕ → List ℕ
numbered label value = codes ",\"" ++ label ++ codes "\":" ++ decimal value

abbrev told : List ℕ → Bool → List ℕ
told label value = codes ",\"" ++ label ++ codes "\":" ++ truth value

-- What every event begins with.
pub head : Event → List ℕ
unfolding decimal
head e =
    codes "{\"v\":1,\"type\":\""
    ++ kind_name e.kind
    ++ codes "\""
    ++ numbered (codes "id") e.id
    ++ named (codes "revision") (decimal e.revision)
    ++ named (codes "seq") (decimal e.sequence)

-- The pieces of a text between quotation marks.
pub quoted : List ℕ → List (List ℕ)
quoted [] = []
quoted (c ∷ s) =
    (if c == b'"' || c == 92 then (92 ∷ []) ∷ (c ∷ []) ∷ [] else (c ∷ []) ∷ []) ++ quoted s

-- The pieces of a list of numbers, from the place `i` on.
pub elements : ℕ → List ℕ → List (List ℕ)
unfolding decimal
elements i [] = []
elements i (v ∷ vs) = ((if i == 0 then [] else codes ",") ++ decimal v) ∷ elements (i + 1) vs

pub archive_pieces : Event → List (List ℕ)
unfolding head decimal
archive_pieces e =
    (head e
      ++ named (codes "status") (elim e.reason [ none ↦ codes "invalid" | some reason ↦ reason ])
      ++ numbered (codes "token") e.archive_token
      ++ numbered (codes "offset") e.archive_offset
      ++ numbered (codes "bytes") e.archive_total
      ++ numbered (codes "count") e.archive_count
      ++ named (codes "data") (base64 (take e.archive_length e.values))
      ++ codes "}")
    ∷ []

pub wifi_pieces : Event → List (List ℕ)
unfolding head decimal quoted
wifi_pieces e =
    let c = e.wifi in
    (head e ++ named (codes "base") (decimal c.base) ++ codes ",\"ssid\":")
    ∷ ((codes "\"" ∷ quoted (c_string c.ssid))
        ++ (codes "\"" ∷ codes ",\"proposed\":" ∷ codes "\"" ∷ [])
        ++ quoted (c_string c.proposed)
        ++ (codes "\""
            ∷ (named (codes "origin") (origin_name c.origin)
                ++ named (codes "phase") (wifi_phase c.phase)
                ++ named (codes "reason") (wifi_reason c.reason)
                ++ numbered (codes "request") c.request
                ++ numbered (codes "remaining_ms") c.remaining_ms
                ++ told (codes "password_change") c.password_change
                ++ told (codes "available") c.available)
            ∷ [])
        ++ (elim e.kind [
          | Kind.wifi_result ↦ named (codes "status") (wifi_status e.wifi_result) ∷ []
          | _ ↦ []
        ])
        ++ (codes "}" ∷ []))

pub maintenance_pieces : Event → List (List ℕ)
unfolding head decimal
maintenance_pieces e =
    let s = e.maintenance in
    (head e
      ++ named (codes "action") (action_name s.action)
      ++ named (codes "phase") (maintenance_phase s.phase)
      ++ numbered (codes "request") s.request
      ++ named (codes "reason") (maintenance_reason s.reason)
      ++ numbered (codes "remaining_ms") s.remaining_ms)
    ∷ ((elim e.kind [
      | Kind.maintenance_result ↦
          named (codes "status") (maintenance_status e.maintenance_result) ∷ []
      | _ ↦ []
    ])
        ++ (codes "}" ∷ []))

-- What a result has about the preview that it is for.
edit_pieces : Event → List (List ℕ)
unfolding decimal
edit_pieces e = elim e.settings_edit [
  | SettingsEdit.none_asked ↦ []
  | edit ↦
      (named (codes "phase") (edit_name edit) ++ numbered (codes "gesture") e.settings_gesture) ∷ []
]

pub settings_pieces : Event → List (List ℕ)
unfolding head decimal edit_pieces
settings_pieces e =
    (head e
      ++ numbered (codes "brightness") (get_or e.values 0 0)
      ++ numbered (codes "timeout") (get_or e.values 1 0)
      ++ numbered (codes "volume") (get_or e.values 2 0)
      ++ numbered (codes "persisted") e.domain)
    ∷ ((elim e.kind [
      | Kind.settings_result ↦
          (named (codes "setting") (setting_name e.setting)
            ++ named (codes "status") (settings_status e.settings_result))
          ∷ edit_pieces e
      | _ ↦ []
    ])
        ++ (codes "}" ∷ []))

-- The levels and the states of the presets.
level_pieces : Event → List (List ℕ)
unfolding elements
level_pieces e =
    (codes ",\"values\":[" ∷ elements 0 (take 512 e.values))
    ++ (codes "],\"presets\":[" ∷ elements 0 (take 8 e.presets))
    ++ (codes "]" ∷ [])

-- What a state or an update has besides its head.
state_pieces : Event → List (List ℕ)
unfolding decimal level_pieces
state_pieces e =
    (told (codes "blackout") e.blackout ++ told (codes "sender") e.sender)
    ∷ (numbered (codes "loaded") e.loaded ++ told (codes "modified") e.modified)
    ∷ (elim e.kind [
      | Kind.channel ↦
          (numbered (codes "channel") e.channel ++ numbered (codes "value") e.value) ∷ []
      | Kind.snapshot ↦ level_pieces e
      | Kind.universe ↦ level_pieces e
      | _ ↦ []
    ])

-- What an answer to a command has besides its head.
answer_pieces : Event → List (List ℕ)
unfolding decimal
answer_pieces e =
    (named (codes "status") (status_name e.result) ++ numbered (codes "domain") e.domain)
    ∷ (elim e.reason [ none ↦ [] | some reason ↦ named (codes "reason") reason ∷ [] ])

-- An event about the controller.
pub controller_pieces : Event → List (List ℕ)
unfolding head state_pieces answer_pieces
controller_pieces e =
    head e
    ∷ ((elim e.kind [
      | Kind.hello ↦
          codes ",\"channels\":512,\"max_message\":256,\"max_clients\":4,\"max_outstanding\":4" ∷ []
      | Kind.ack ↦ answer_pieces e
      | Kind.error ↦ answer_pieces e
      | _ ↦ state_pieces e
    ])
        ++ (codes "}" ∷ []))

pub pieces : Event → List (List ℕ)
unfolding archive_pieces wifi_pieces maintenance_pieces settings_pieces controller_pieces
pieces e = elim e.kind [
  | Kind.archive_result ↦ archive_pieces e
  | Kind.wifi_snapshot ↦ wifi_pieces e
  | Kind.wifi_update ↦ wifi_pieces e
  | Kind.wifi_result ↦ wifi_pieces e
  | Kind.maintenance_snapshot ↦ maintenance_pieces e
  | Kind.maintenance_update ↦ maintenance_pieces e
  | Kind.maintenance_result ↦ maintenance_pieces e
  | Kind.settings_snapshot ↦ settings_pieces e
  | Kind.settings_update ↦ settings_pieces e
  | Kind.settings_result ↦ settings_pieces e
  | _ ↦ controller_pieces e
]

abbrev pub is_archive : Kind → Bool
is_archive Kind.archive_result = true
is_archive _ = false

-- `encode`: the length that is returned, and the array, which is written to even where 0 is returned.
pub encode : Event → List ℕ → ℕ × List ℕ
unfolding add_all pieces
encode e out =
    if is_archive e.kind && ltb 512 e.archive_length
    then (0, out)
    else let w = add_all (pieces e) (record { bytes = out; used = 0; ok = true }) in
      (if w.ok then w.used else 0, w.bytes)
