-- ===== src/Lib.antt =====
-- The DMX controller of the M5Stack CoreS3 SE: its core logic, without the display and the vendor drivers.
--
-- Commands of the touch panel and of the network wait in the queue of the dispatcher, which checks them and
-- carries them out on the controller. The controller keeps the universe of 512 channels, blackout and eight
-- presets; its packets are staged in the transport, which sends them through a driver. Around this stand the
-- settings of the device, its restart and power-off, the configuration of the access point, and what guards
-- the connections of browsers.
--
-- Base: arrays as lists, the window of a ring buffer, integers, and words of 8, 32 and 64 bits, whose
--   wrap-around is written out.
-- Command: include/controller_types.h. The type of a command and the member of its union are one data type.
-- Controller: src/dmx_controller.h and .cpp. `reset`, `set_channel` (`setChannel`), `adjust_channel`,
--   `set_channels`, `set_blackout`, `output_packet`; Presets has `load_preset`, `save_preset`, `copy_preset`,
--   `clear_preset`, `capture_archive`, `stage_archive`, `replace_archive`. The storage adapter is a parameter;
--   the observer is the list of the changes that it was told, newest first.
-- Dispatcher: src/command_dispatcher.h and .cpp. `submit`, `process`, `execute_local` (`executeLocal`),
--   `apply`; Rules has its checks. The callbacks are parameters. The rounds of `process` are the budget, held
--   to the capacity of 32, as in the code.
-- Archive: include/preset_archive.h, with the reader of JSON, the parser, and in Wire the serializer and base
--   64; Store is include/preset_archive_store.h, over a key-value memory that is a parameter. The loops of the
--   parser run on fuel that is the length of the text, since each round takes a character.
-- Transport: src/dmx_transport.h and .cpp. `stage`, `request_sender`, `poll`, `service_tx`; the driver is a
--   parameter.
-- Settings: include/device_settings.h. `begin`, `set`, `edit`, `service_preview`, `commit_pending`.
-- Maintenance: include/device_maintenance.h. `request`, `cancel`, `ask_local` (`local`), `poll`.
-- WireGuard: include/websocket_wire.h. `http_bytes` and `ws_bytes`, byte by byte.
-- SoftAp: src/softap_policy.cpp. `select`, `factory`, and in Stations the set of stations.
-- Wifi: include/wifi_configuration.h; Journal is include/wifi_credential_transaction.h, with the flash memory,
--   the radio and the byte layout of its records as parameters.
-- Http: src/http_policy.cpp, less `assetResponse`, which looks up generated files.
-- DoubleTap: include/preset_double_tap.h.
-- TxCore: patches/esp_dmx_v202/tx_core.h, the phases of one frame; its clock and counters are natural numbers.
-- Pump: include/websocket_pump.h; Wifi/Wire: include/wifi_wire.h and include/status_ssid.h;
--   Maintenance/Adapter: include/maintenance_transport.h.
-- PresetStore: src/preset_store.h, over the memory that Archive/Store takes as a parameter.
-- Websocket: include/websocket_bridge.h, the messages of browsers; Fields and Decode are `decode` of
--   src/websocket_protocol.cpp. Its loop runs on fuel that is the length of the message, since each round takes
--   a character. Names and Encode are `encode` there, with numbers of at most 20 digits.
--   The array that it writes to is a list of its bytes; `vsnprintf` writes what leaves room for a zero, and the zero.
-- Connections: src/websocket_bridge.cpp, what its lock protects; in Server `open_client` (`open`), `close`,
--   `receive`, `take_event` (`take`), `send_failed`. Each operation is one step, and the clock stands still in it.
-- Bridge: src/websocket_bridge.cpp, what the application task does: `owner_poll` (`ownerPoll`), in the files
--   Publish, Requests and Transfer, and `completed`, which is a step of its own. A turn is one step too, though
--   the lock is held for parts of it only. The buffer of a transfer is a list of its bytes; the one thing that is
--   not written to it is the part of a text that does not fit, which nothing reads.
-- Examples: small concrete instances of the parameters, on which the theorems are tried.
--
-- Not modelled: the display (src/view_sender.h, src/src.cpp), the network tasks (src/network_service.cpp), the
-- sockets (src/websocket_service.cpp), the recorders of measurements, the adapters of the vendor's drivers, and
-- the web pages, which draw, measure or call libraries that are not part of the repository.
pub mod Base
pub mod Archive
pub mod Command
pub mod Controller
pub mod Dispatcher
pub mod Transport
pub mod Settings
pub mod Maintenance
pub mod WireGuard
pub mod SoftAp
pub mod DoubleTap
pub mod Wifi
pub mod Http
pub mod Websocket
pub mod Connections
pub mod Bridge
pub mod TxCore
pub mod Pump
pub mod PresetStore
pub mod Examples
