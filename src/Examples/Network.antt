-- ===== src/Examples/Network.antt =====
-- The theorems of the network's parts and of the stored presets, at small inputs.
use m5stack_core_s3se_dmx_co.Base.{
  ℕ, ◌+◌, ◌≡◌, ◌≤◌, true, false, some, List, [], ◌∷◌, ◌++◌, arith, refl, codes, replicate, All,
  ◌==◌, if◌then◌else◌,
}
use m5stack_core_s3se_dmx_co.Archive.{Gate}
use m5stack_core_s3se_dmx_co.Archive.Wire.{base64, unbase64}
use m5stack_core_s3se_dmx_co.Archive.Wire.Decoding.{IsByte, unbase64-base64}
use m5stack_core_s3se_dmx_co.Archive.Store.{Kv, Io, State, publish}
use m5stack_core_s3se_dmx_co.Archive.Store as Banked
use m5stack_core_s3se_dmx_co.Archive.Store.Banks.{HasBanks, publish-frame}
use m5stack_core_s3se_dmx_co.WireGuard.{fresh, ws_bytes}
use m5stack_core_s3se_dmx_co.WireGuard.Stream.{
  IsBounded, ws_reads, ws_bytes-append, ws_bytes-IsBounded,
}
use m5stack_core_s3se_dmx_co.SoftAp.{
  select_legacy, valid_password, text, find_nul, printable, Decision, no_credentials, select,
}
use m5stack_core_s3se_dmx_co.SoftAp.Usable.{IsUsable, select-IsUsable}
use m5stack_core_s3se_dmx_co.Wifi.{Phase, Reason, WifiBackend, WifiConfiguration, Work}
use m5stack_core_s3se_dmx_co.Wifi.Approval.{Event, KeepsNoSecret, handle, handle-KeepsNoSecret}
use m5stack_core_s3se_dmx_co.Wifi.Journal.{Key, Layout, Read, Store, Radio, execute}
use m5stack_core_s3se_dmx_co.Wifi.Journal.Recovery.{RemovesOnly, execute-stored}
use m5stack_core_s3se_dmx_co.Http.{Budget, max_rx_bytes, tx_limit}
use m5stack_core_s3se_dmx_co.Http.Sessions.{IsWithin, Piece, moves, moves-bounded}

bytes_of_piece : All IsByte (7 ∷ 200 ∷ [])
unfolding IsByte
bytes_of_piece = (omega arith, (omega arith, tt))

unbase64-base64_example : unbase64 (base64 (7 ∷ 200 ∷ [])) ≡ some (7 ∷ 200 ∷ [])
unbase64-base64_example = unbase64-base64 (7 ∷ 200 ∷ []) bytes_of_piece (omega arith) (omega arith)

abbrev frame : List ℕ
frame = 129 ∷ 129 ∷ 1 ∷ 2 ∷ 3 ∷ 4 ∷ []

ws_bytes-append_example : ws_bytes (frame ++ 65 ∷ []) fresh ≡ ws_reads frame (65 ∷ []) fresh
ws_bytes-append_example = ws_bytes-append frame (65 ∷ []) fresh

fresh-IsBounded : IsBounded fresh
unfolding IsBounded fresh
fresh-IsBounded = ground arith

ws_bytes-IsBounded_example : IsBounded (ws_bytes frame fresh).0
ws_bytes-IsBounded_example =
    ws_bytes-IsBounded frame fresh fresh-IsBounded
      (omega arith, (omega arith, (omega arith, (omega arith, (omega arith, (omega arith, tt))))))

-- A legacy blob: version 1, the name `A` and a password of eight letters.
abbrev old_blob : List ℕ
old_blob = 1 ∷ 0 ∷ 0 ∷ 0 ∷ 65 ∷ (replicate 32 0 ++ (codes "abcdefgh" ++ replicate 19 0))

abbrev mac : List ℕ
mac = 1 ∷ 2 ∷ 3 ∷ 4 ∷ 5 ∷ 6 ∷ []

old_blob-kept : (select (some old_blob) true false mac).0 ≡ Decision.keep
unfolding select select_legacy valid_password text find_nul printable replicate
old_blob-kept = refl

select-IsUsable_example : IsUsable (select (some old_blob) true false mac).1
select-IsUsable_example = select-IsUsable (some old_blob) true false mac old_blob-kept

abbrev pub network : WifiBackend ℕ
network = record {
  available = λ b. true;
  connected = λ g b. true;
  current = λ b. no_credentials;
  begin = λ c b. (true, b);
  progress = λ b. (Work.done, b);
  published = λ b. b;
}

abbrev configured : WifiConfiguration ℕ
configured = record {
  backend = 0;
  revision = 1;
  base = 1;
  request = 0;
  remaining_ms = 0;
  ssid = [];
  proposed = [];
  origin = 0;
  phase = Phase.idle;
  reason = Reason.no_reason;
  password_change = false;
  available = true;
  candidate = no_credentials;
  owner = 0;
  started = 0;
  initialized = true;
}

configured-KeepsNoSecret : KeepsNoSecret configured
unfolding KeepsNoSecret
configured-KeepsNoSecret h = refl

handle-KeepsNoSecret_example : KeepsNoSecret (handle network (Event.polling 5) configured)
handle-KeepsNoSecret_example =
    handle-KeepsNoSecret network (Event.polling 5) configured configured-KeepsNoSecret

-- A flash with the bytes of the credentials and of the journal.
abbrev two_keys : Store (List ℕ × List ℕ)
two_keys = record {
  read = λ key s. elim key [ Key.ap1 ↦ (Read.found, s.0) | Key.ap_try ↦ (Read.missing, s.1) ];
  write = λ key b s. elim key [ Key.ap1 ↦ (true, (b, s.1)) | Key.ap_try ↦ (true, (s.0, b)) ];
  remove = λ key s. elim key [ Key.ap1 ↦ (true, ([], s.1)) | Key.ap_try ↦ (true, (s.0, [])) ];
}

two_keys-RemovesOnly : RemovesOnly two_keys
unfolding RemovesOnly
two_keys-RemovesOnly s = refl

abbrev plain : Layout
plain = record {
  credential_bytes = λ c. c.ssid ++ c.pass;
  journal_bytes = λ j. j.previous;
  of_bytes = λ b. record {
    magic = 0;
    version = 0;
    previous_size = 0;
    previous = b;
    candidate = no_credentials;
    checksum = 0;
  };
  checksum = λ j. 0;
}

abbrev aerial : Radio ℕ
aerial = record {
  notify_and_retire = λ r. (true, r);
  apply = λ c r. (true, r);
  ready = λ r. (true, r);
  committed = λ c r. r;
}

abbrev flashed : List ℕ × List ℕ
flashed = (old_blob, [])

execute-stored_example :
    (((execute plain two_keys aerial no_credentials mac flashed 0).1.1 ≡ Work.done)
      → two_keys.read Key.ap1 (execute plain two_keys aerial no_credentials mac flashed 0).0
        ≡ (Read.found, plain.credential_bytes no_credentials))
    × (((execute plain two_keys aerial no_credentials mac flashed 0).1.1 ≡ Work.radio_error)
        → two_keys.read Key.ap1 (execute plain two_keys aerial no_credentials mac flashed 0).0
          ≡ two_keys.read Key.ap1 flashed)
execute-stored_example =
    execute-stored plain two_keys aerial no_credentials mac flashed 0 two_keys-RemovesOnly

abbrev fresh_budget : Budget
fresh_budget = record { opened = 0; received = 0; sent = 0; icon_response = false }

abbrev pieces : List Piece
pieces =
    record { now = 10; bytes = 2000; writing = false }
    ∷ record { now = 20; bytes = 100; writing = false }
    ∷ []

fresh_budget-IsWithin : IsWithin fresh_budget
unfolding IsWithin tx_limit
fresh_budget-IsWithin = (omega arith, omega arith)

moves-bounded_example :
    (0 + (moves pieces fresh_budget).1.0 ≤ max_rx_bytes)
    × (0 + (moves pieces fresh_budget).1.1 ≤ tx_limit fresh_budget)
moves-bounded_example = moves-bounded pieces fresh_budget fresh_budget-IsWithin

-- Two banks of bytes and a selector.
abbrev banks : Kv (List ℕ × List ℕ)
banks = record {
  selector = λ k. (Io.ok, 0);
  select = λ b k. (true, k);
  read = λ b k. (Io.ok, if b == 0 then k.0 else (if b == 1 then k.1 else []));
  write =
      λ b bytes k. (true, if b == 0 then (bytes, k.1) else (if b == 1 then (k.0, bytes) else k));
  erase = λ b k. (true, if b == 0 then ([], k.1) else (if b == 1 then (k.0, []) else k));
  commit = λ k. (true, k);
}

banks-HasBanks : HasBanks banks
banks-HasBanks = record {
  erase_other = λ a b k h. ground arith;
  write_other = λ a b bytes k h. ground arith;
  commit_all = λ b k. refl;
  select_all = λ a b k. refl;
}

abbrev held : Banked.Store
held = record { raw = []; selected = 0; state = State.active }

abbrev open_gate : Gate
open_gate = record { check = false }

publish-frame_example :
    banks.read 0 (publish banks open_gate true true (old_blob, []) held).0.0
    ≡ banks.read 0 (old_blob, [])
publish-frame_example =
    publish-frame banks open_gate true true (old_blob, []) held banks-HasBanks refl (omega arith)
