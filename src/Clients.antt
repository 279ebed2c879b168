-- ===== src/Clients.antt =====
-- Serial.cpp (Grbl_Esp32/src): how received bytes are shared out. `clientCheckTask` takes them from
-- the serial port, the web UI, telnet and Bluetooth, acts on the realtime characters and puts the
-- others into the client's receive buffer, which `client_read` empties. All interfaces
-- and the SD card are compiled in. One turn of the task's inner loop is one call here;
-- the pieces around `client_buffer[...]` that lock a mutex are atomic steps.
pub mod Stream
mod Tests
use grbl_esp.Base.{
  ℕ, zero, suc, ◌+◌, ◌-◌, ◌*◌, ◌/◌, ◌%◌, ◌^◌, ◌≤◌, ◌<◌, min, max, ◌≡◌, refl, sym, ap, ap₂, ◌∙◌, ◌≢◌,
  ◌↔◌, ◌⊎◌, inl, inr, Bool, true, false, not, ◌&&◌, ◌||◌, Option, none, some, List, [], ◌∷◌, ◌++◌,
  map, append-nil, append_assoc, arith, ltb, leb, ◌==◌, if◌then◌else◌, ltb→lt, lt→ltb, leb→le,
  ==_iff, tests, Bool-cases, Option-cases, length, get_elem?, set, length-append, length-set,
  get_elem?-set_self, get_elem?-set_ne, get_or, take, drop, replicate, take-append-drop,
  length-take, length-drop, length-replicate, length-map,
}
use grbl_esp.InputBuffer
use grbl_esp.InputBuffer.{InputBuffer}
use grbl_esp.System.{System}
use grbl_esp.Subsystems.{Subsystems}
use grbl_esp.Serial.{is_realtime_command, execute_realtime_command}

-- Report.h
abbrev pub client_serial : ℕ
client_serial = 0

abbrev pub client_bt : ℕ
client_bt = 1

abbrev pub client_webui : ℕ
client_webui = 2

abbrev pub client_telnet : ℕ
client_telnet = 3

abbrev pub client_input : ℕ
client_input = 4

abbrev pub client_all : ℕ
client_all = 0xFF

abbrev pub client_count : ℕ
client_count = 5

-- the bytes that wait at each source; `bt_connected` is `SerialBT.hasClient()`
pub record Sources : Type 0 where
  pub uart : List ℕ
  pub input : List ℕ
  pub bt : List ℕ
  pub bt_connected : Bool
  pub web : List ℕ
  pub telnet : List ℕ

abbrev empty_buffer : InputBuffer
empty_buffer = record { rx_buffer = []; size = 0; pos = 0 }

-- `client_buffer[client]`
abbrev pub client_buffer : List InputBuffer → ℕ → InputBuffer
client_buffer buffers client = get_or buffers client empty_buffer

abbrev pub telnet_char : Sources → Option (ℕ × ℕ × Sources)
telnet_char src = elim src.telnet [
  | [] ↦ none
  | c ∷ rest ↦ some (client_telnet, c, record src { telnet = rest })
]

abbrev pub web_char : Sources → Option (ℕ × ℕ × Sources)
web_char src = elim src.web [
  | [] ↦ telnet_char src
  | c ∷ rest ↦ some (client_webui, c, record src { web = rest })
]

abbrev pub bt_char : Sources → Option (ℕ × ℕ × Sources)
bt_char src =
    if src.bt_connected
    then elim src.bt [
      | [] ↦ web_char src
      | c ∷ rest ↦ some (client_bt, c, record src { bt = rest })
    ]
    else web_char src

abbrev pub input_char : Sources → Option (ℕ × ℕ × Sources)
input_char src = elim src.input [
  | [] ↦ bt_char src
  | c ∷ rest ↦ some (client_input, c, record src { input = rest })
]

-- `getClientChar`: the client, the byte and what is left; `none` is CLIENT_ALL
pub get_client_char : List InputBuffer → Sources → Option (ℕ × ℕ × Sources)
get_client_char buffers src =
    if ltb 0 (InputBuffer.available_for_write (client_buffer buffers client_serial))
    then elim src.uart [
      | [] ↦ input_char src
      | c ∷ rest ↦ some (client_serial, c, record src { uart = rest })
    ]
    else input_char src

-- `client_buffer[client].write(data)`
store_char : List InputBuffer → ℕ → ℕ → List InputBuffer
store_char buffers client c =
    set buffers client (InputBuffer.write (client_buffer buffers client) c).0

-- the answer to a byte while an SD job runs: an error for each end of line
pub data Busy : Type 0 where
  another_interface_busy : ℕ → Busy

busy_reply : ℕ → ℕ → List Busy
busy_reply client c = if c == b'\r' || c == b'\n' then another_interface_busy client ∷ [] else []

pub record Clients (W : Type 0) : Type 0 where
  pub system : System
  pub world : W
  pub buffers : List InputBuffer
  pub replies : List Busy

module _ {W : Type 0} (sub : Subsystems W) (sd_busy : W → Bool) where
  -- one byte in `clientCheckTask`; `sd_busy` is `get_sd_state(false) >= SDState::Busy`
  pub client_char : Clients W → ℕ → ℕ → Clients W
  unfolding store_char busy_reply
  client_char t client c =
      if is_realtime_command c
      then (let (s, w) = execute_realtime_command sub c t.system t.world in
          record t { system = s; world = w })
      else if sd_busy t.world
      then record t { replies = t.replies ++ busy_reply client c }
      else record t { buffers = store_char t.buffers client c }

  -- the inner loop on one client's bytes
  pub client_chars : Clients W → ℕ → List ℕ → Clients W
  client_chars t client [] = t
  client_chars t client (c ∷ cs) = client_chars (client_char t client c) client cs

  -- the inner loop itself, for at most `fuel` bytes: it takes bytes until no source has one
  pub client_check : ℕ → Clients W → Sources → Clients W × Sources
  client_check zero t src = (t, src)
  client_check (suc fuel) t src = elim (get_client_char t.buffers src) [
    | none ↦ (t, src)
    | some (client, c, left) ↦ client_check fuel (client_char t client c) left
  ]

-- `client_reset_read_buffer`
reset_buffers_from : ℕ → ℕ → List InputBuffer → List InputBuffer
reset_buffers_from client client_num [] = []
reset_buffers_from client client_num (b ∷ bs) =
    (if client == client_num || client == client_all then InputBuffer.begin b else b)
    ∷ reset_buffers_from client (client_num + 1) bs

pub client_reset_read_buffer : ℕ → List InputBuffer → List InputBuffer
unfolding reset_buffers_from
client_reset_read_buffer client buffers = reset_buffers_from client 0 buffers

-- `client_read`: the first byte, `none` for -1
pub client_read : List InputBuffer → ℕ → Option ℕ × List InputBuffer
client_read buffers client =
    let (c, b) = InputBuffer.read (client_buffer buffers client) in (c, set buffers client b)
