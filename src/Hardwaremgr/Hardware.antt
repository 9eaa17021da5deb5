-- ===== src/Hardwaremgr/Hardware.antt =====
-- The state that the hardware manager's threads share (the members of BluezDBus, OfonoDBus and
-- BluetoothAgent, hardwaremgr/include/BT), and its calls of the services on the system bus. What a
-- service answers is a parameter: it may depend on all the calls that came before.
use raspberrypiservice.Prelude.{ℕ, Bool, String, List, ◌∷◌}
use raspberrypiservice.Common.Define.{DbusCommand}
use raspberrypiservice.Common.DbusData.{DbusDataInfo}

-- The content of a variant, as far as the code reads it; an `int16_t` is its bits.
pub data Value : Type 0 where
  flag : Bool → Value
  text : String → Value
  int16 : ℕ → Value
  object_paths : List String → Value
  other_value : Value

-- `a{sv}`, and `a{sa{sv}}`.
abbrev pub Properties : Type 0
Properties = List (String × Value)

abbrev pub Interfaces : Type 0
Interfaces = List (String × Properties)

pub data CallArg : Type 0 where
  text_arg object_path_arg : String → CallArg
  flag_arg : Bool → CallArg

-- A method call: service, object, interface, method and arguments.
pub data Call : Type 0 where
  call : (service path interface member : String) (args : List CallArg) → Call

-- What a reply holds: properties, objects with their interfaces, or a list of object paths.
pub data Reply : Type 0 where
  properties : Properties → Reply
  objects : List (String × Interfaces) → Reply
  paths : List String → Reply
  other_reply : Reply

-- What becomes of a call: the message could not be made, the service answers with an error, there is
-- no reply, or there is one.
pub data Answer : Type 0 where
  no_message no_reply : Answer
  failed : String → Answer
  replied : Reply → Answer

abbrev pub Bus : Type 0
Bus = List Call → Call → Answer

-- A `sendMessageNoti` to the core manager.
pub data Noti : Type 0 where
  noti : (command : DbusCommand) (is_success : Bool) (info : DbusDataInfo) → Noti

-- `calls`, `sent` and `replies` list what has left the manager, the newest first. A request of
-- BlueZ's agent is known by a number; a reply accepts or rejects it.
pub record Hardware : Type 0 where
  pub adapter_path : String
  pub is_initialized : Bool
  pub modem_path : String
  pub active_call_paths : List String
  pub phonebook : List (String × String)
  pub pending_confirmations : List (String × ℕ)
  pub calls : List Call
  pub sent : List Noti
  pub replies : List (ℕ × Bool)

abbrev pub notify : DbusCommand → Bool → DbusDataInfo → Hardware → Hardware
notify cmd ok info h = record h { sent = noti cmd ok info ∷ h.sent }

-- `dbus_connection_send_with_reply_and_block`
abbrev pub ask : Bus → Call → Hardware → Answer × Hardware
ask bus c h = (bus h.calls c, record h { calls = c ∷ h.calls })
