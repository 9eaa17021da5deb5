-- ===== src/Hardwaremgr/Message.antt =====
-- A message that the hardware manager receives on the system bus. An argument whose type the code
-- does not test has the type that the service documents; another one is read as no value.
use raspberrypiservice.Prelude.{ℕ, Bool, false, ◌&&◌, String, List, ◌∷◌, Option, none, some, str_eq}
use raspberrypiservice.Hardwaremgr.Hardware.{Value, Properties, Interfaces}

pub data Argument : Type 0 where
  object_path str : String → Argument
  uint32 : ℕ → Argument
  variant : Value → Argument
  dictionary : Properties → Argument
  interfaces : Interfaces → Argument
  texts : List String → Argument
  other_argument : Argument

pub data Kind : Type 0 where
  signal method_call other_kind : Kind

-- `serial` tells the messages apart.
pub record Message : Type 0 where
  pub kind : Kind
  pub serial : ℕ
  pub path : String
  pub interface : String
  pub member : String
  pub sender : Option String
  pub args : List Argument

-- `dbus_message_is_signal` and `dbus_message_is_method_call`
abbrev pub has_name : Message → (interface member : String) → Bool
has_name m interface member = str_eq m.interface interface && str_eq m.member member

abbrev pub is_signal : Message → (interface member : String) → Bool
is_signal m interface member = elim m.kind [ Kind.signal ↦ has_name m interface member | _ ↦ false ]

abbrev pub is_method_call : Message → (interface member : String) → Bool
is_method_call m interface member = elim m.kind [
  | Kind.method_call ↦ has_name m interface member
  | _ ↦ false
]

-- The first argument, read as a text.
abbrev pub text_argument : List Argument → Option String
text_argument (Argument.object_path s ∷ args) = some s
text_argument (Argument.str s ∷ args) = some s
text_argument _ = none
