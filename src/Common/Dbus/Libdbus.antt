-- ===== src/Common/Dbus/Libdbus.antt =====
-- The functions of libdbus that the managers call to send and to receive a signal: a parameter of
-- the model, with what libdbus documents of them. `none` is a null pointer, or a call that returns
-- false.
use Prim.Native.String.{◌++◌ as str_append}
use raspberrypiservice.Prelude.{◌≡◌, Bool, true, String, List, [], ◌∷◌, ◌++◌, Option, some, ℤ}

-- The arguments that the managers send to each other.
pub data Item : Type 0 where
  int32 : ℤ → Item
  boolean : Bool → Item
  strings : List String → Item

abbrev item_signature : Item → String
item_signature (int32 n) = "i"
item_signature (boolean b) = "b"
item_signature (strings ss) = "as"

abbrev pub signature_of : List Item → String
signature_of [] = ""
signature_of (a ∷ args) = str_append (item_signature a) (signature_of args)

-- `Array` is a container of strings that is open: it belongs to a message and holds texts.
pub record Libdbus : Type 1 where
  pub Message : Type 0
  pub Array : Type 0
  pub new_signal : (path interface name : String) → Option Message
  pub append_int32 : ℤ → Message → Option Message
  pub append_boolean : Bool → Message → Option Message
  pub open_container : Message → Option Array
  pub append_string : String → Array → Option Array
  pub close_container : Array → Option Message
  pub has_valid_type : Message → Bool
  pub get_path : Message → Option String
  pub get_interface : Message → Option String
  pub is_signal : Message → (interface name : String) → Bool
  pub get_signature : Message → Option String
  pub get_args : Message → List Item
  pub array_message : Array → Message
  pub array_texts : Array → List String

module _ (l : Libdbus) where
  open l use {
    Message, Array, new_signal, append_int32, append_boolean, open_container, append_string,
    close_container, is_signal, get_signature, get_args, array_message, array_texts,
  }

  -- `m'` is `m` with one more argument.
  pub record IsAppended (m m' : Message) (item : Item) : Type 0 where
    pub args_appended : get_args m' ≡ get_args m ++ item ∷ []
    pub signal_kept :
        (interface name : String) → is_signal m' interface name ≡ is_signal m interface name

  -- What libdbus documents: a signal has the names that it is made with and no argument yet;
  -- appending adds an argument at the end; the signature is that of the arguments.
  pub record IsDocumented : Type 0 where
    pub new_signal_args :
        (path interface name : String) (m : Message)
        → new_signal path interface name ≡ some m
        → get_args m ≡ []
    pub new_signal_names :
        (path interface name : String) (m : Message)
        → new_signal path interface name ≡ some m
        → is_signal m interface name ≡ true
    pub int32_appended :
        (n : ℤ) (m m' : Message) → append_int32 n m ≡ some m' → IsAppended m m' (int32 n)
    pub boolean_appended :
        (b : Bool) (m m' : Message) → append_boolean b m ≡ some m' → IsAppended m m' (boolean b)
    pub container_opened :
        (m : Message) (a : Array)
        → open_container m ≡ some a
        → (array_message a ≡ m) × (array_texts a ≡ [])
    pub string_appended :
        (s : String) (a a' : Array)
        → append_string s a ≡ some a'
        → (array_message a' ≡ array_message a) × (array_texts a' ≡ array_texts a ++ s ∷ [])
    pub container_closed :
        (a : Array) (m' : Message)
        → close_container a ≡ some m'
        → IsAppended (array_message a) m' (strings (array_texts a))
    pub signature_of_args : (m : Message) → get_signature m ≡ some (signature_of (get_args m))
