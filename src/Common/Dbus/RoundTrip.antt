-- ===== src/Common/Dbus/RoundTrip.antt =====
-- A signal that one manager makes, as another one receives it.
use raspberrypiservice.Prelude.{
  ◌≡◌, refl, sym, ◌∙◌, ap, Bool, true, false, String, List, [], ◌∷◌, ◌++◌, some, pos, All, ◌==◌,
  map, ◌>>=◌, >>=-some, subst, append_assoc, append-nil,
}
use raspberrypiservice.Common.Define.{DbusCommand}
use raspberrypiservice.Common.DbusData.{DbusDataType, DbusDataInfo, init_info, set_info}
use raspberrypiservice.Common.Stdlib.{codes}
use raspberrypiservice.Common.Dbus.Values.{command_value, command_cast-command_value}
use raspberrypiservice.Common.Dbus.Libdbus.{Item, Libdbus, IsAppended, IsDocumented, signature_of}
use raspberrypiservice.Common.Dbus.Sender.{
  c_str, data_types, data_texts, make_msg_internal, append_strings, append_array,
  make_msg_noti_internal,
}
use raspberrypiservice.Common.Dbus.Receiver.{
  Dispatched, fill, dispatch_as, dispatch_noti, dispatch_message, received_message,
}

-- A text that `c_str` does not shorten.
abbrev pub HasNoNull : String → Type 0
HasNoNull s = All (λ c. (c == 0) ≡ false) (codes s)

c_str-HasNoNull : (s : String) → HasNoNull s → c_str s ≡ s
unfolding c_str
c_str-HasNoNull String.[] h = refl
c_str-HasNoNull (String.◌∷◌ c s) h = rw (h.0, c_str-HasNoNull s h.1) refl

fill_at :
    (info : DbusDataInfo) (k : DbusDataType)
    → fill data_types (map (λ j. c_str (info j)) data_types) init_info k ≡ c_str (info k)
unfolding fill set_info
fill_at info DbusDataType.message = refl
fill_at info DbusDataType.temperature_value = refl
fill_at info DbusDataType.bt_device_name = refl
fill_at info DbusDataType.bt_device_address = refl
fill_at info DbusDataType.bt_device_rssi = refl
fill_at info DbusDataType.bt_device_paired = refl
fill_at info DbusDataType.bt_device_connected = refl
fill_at info DbusDataType.bt_device_trusted = refl
fill_at info DbusDataType.bt_device_icon = refl
fill_at info DbusDataType.bt_adapter_powered = refl
fill_at info DbusDataType.bt_adapter_discovering = refl
fill_at info DbusDataType.bt_adapter_discoverable = refl
fill_at info DbusDataType.bt_pairing_passkey = refl
fill_at info DbusDataType.contact_name = refl
fill_at info DbusDataType.contact_number = refl
fill_at info DbusDataType.call_number = refl
fill_at info DbusDataType.call_name = refl
fill_at info DbusDataType.call_state = refl
fill_at info DbusDataType.call_history_name = refl
fill_at info DbusDataType.call_history_number = refl
fill_at info DbusDataType.call_history_type = refl
fill_at info DbusDataType.call_history_datetime = refl
fill_at info DbusDataType.wav_file_path = refl
fill_at info DbusDataType.wav_file_duration_sec = refl

fill-data_texts :
    (info : DbusDataInfo)
    → ((k : DbusDataType) → HasNoNull (info k))
    → fill data_types (map (λ j. c_str (info j)) data_types) init_info ≡ info
fill-data_texts info h = λ i k. (fill_at info k ∙ c_str-HasNoNull (info k) (h k)) i

module _ (l : Libdbus) (d : IsDocumented l) where
  open l use {
    Message, Array, new_signal, append_int32, append_boolean, open_container, append_string,
    close_container, is_signal, get_signature, get_args, array_message, array_texts,
  }

  -- A signal with its names and its arguments.
  record Holds (interface name : String) (args : List Item) (m : Message) : Type 0 where
    is_named : is_signal m interface name ≡ true
    has_args : get_args m ≡ args

  appended :
      (interface name : String) (args : List Item) (item : Item) (m m' : Message)
      → Holds interface name args m
      → IsAppended l m m' item
      → Holds interface name (args ++ item ∷ []) m'
  appended interface name args item m m' h a = record {
    is_named = a.signal_kept interface name ∙ h.is_named;
    has_args = a.args_appended ∙ ap (λ as'. as' ++ item ∷ []) h.has_args;
  }

  new_signal-Holds :
      (path interface name : String) (m : Message)
      → new_signal path interface name ≡ some m
      → Holds interface name [] m
  new_signal-Holds path interface name m h = record {
    is_named = d.new_signal_names path interface name m h;
    has_args = d.new_signal_args path interface name m h;
  }

  append_strings_texts :
      (ss : List String) (a a' : Array)
      → append_strings l ss a ≡ some a'
      → (array_message a' ≡ array_message a) × (array_texts a' ≡ array_texts a ++ ss)
  unfolding append_strings
  append_strings_texts [] a a' h =
      let same : a' ≡ a = cc (h) in
      (ap array_message same, ap array_texts same ∙ sym (append-nil (array_texts a)))
  append_strings_texts (s ∷ ss) a a' h =
      let (b, first, rest) = >>=-some (append_string s a) (λ b. append_strings l ss b) a' h in
      let (owner, texts) = d.string_appended s a b first in
      let (owner', texts') = append_strings_texts ss b a' rest in
      (
        owner' ∙ owner,
        texts' ∙ ap (λ ts. ts ++ ss) texts ∙ append_assoc (array_texts a) (s ∷ []) ss,
      )

  append_array-IsAppended :
      (ss : List String) (m m' : Message)
      → append_array l ss m ≡ some m'
      → IsAppended l m m' (Item.strings ss)
  unfolding append_array
  append_array-IsAppended ss m m' h =
      let (a, opened, h1) =
        >>=-some (open_container m) (λ a. append_strings l ss a >>= close_container) m' h in
      let (a', filled, closed) = >>=-some (append_strings l ss a) close_container m' h1 in
      let (owner, none_yet) = d.container_opened m a opened in
      let (owner', texts) = append_strings_texts ss a a' filled in
      let all_texts : array_texts a' ≡ ss = texts ∙ ap (λ ts. ts ++ ss) none_yet in
      let whole : IsAppended l (array_message a') m' (Item.strings (array_texts a')) =
        d.container_closed a' m' closed in
      subst (λ ts. IsAppended l m m' (Item.strings ts)) all_texts
        (subst (λ m0. IsAppended l m0 m' (Item.strings (array_texts a'))) (owner' ∙ owner) whole)

  received_message-Holds :
      (interface name : String) (args : List Item) (m : Message)
      → Holds interface name args m
      → received_message l interface name m ≡ dispatch_as (some (signature_of args)) args
  unfolding received_message dispatch_message
  received_message-Holds interface name args m h =
      rw (h.is_named, d.signature_of_args m, h.has_args) refl

  -- A command that is made into a signal is received as that command, by a manager that waits for
  -- the signal.
  pub received_message-make_msg_internal :
      (path interface name : String) (cmd : DbusCommand) (m : Message)
      → make_msg_internal l path interface name cmd ≡ some m
      → received_message l interface name m ≡ Dispatched.message (some cmd)
  unfolding make_msg_internal dispatch_as
  received_message-make_msg_internal path interface name cmd m h =
      let n = pos (command_value cmd) in
      let (m0, made, rest) = >>=-some (new_signal path interface name) (append_int32 n) m h in
      let start = new_signal-Holds path interface name m0 made in
      let whole =
        appended interface name [] (Item.int32 n) m0 m start (d.int32_appended n m0 m rest) in
      received_message-Holds interface name (Item.int32 n ∷ []) m whole
      ∙ ap Dispatched.message (command_cast-command_value cmd)

  -- A notification that is made into a signal is received with the same command, success and texts,
  -- if none of the texts has a null character.
  pub received_message-make_msg_noti_internal :
      (path interface name : String) (cmd : DbusCommand) (ok : Bool) (info : DbusDataInfo)
      (m : Message)
      → ((k : DbusDataType) → HasNoNull (info k))
      → make_msg_noti_internal l path interface name cmd ok info ≡ some m
      → received_message l interface name m ≡ Dispatched.message_noti (some cmd) ok info
  unfolding make_msg_noti_internal dispatch_as dispatch_noti
  received_message-make_msg_noti_internal path interface name cmd ok info m no_null h =
      let n = pos (command_value cmd) in
      let texts = data_texts l info in
      let tail = λ (m2 : Message). append_array l texts m2 in
      let rest = λ (m1 : Message). append_boolean ok m1 >>= tail in
      let (m0, made, h0) =
        >>=-some (new_signal path interface name) (λ m0. append_int32 n m0 >>= rest) m h in
      let (m1, numbered, h1) = >>=-some (append_int32 n m0) rest m h0 in
      let (m2, flagged, h2) = >>=-some (append_boolean ok m1) tail m h1 in
      let v0 = new_signal-Holds path interface name m0 made in
      let v1 =
        appended interface name [] (Item.int32 n) m0 m1 v0 (d.int32_appended n m0 m1 numbered) in
      let v2 =
        appended interface name (Item.int32 n ∷ []) (Item.boolean ok) m1 m2 v1
          (d.boolean_appended ok m1 m2 flagged) in
      let v3 =
        appended interface name (Item.int32 n ∷ Item.boolean ok ∷ []) (Item.strings texts) m2 m v2
          (append_array-IsAppended texts m2 m h2) in
      received_message-Holds interface name
        (Item.int32 n ∷ Item.boolean ok ∷ Item.strings texts ∷ []) m v3
      ∙ (λ i.
          Dispatched.message_noti (command_cast-command_value cmd i) ok
            (fill-data_texts info no_null i))
