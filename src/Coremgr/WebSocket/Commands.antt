-- ===== src/Coremgr/WebSocket/Commands.antt =====
-- The names of the commands.
use raspberrypiservice.Prelude.{
  ◌≡◌, ◌≢◌, refl, sym, ◌∙◌, ap, ◌↔◌, ◌⊎◌, inl, inr, String, str_eq, eq_iff, if◌then◌else◌,
  Bool-cases,
}
use raspberrypiservice.Coremgr.WebSocket.{CommandType, string_to_command}

-- What a client writes for a command; the empty text stands for the unknown command.
abbrev pub name_of : CommandType → String
name_of CommandType.start_scan_btdevice = "start_scan_btdevice"
name_of CommandType.stop_scan_btdevice = "stop_scan_btdevice"
name_of CommandType.bluetooth_power_on = "bluetooth_power_on"
name_of CommandType.bluetooth_power_off = "bluetooth_power_off"
name_of CommandType.pair_btdevice = "pair_btdevice"
name_of CommandType.unpair_btdevice = "unpair_btdevice"
name_of CommandType.connect_btdevice = "connect_btdevice"
name_of CommandType.disconnect_btdevice = "disconnect_btdevice"
name_of CommandType.accept_request_confirmation = "accept_request_confirmation"
name_of CommandType.reject_request_confirmation = "reject_request_confirmation"
name_of CommandType.dial_call = "dial_call"
name_of CommandType.hangup_call = "hangup_call"
name_of CommandType.answer_call = "answer_call"
name_of CommandType.start_record = "start_record"
name_of CommandType.stop_record = "stop_record"
name_of CommandType.cancel_record = "cancel_record"
name_of CommandType.remove_record = "remove_record"
name_of CommandType.get_all_record = "get_all_record"
name_of CommandType.unknown = ""

string_to_command-name_of : (c : CommandType) → string_to_command (name_of c) ≡ c
unfolding string_to_command
string_to_command-name_of CommandType.start_scan_btdevice = refl
string_to_command-name_of _ = refl

abbrev Named : String → CommandType → Type 0
Named s c = (c ≡ CommandType.unknown) ⊎ (s ≡ name_of c)

tested :
    (s : String) (c rest : CommandType)
    → Named s rest
    → Named s (if str_eq s (name_of c) then c else rest)
tested s c rest h = elim (Bool-cases (str_eq s (name_of c))) [
  | inl same ↦ rw same (inr ((eq_iff s (name_of c)).0 same))
  | inr other ↦ rw other h
]

command_Named : (s : String) → Named s (string_to_command s)
unfolding string_to_command
command_Named s = tested s CommandType.start_scan_btdevice _ (
    tested s CommandType.stop_scan_btdevice _ (
      tested s CommandType.bluetooth_power_on _ (
        tested s CommandType.bluetooth_power_off _ (
          tested s CommandType.pair_btdevice _ (
            tested s CommandType.unpair_btdevice _ (
              tested s CommandType.connect_btdevice _ (
                tested s CommandType.disconnect_btdevice _ (
                  tested s CommandType.accept_request_confirmation _ (
                    tested s CommandType.reject_request_confirmation _ (
                      tested s CommandType.dial_call _ (
                        tested s CommandType.hangup_call _ (
                          tested s CommandType.answer_call _ (
                            tested s CommandType.start_record _ (
                              tested s CommandType.stop_record _ (
                                tested s CommandType.cancel_record _ (
                                  tested s CommandType.remove_record _ (
                                    tested s CommandType.get_all_record _
                                      (inl refl))))))))))))))))))

-- A text is taken for a known command exactly if it is the command's name.
pub string_to_command-eq_iff :
    (s : String) (c : CommandType)
    → c ≢ CommandType.unknown
    → (string_to_command s ≡ c) ↔ (s ≡ name_of c)
string_to_command-eq_iff s c known = (
  λ e. elim (command_Named s) [ inl u ↦ absurd (known (sym e ∙ u)) | inr n ↦ n ∙ ap name_of e ],
  λ e. rw e (string_to_command-name_of c),
)
