-- ===== src/Hardwaremgr/BluezDbus/Reports.antt =====
-- What is reported of the requests to BlueZ.
use raspberrypiservice.Prelude.{
  ◌≡◌, refl, inl, inr, false, String, List, [], ◌∷◌, str_eq, Bool-cases, subst,
}
use raspberrypiservice.Common.Define.{DbusCommand}
use raspberrypiservice.Common.Text.{is_empty}
use raspberrypiservice.Common.DbusData.{DbusDataType, DbusDataInfo, set_info}
use raspberrypiservice.Hardwaremgr.Hardware.{CallArg, Call, Answer, Bus, Noti, noti, Hardware, ask}
use raspberrypiservice.Hardwaremgr.BluezDbus.Parse.{get_all_device_properties}
use raspberrypiservice.Hardwaremgr.BluezDbus.Requests.{
  report, adapter_call, device_call, address_info, untrust, pair_device, connect_device,
  disconnect_device, unpair_device, device_address_to_object_path,
}

-- From `sent` to `sent'` the answer is reported: a failure by one notification of failure for the
-- device, and nothing else.
abbrev pub Reports : DbusCommand → (address : String) → Answer → (sent sent' : List Noti) → Type 0
Reports cmd address Answer.no_message sent sent' =
    (info : DbusDataInfo) × (sent' ≡ noti cmd false info ∷ sent)
    × (info DbusDataType.bt_device_address ≡ address)
Reports cmd address (Answer.failed e) sent sent' =
    (info : DbusDataInfo) × (sent' ≡ noti cmd false info ∷ sent)
    × (info DbusDataType.bt_device_address ≡ address)
Reports cmd address _ sent sent' = sent' ≡ sent

report-Reports :
    (cmd : DbusCommand) (text prefix : String) (info : DbusDataInfo) (x : Answer × Hardware)
    → Reports cmd
        (info DbusDataType.bt_device_address)
        x.0
        x.1.sent
        (report cmd text prefix info x).sent
unfolding set_info
report-Reports cmd text prefix info (Answer.no_message, h) = (_, refl, refl)
report-Reports cmd text prefix info (Answer.failed e, h) = (_, refl, refl)
report-Reports cmd text prefix info (Answer.no_reply, h) = refl
report-Reports cmd text prefix info (Answer.replied r, h) = refl

untrust_sent :
    (path : String) (bus : Bus) (x : DbusDataInfo × Hardware) → (untrust path bus x).sent ≡ x.1.sent
untrust_sent path bus (info, h) =
    elim (Bool-cases (is_empty (info DbusDataType.bt_device_address))) [
      | inl unknown ↦ rw unknown refl
      | inr known ↦ elim (Bool-cases (str_eq (info DbusDataType.bt_device_trusted) "true")) [
        | inl trusted ↦ rw (known, trusted) refl
        | inr other ↦ rw (known, other) refl
      ]
    ]

-- The state in which a device is removed.
abbrev pub untrusted : String → Bus → Hardware → Hardware
untrusted path bus h = untrust path bus (get_all_device_properties bus path h)

abbrev pub remove_call : String → Hardware → Call
remove_call path h = adapter_call "RemoveDevice" (CallArg.object_path_arg path ∷ []) h

unpair_device-Reports :
    (address : String) (bus : Bus) (h : Hardware)
    → let path = device_address_to_object_path h.adapter_path address in
      let h' = untrusted path bus h in
      Reports DbusCommand.unpair_btdevice_noti address
        (bus h'.calls (remove_call path h'))
        h.sent
        (unpair_device address bus h).sent
unfolding unpair_device get_all_device_properties set_info
unpair_device-Reports address bus h =
    let path = device_address_to_object_path h.adapter_path address in
    let h' = untrusted path bus h in
    let answer = bus h'.calls (remove_call path h') in
    let removed =
      report-Reports DbusCommand.unpair_btdevice_noti
        "Failed to create D-Bus message for RemoveDevice" "Error unpairing device: "
        (address_info address) (ask bus (remove_call path h') h') in
    let kept = untrust_sent path bus (get_all_device_properties bus path h) in
    subst
      (λ sent.
        Reports DbusCommand.unpair_btdevice_noti address answer sent
          (unpair_device address bus h).sent)
      kept removed

-- What is reported of a request about a device.
pub record DeviceReports (address : String) (bus : Bus) (h : Hardware) : Type 0 where
  pub pair_reports :
      Reports DbusCommand.pair_btdevice_noti address
        (bus h.calls (device_call address "Pair" h))
        h.sent
        (pair_device address bus h).sent
  pub connect_reports :
      Reports DbusCommand.connect_btdevice_noti address
        (bus h.calls (device_call address "Connect" h))
        h.sent
        (connect_device address bus h).sent
  pub disconnect_reports :
      Reports DbusCommand.disconnect_btdevice_noti address
        (bus h.calls (device_call address "Disconnect" h))
        h.sent
        (disconnect_device address bus h).sent
  pub unpair_reports :
      let path = device_address_to_object_path h.adapter_path address in
      let h' = untrusted path bus h in
      Reports DbusCommand.unpair_btdevice_noti address
        (bus h'.calls (remove_call path h'))
        h.sent
        (unpair_device address bus h).sent

-- Of a request to pair, connect, disconnect or remove a device, exactly what BlueZ answers to the call
-- of that name, for the object of the address, is reported: if the message cannot be made or the
-- answer is an error, one notification of failure with the address, and otherwise none.
pub device_requests-DeviceReports :
    (address : String) (bus : Bus) (h : Hardware) → DeviceReports address bus h
unfolding pair_device connect_device disconnect_device set_info
device_requests-DeviceReports address bus h = record {
  pair_reports =
      report-Reports DbusCommand.pair_btdevice_noti "Failed to create D-Bus message for Pair"
        "Error pairing with device: " (address_info address)
        (ask bus (device_call address "Pair" h) h);
  connect_reports =
      report-Reports DbusCommand.connect_btdevice_noti "Failed to create D-Bus message for Connect"
        "Error connecting to device: " (address_info address)
        (ask bus (device_call address "Connect" h) h);
  disconnect_reports =
      report-Reports DbusCommand.disconnect_btdevice_noti
        "Failed to create D-Bus message for Disconnect" "Error disconnecting from device: "
        (address_info address) (ask bus (device_call address "Disconnect" h) h);
  unpair_reports = unpair_device-Reports address bus h;
}
