-- ===== src/Hardwaremgr/Notifications/Adapter.antt =====
-- What is announced of the adapter and of the objects that BlueZ manages.
use raspberrypiservice.Prelude.{
  ◌≡◌, refl, Bool, true, false, String, List, [], ◌∷◌, str_eq, if◌then◌else◌,
}
use raspberrypiservice.Common.Define.{DbusCommand}
use raspberrypiservice.Common.DbusData.{DbusDataType, DbusDataInfo}
use raspberrypiservice.Hardwaremgr.Config.{bluez_adapter_interface, bluez_device_interface}
use raspberrypiservice.Hardwaremgr.Hardware.{Interfaces, Reply, Answer, Bus, Hardware, ask}
use raspberrypiservice.Hardwaremgr.BluezDbus.Parse.{
  parse_adapter_properties, parse_device_properties,
}
use raspberrypiservice.Hardwaremgr.BluezDbus.Adapter.{
  power_command, scan_command, announce, ensure_discoverable, found_adapter, found_device,
  managed_object, parse_managed_objects, add_match_rule, add_match_rules, match_rules, initialized,
  add_rules, managed_objects, managed_objects_call, initialize_adapter,
}
use raspberrypiservice.Hardwaremgr.Notifications.Parsed.{
  HasNumbers, is_text, init_info-HasNumbers, set_info-HasNumbers,
  parse_device_properties-HasNumbers,
}
use raspberrypiservice.Hardwaremgr.Notifications.Fit.{
  is_announced, Fit, if-Fit, notify-Fit, with_message-HasNumbers,
}
use raspberrypiservice.Hardwaremgr.Notifications.Bluez.{set_discoverable-Fit}

announce-Fit :
    (cmd : Bool → DbusCommand) (key : DbusDataType) (prefix value : String) (h : Hardware)
    → ((on : Bool) → is_announced (cmd on) ≡ true)
    → is_text key ≡ true
    → Fit h
    → Fit (announce cmd key prefix value h)
announce-Fit cmd key prefix value h a t f =
    search
      (if-Fit, notify-Fit, with_message-HasNumbers, set_info-HasNumbers, init_info-HasNumbers, a)

pub power_command_announced : (on : Bool) → is_announced (power_command on) ≡ true
power_command_announced true = refl
power_command_announced false = refl

pub scan_command_announced : (on : Bool) → is_announced (scan_command on) ≡ true
scan_command_announced true = refl
scan_command_announced false = refl

ensure_discoverable-Fit :
    (powered discoverable : String) (bus : Bus) (h : Hardware)
    → Fit h
    → Fit (ensure_discoverable powered discoverable bus h)
ensure_discoverable-Fit powered discoverable bus h f = search (if-Fit, set_discoverable-Fit)

found_adapter-Fit :
    (bus : Bus) (path : String) (props : DbusDataInfo) (h : Hardware)
    → Fit h
    → Fit (found_adapter bus path props h)
found_adapter-Fit bus path props h f =
    let powered =
      announce-Fit power_command DbusDataType.bt_adapter_powered "Initial adapter power state is "
        (props DbusDataType.bt_adapter_powered) (record h { adapter_path = path })
        power_command_announced refl (record { all_fit = f.all_fit }) in
    let scanning =
      announce-Fit scan_command DbusDataType.bt_adapter_discovering
        "Initial adapter discovery state is " (props DbusDataType.bt_adapter_discovering) _
        scan_command_announced refl powered in
    ensure_discoverable-Fit (props DbusDataType.bt_adapter_powered)
      (props DbusDataType.bt_adapter_discoverable) bus _ scanning

found_device-Fit :
    (props : DbusDataInfo) (h : Hardware) → HasNumbers props → Fit h → Fit (found_device props h)
found_device-Fit props h n f = search (notify-Fit, with_message-HasNumbers)

if-Fit_with_flag :
    (b : Bool) (x y : Bool × Hardware) → Fit x.1 → Fit y.1 → Fit (if b then x else y).1
if-Fit_with_flag true x y f g = f
if-Fit_with_flag false x y f g = g

managed_object-Fit :
    (bus : Bus) (path : String) (interfaces : Interfaces) (x : Bool × Hardware)
    → Fit x.1
    → Fit (managed_object bus path interfaces x).1
unfolding managed_object
managed_object-Fit bus path [] (found, h) f = f
managed_object-Fit bus path ((interface, ps) ∷ rest) (found, h) f =
    let adapter = found_adapter-Fit bus path (parse_adapter_properties ps) h f in
    let device =
      found_device-Fit (parse_device_properties ps) h (parse_device_properties-HasNumbers ps) f in
    let other =
      if-Fit_with_flag (str_eq interface bluez_device_interface)
        (found, found_device (parse_device_properties ps) h) (found, h) device f in
    managed_object-Fit bus path rest _ (
      if-Fit_with_flag (str_eq interface bluez_adapter_interface)
        (true, found_adapter bus path (parse_adapter_properties ps) h) _ adapter other)

parse_managed_objects-Fit :
    (bus : Bus) (objects : List (String × Interfaces)) (x : Bool × Hardware)
    → Fit x.1
    → Fit (parse_managed_objects bus objects x).1
unfolding parse_managed_objects
parse_managed_objects-Fit bus [] x f = f
parse_managed_objects-Fit bus ((path, interfaces) ∷ objects) x f =
    parse_managed_objects-Fit bus objects (managed_object bus path interfaces x)
      (managed_object-Fit bus path interfaces x f)

add_match_rules-Fit :
    (bus : Bus) (rules : List String) (h : Hardware) → Fit h → Fit (add_match_rules bus rules h).1
unfolding add_match_rules
add_match_rules-Fit bus [] h f = f
add_match_rules-Fit bus (rule ∷ rules) h f =
    let kept : Fit (add_match_rule bus rule h).1 = record { all_fit = f.all_fit } in
    let rest = add_match_rules-Fit bus rules (add_match_rule bus rule h).1 kept in
    if-Fit_with_flag (add_match_rule bus rule h).0
      (add_match_rules bus rules (add_match_rule bus rule h).1)
      (false, (add_match_rule bus rule h).1) rest kept

add_rules-Fit : (bus : Bus) (x : Bool × Hardware) → Fit x.1 → Fit (add_rules bus x).1
add_rules-Fit bus (false, h) f = f
add_rules-Fit bus (true, h) f =
    let added = add_match_rules-Fit bus match_rules h f in
    if-Fit_with_flag h.is_initialized (true, h) (initialized (add_match_rules bus match_rules h)) f
      (record { all_fit = added.all_fit })

managed_objects-Fit : (bus : Bus) (x : Answer × Hardware) → Fit x.1 → Fit (managed_objects bus x).1
managed_objects-Fit bus (Answer.replied (Reply.objects objects), h) f =
    add_rules-Fit bus (parse_managed_objects bus objects (false, h))
      (parse_managed_objects-Fit bus objects (false, h) f)
managed_objects-Fit bus (_, h) f = f

pub initialize_adapter-Fit : (bus : Bus) (h : Hardware) → Fit h → Fit (initialize_adapter bus h).1
unfolding initialize_adapter
initialize_adapter-Fit bus h f =
    managed_objects-Fit bus (ask bus managed_objects_call h) (record { all_fit = f.all_fit })
