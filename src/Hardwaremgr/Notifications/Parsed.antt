-- ===== src/Hardwaremgr/Notifications/Parsed.antt =====
-- The data that the parsers make of a reply.
use raspberrypiservice.Prelude.{
  ℕ, ◌≡◌, refl, Bool, true, false, String, [], ◌∷◌, ap, is_some, inl, inr, Bool-cases, ltb, ltb→lt,
  if◌then◌else◌, arith, ◌^◌, ◌%◌,
}
use raspberrypiservice.Common.DbusData.{DbusDataType, DbusDataInfo, init_info, set_info}
use raspberrypiservice.Common.Text.{is_empty}
use raspberrypiservice.Common.Stdlib.{
  is_digit, is_space, skip_spaces, digits_value, in_range, unsigned, signed, stoi,
}
use raspberrypiservice.Common.Stdlib.RoundTrip.{IsInt, stoi-to_string}
use raspberrypiservice.Hardwaremgr.Hardware.{Value, Properties}
use raspberrypiservice.Hardwaremgr.BluezDbus.Parse.{
  flag_text, set_flag, set_text, set_rssi, set_alias, int16_value, adapter_property,
  device_property, adapter_properties, device_properties, parse_adapter_properties,
  parse_device_properties,
}

-- The temperature and the duration are those of the constructor, and the signal strength is a number.
pub record HasNumbers (info : DbusDataInfo) : Type 0 where
  pub no_temperature : info DbusDataType.temperature_value ≡ "0.0"
  pub no_duration : info DbusDataType.wav_file_duration_sec ≡ "0"
  pub rssi_parses : is_some (stoi (info DbusDataType.bt_device_rssi)) ≡ true

-- The data types that are not read as numbers.
abbrev pub is_text : DbusDataType → Bool
is_text DbusDataType.temperature_value = false
is_text DbusDataType.wav_file_duration_sec = false
is_text DbusDataType.bt_device_rssi = false
is_text _ = true

pub zero_parses : is_some (stoi "0") ≡ true
unfolding stoi skip_spaces is_space signed unsigned is_digit digits_value in_range
zero_parses = refl

pub init_info-HasNumbers : HasNumbers init_info
unfolding init_info
init_info-HasNumbers = record {
  no_temperature = refl;
  no_duration = refl;
  rssi_parses = zero_parses;
}

pub set_info-HasNumbers :
    (k : DbusDataType) (v : String) (info : DbusDataInfo)
    → is_text k ≡ true
    → HasNumbers info
    → HasNumbers (set_info k v info)
unfolding set_info
set_info-HasNumbers DbusDataType.temperature_value v info h n = cc (h)
set_info-HasNumbers DbusDataType.wav_file_duration_sec v info h n = cc (h)
set_info-HasNumbers DbusDataType.bt_device_rssi v info h n = cc (h)
set_info-HasNumbers _ v info h n = record {
  no_temperature = n.no_temperature;
  no_duration = n.no_duration;
  rssi_parses = n.rssi_parses;
}

int16_value-IsInt : (bits : ℕ) → IsInt (int16_value bits)
unfolding int16_value
int16_value-IsInt bits = elim (Bool-cases (ltb (bits % 2 ^ 16) (2 ^ 15))) [
  | inl small ↦ rw small (omega (arith, ltb→lt (bits % 2 ^ 16) (2 ^ 15) small))
  | inr large ↦ rw large (omega arith)
]

set_rssi-HasNumbers :
    (v : Value) (info : DbusDataInfo) → HasNumbers info → HasNumbers (set_rssi v info)
unfolding set_info
set_rssi-HasNumbers (Value.int16 bits) info n = record {
  no_temperature = n.no_temperature;
  no_duration = n.no_duration;
  rssi_parses = ap is_some (stoi-to_string (int16_value bits) (int16_value-IsInt bits));
}
set_rssi-HasNumbers (Value.flag b) info n = n
set_rssi-HasNumbers (Value.text s) info n = n
set_rssi-HasNumbers (Value.object_paths s) info n = n
set_rssi-HasNumbers Value.other_value info n = n

set_text-HasNumbers :
    (k : DbusDataType) (v : Value) (info : DbusDataInfo)
    → is_text k ≡ true
    → HasNumbers info
    → HasNumbers (set_text k v info)
set_text-HasNumbers k (Value.text s) info h n = set_info-HasNumbers k s info h n
set_text-HasNumbers k _ info h n = n

set_flag-HasNumbers :
    (k : DbusDataType) (v : Value) (info : DbusDataInfo)
    → is_text k ≡ true
    → HasNumbers info
    → HasNumbers (set_flag k v info)
set_flag-HasNumbers k (Value.flag b) info h n = set_info-HasNumbers k (flag_text b) info h n
set_flag-HasNumbers k _ info h n = n

pub if-HasNumbers :
    (b : Bool) (i j : DbusDataInfo) → HasNumbers i → HasNumbers j → HasNumbers (if b then i else j)
if-HasNumbers true i j n m = n
if-HasNumbers false i j n m = m

set_alias-HasNumbers :
    (v : Value) (info : DbusDataInfo) → HasNumbers info → HasNumbers (set_alias v info)
set_alias-HasNumbers (Value.text s) info n =
    if-HasNumbers (is_empty (info DbusDataType.bt_device_name))
      (set_info DbusDataType.bt_device_name s info) info
      (set_info-HasNumbers DbusDataType.bt_device_name s info refl n) n
set_alias-HasNumbers _ info n = n

ruleset parsed = (
  set_text-HasNumbers, set_flag-HasNumbers, set_rssi-HasNumbers, set_alias-HasNumbers,
  if-HasNumbers,
)

adapter_property-HasNumbers :
    (key : String) (v : Value) (info : DbusDataInfo)
    → HasNumbers info
    → HasNumbers (adapter_property key v info)
unfolding adapter_property
adapter_property-HasNumbers key v info n = search parsed

device_property-HasNumbers :
    (key : String) (v : Value) (info : DbusDataInfo)
    → HasNumbers info
    → HasNumbers (device_property key v info)
unfolding device_property
device_property-HasNumbers key v info n = search parsed depth 12

adapter_properties-HasNumbers :
    (ps : Properties) (info : DbusDataInfo)
    → HasNumbers info
    → HasNumbers (adapter_properties ps info)
unfolding adapter_properties
adapter_properties-HasNumbers [] info n = n
adapter_properties-HasNumbers ((key, v) ∷ ps) info n =
    adapter_properties-HasNumbers ps (adapter_property key v info)
      (adapter_property-HasNumbers key v info n)

device_properties-HasNumbers :
    (ps : Properties) (info : DbusDataInfo)
    → HasNumbers info
    → HasNumbers (device_properties ps info)
unfolding device_properties
device_properties-HasNumbers [] info n = n
device_properties-HasNumbers ((key, v) ∷ ps) info n =
    device_properties-HasNumbers ps (device_property key v info)
      (device_property-HasNumbers key v info n)

pub parse_adapter_properties-HasNumbers :
    (ps : Properties) → HasNumbers (parse_adapter_properties ps)
unfolding parse_adapter_properties
parse_adapter_properties-HasNumbers ps =
    adapter_properties-HasNumbers ps init_info init_info-HasNumbers

pub parse_device_properties-HasNumbers : (ps : Properties) → HasNumbers (parse_device_properties ps)
unfolding parse_device_properties
parse_device_properties-HasNumbers ps =
    device_properties-HasNumbers ps init_info init_info-HasNumbers
