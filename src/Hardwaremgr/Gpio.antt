-- ===== src/Hardwaremgr/Gpio.antt =====
-- hardwaremgr/src/Model/GPIO.cpp and hardwaremgr/src/Thread/MonitorWorker.cpp: the temperature sensor
-- and the thread that reads it. A `float` is its 32-bit pattern; its division and its text are
-- parameters.
pub mod Reading
use Prim.Native.String.{◌++◌ as str_append}
use raspberrypiservice.Prelude.{
  ℕ, Bool, true, false, String, List, [], ◌∷◌, Option, none, some, ℤ, if◌then◌else◌,
}
use raspberrypiservice.Common.Define.{DbusCommand}
use raspberrypiservice.Common.Text.{is_empty, drop_prefix, after_first}
use raspberrypiservice.Common.Stdlib.{stoi}
use raspberrypiservice.Common.DbusData.{DbusDataType, init_info, set_info}
use raspberrypiservice.Hardwaremgr.Hardware.{Noti, noti}

abbrev w1_devices_path : String
w1_devices_path = "/sys/bus/w1/devices/"

abbrev w1_sensor_prefix : String
w1_sensor_prefix = "28-"

abbrev sensor_path : String → String
sensor_path entry = str_append w1_devices_path (str_append entry "/w1_slave")

-- The loop over the entries of the directory; a directory that cannot be opened has none.
unfoldable pub find_sensor_file : List String → String
unfolding drop_prefix
find_sensor_file [] = ""
find_sensor_file (entry ∷ entries) =
    let rest = find_sensor_file entries in
    elim (drop_prefix w1_sensor_prefix entry) [ none ↦ rest | some _ ↦ sensor_path entry ]

-- What follows "t=", read as an `int`, and whether "YES" was found in the first line.
abbrev pub number : Option String → Option ℤ
number none = none
number (some s) = stoi s

abbrev pub crc_passed : Option String → Option ℤ → Option ℤ
crc_passed none n = none
crc_passed (some s) n = n

-- The number in the second line, in thousandths of a degree; `none` is a failure. The lines are
-- those of the file, empty past its end.
unfoldable pub temperature_value : (first second : String) → Option ℤ
unfolding after_first
temperature_value first second =
    crc_passed (after_first "YES" first) (number (after_first "t=" second))

module _ (divided : ℤ → ℕ) where
  abbrev pub measured : ℕ → Option ℤ → Bool × ℕ
  measured old none = (false, old)
  measured old (some n) = (true, divided n)

  -- `readTemperatureSensor`, of a file that may not open; a failure leaves the temperature as it is.
  unfoldable pub read_temperature_sensor :
      (sensor_file : String) → Option (String × String) → (old : ℕ) → Bool × ℕ
  unfolding temperature_value
  read_temperature_sensor sensor_file file old =
      if is_empty sensor_file then (false, old) else elim file [
        | none ↦ (false, old)
        | some (first, second) ↦ measured old (temperature_value first second)
      ]

  -- One round of the thread of `MonitorWorker`: the temperature that it keeps, and what it sends.
  unfoldable monitor_round :
      (float_to_string : ℕ → String)
      → (sensor_file : String) → Option (String × String)
      → (old : ℕ) → ℕ × Noti
  unfolding read_temperature_sensor
  monitor_round float_to_string sensor_file file old =
      let (ok, t) = read_temperature_sensor sensor_file file old in
      (
        t,
        noti DbusCommand.update_temperature_noti ok
            (set_info DbusDataType.temperature_value (float_to_string t) init_info),
      )
