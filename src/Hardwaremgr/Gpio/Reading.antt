-- ===== src/Hardwaremgr/Gpio/Reading.antt =====
-- What is read of the sensor's file.
use Prim.Native.String.{◌++◌ as str_append}
use raspberrypiservice.Prelude.{ℕ, ◌≡◌, refl, ◌∙◌, ap, true, false, String, some, ℤ}
use raspberrypiservice.Common.Text.{is_empty, after_first}
use raspberrypiservice.Common.Text.Search.{Lacks, after_first-append, after_first-Lacks}
use raspberrypiservice.Common.Stdlib.{to_string}
use raspberrypiservice.Common.Stdlib.RoundTrip.{IsInt, stoi-to_string}
use raspberrypiservice.Hardwaremgr.Gpio.{
  number, crc_passed, temperature_value, measured, read_temperature_sensor,
}

-- The two lines that the driver of the sensor writes: a check that has passed, and `n` thousandths.
abbrev pub passed_line : (crc rest : String) → String
passed_line crc rest = str_append crc (str_append "YES" rest)

abbrev pub data_line : (hex : String) → ℤ → String
data_line hex n = str_append hex (str_append "t=" (to_string n))

module _ (divided : ℤ → ℕ) where
  read_lines :
      (sensor_file first second : String) (old : ℕ)
      → is_empty sensor_file ≡ false
      → read_temperature_sensor divided sensor_file (some (first, second)) old
        ≡ measured divided old (temperature_value first second)
  unfolding read_temperature_sensor
  read_lines sensor_file first second old h = rw h refl

  -- A sensor file is read back: if its first line has a "YES" that no "Y" precedes, and its second
  -- line has the text of an `int` after a "t=" that no "t" precedes, the temperature is that `int`
  -- divided, with success; a first line without a "Y" is a failure that leaves the temperature as it
  -- is, whatever the second line has.
  pub read_temperature_sensor-to_string :
      (sensor_file crc rest hex other : String) (n : ℤ) (old : ℕ)
      → is_empty sensor_file ≡ false
      → Lacks b'Y' crc
      → Lacks b't' hex
      → IsInt n
      → (read_temperature_sensor divided sensor_file
            (some (passed_line crc rest, data_line hex n))
            old
          ≡ (true, divided n))
        × (read_temperature_sensor divided sensor_file (some (crc, other)) old ≡ (false, old))
  unfolding temperature_value
  read_temperature_sensor-to_string sensor_file crc rest hex other n old there no_y no_t int = (
    read_lines sensor_file (passed_line crc rest) (data_line hex n) old there
        ∙ ap
            (λ o. measured divided old (crc_passed o (number (after_first "t=" (data_line hex n)))))
            (after_first-append "Y" "ES" crc rest no_y)
        ∙ ap (λ o. measured divided old (number o))
            (after_first-append "t" "=" hex (to_string n) no_t)
        ∙ ap (measured divided old) (stoi-to_string n int),
    read_lines sensor_file crc other old there
        ∙ ap (λ o. measured divided old (crc_passed o (number (after_first "t=" other))))
            (after_first-Lacks "Y" "ES" crc no_y),
  )
