-- ===== src/Hardwaremgr/Addresses.antt =====
-- The address of a device and the path of its object (hardwaremgr/src/BT/BluezDBus.cpp,
-- hardwaremgr/src/BT/BluetoothAgent.cpp, hardwaremgr/src/Thread/BluetoothWorker.cpp).
use Prim.Native.Char.{Char, code}
use Prim.Native.String.append
use Prim.Native.String.{◌++◌ as str_append}
use text.Mathlib.TextLemmas.{append_assoc as str_append_assoc}
use raspberrypiservice.Prelude.{
  ℕ, ◌≡◌, refl, sym, ◌∙◌, ap, subst, true, false, String, List, [], ◌∷◌, ◌++◌, some, All, ◌==◌,
  Bool-cases, inl, inr,
}
use raspberrypiservice.Common.Define.{DbusCommand}
use raspberrypiservice.Common.Stdlib.{codes}
use raspberrypiservice.Common.Stdlib.RoundTrip.{codes-append}
use raspberrypiservice.Common.Text.{replace, after_first, after_last}
use raspberrypiservice.Common.Text.Search.{
  Lacks, replace-replace, after_last-append, after_first-append, after_last-start,
}
use raspberrypiservice.Hardwaremgr.Hardware.{Hardware, notify}
use raspberrypiservice.Hardwaremgr.BluezDbus.Requests.{device_address_to_object_path}
use raspberrypiservice.Hardwaremgr.BluetoothAgent.{address_in, device_address}
use raspberrypiservice.Hardwaremgr.BluetoothWorker.Bluez.{
  to_address, removed_info, removed_at, device_removed,
}

replace-Lacks :
    (n a : ℕ) (b : Char) (s : String) → (code b == n) ≡ false → Lacks n s → Lacks n (replace a b s)
unfolding replace
replace-Lacks n a b String.[] other h = tt
replace-Lacks n a b (String.◌∷◌ c s) other h = elim (Bool-cases (code c == a)) [
  | inl same ↦ rw same (other, replace-Lacks n a b s other h.1)
  | inr kept ↦ rw kept (h.0, replace-Lacks n a b s other h.1)
]

All-append :
    (n : ℕ) (xs ys : List ℕ)
    → All (λ c. (c == n) ≡ false) xs
    → All (λ c. (c == n) ≡ false) ys
    → All (λ c. (c == n) ≡ false) (xs ++ ys)
All-append n [] ys f g = g
All-append n (x ∷ xs) ys f g = (f.0, All-append n xs ys f.1 g)

append-Lacks : (n : ℕ) (s t : String) → Lacks n s → Lacks n t → Lacks n (str_append s t)
append-Lacks n s t f g =
    subst (λ cs. All (λ c. (c == n) ≡ false) cs) (sym (codes-append s t))
      (All-append n (codes s) (codes t) f g)

-- "/dev_" is "/" before "dev_".
slash_apart :
    (adapter rest : String)
    → str_append adapter (str_append "/dev_" rest)
      ≡ str_append (str_append adapter "/") (str_append "dev_" rest)
slash_apart adapter rest =
    let name = str_append "dev_" rest in
    let slash : str_append "/" name ≡ String.◌∷◌ "/" name =
      append.cons "/" "" name ∙ ap (String.◌∷◌ "/") (append.nil name) in
    ap (str_append adapter) (append.cons "/" "dev_" rest ∙ sym slash)
    ∙ sym (str_append_assoc adapter "/" name)

-- The address as it stands in the path.
abbrev written : String → String
written address = replace b':' "_" address

written_back :
    (address : String) → Lacks b'_' address → replace b'_' ":" (written address) ≡ address
written_back address h = replace-replace ":" "_" address h

last_found :
    (adapter address : String)
    → Lacks b'd' address
    → after_last "dev_" (str_append adapter (str_append "/dev_" (written address)))
      ≡ some (written address)
last_found adapter address h =
    let tail =
      append-Lacks b'd' "ev_" (written address) (refl, (refl, (refl, tt)))
        (replace-Lacks b'd' b':' "_" address refl h) in
    ap (after_last "dev_") (slash_apart adapter (written address))
    ∙ after_last-append "dev_" (str_append adapter "/") (str_append "dev_" (written address))
        (written address) (after_last-start "d" "ev_" (written address) tail)

first_found :
    (adapter address : String)
    → Lacks b'd' adapter
    → after_first "dev_" (str_append adapter (str_append "/dev_" (written address)))
      ≡ some (written address)
first_found adapter address h =
    ap (after_first "dev_") (slash_apart adapter (written address))
    ∙ after_first-append "d" "ev_" (str_append adapter "/") (written address)
        (append-Lacks b'd' adapter "/" h (refl, tt))

-- If neither the path of the adapter nor the address has a "d", and the address has no "_", the path
-- of a device leads back to its address: the agent reads it from the path, and a device that is
-- removed is announced with it.
pub device_address-device_address_to_object_path :
    (adapter address : String) (h : Hardware)
    → Lacks b'd' adapter
    → Lacks b'd' address
    → Lacks b'_' address
    → (device_address (device_address_to_object_path adapter address) ≡ address)
      × (device_removed (device_address_to_object_path adapter address) h
          ≡ notify DbusCommand.scanning_btdevice_delete_noti true (removed_info address) h)
unfolding device_address device_address_to_object_path device_removed to_address
device_address-device_address_to_object_path adapter address h no_d_adapter no_d no_line = (
  ap address_in (last_found adapter address no_d) ∙ written_back address no_line,
  ap (λ o. removed_at o h) (first_found adapter address no_d_adapter)
      ∙ ap (λ a. notify DbusCommand.scanning_btdevice_delete_noti true (removed_info a) h)
          (written_back address no_line),
)
