-- ===== src/Common/Dbus/Memory.antt =====
-- A libdbus that keeps a message in memory: it shows that what libdbus documents can be met, and lets
-- the theorems be applied to signals.
use raspberrypiservice.Prelude.{
  ◌≡◌, refl, sym, subst, ap, true, ◌&&◌, String, List, [], ◌∷◌, ◌++◌, Option, none, some, str_eq,
  eq_refl,
}
use raspberrypiservice.Common.Dbus.Libdbus.{Item, signature_of, Libdbus, IsAppended, IsDocumented}

pub record MemoryMessage : Type 0 where
  pub path : String
  pub interface : String
  pub name : String
  pub args : List Item

abbrev appended : Item → MemoryMessage → MemoryMessage
appended item m = record m { args = m.args ++ item ∷ [] }

abbrev MemoryArray : Type 0
MemoryArray = MemoryMessage × List String

abbrev pub memory : Libdbus
memory = record {
  Message = MemoryMessage;
  Array = MemoryArray;
  new_signal = λ path interface name.
      some (record { path = path; interface = interface; name = name; args = [] });
  append_int32 = λ n m. some (appended (Item.int32 n) m);
  append_boolean = λ b m. some (appended (Item.boolean b) m);
  open_container = λ m. some (m, []);
  append_string = λ s a. some (a.0, a.1 ++ s ∷ []);
  close_container = λ a. some (appended (Item.strings a.1) a.0);
  has_valid_type = λ m. true;
  get_path = λ m. some m.path;
  get_interface = λ m. some m.interface;
  is_signal = λ m interface name. str_eq m.interface interface && str_eq m.name name;
  get_signature = λ m. some (signature_of m.args);
  get_args = λ m. m.args;
  array_message = λ a. a.0;
  array_texts = λ a. a.1;
}

abbrev from_some : {A : Type 0} → A → Option A → A
from_some d none = d
from_some d (some a) = a

appended-IsAppended :
    (item : Item) (m m' : MemoryMessage)
    → some (appended item m) ≡ some m'
    → IsAppended memory m m' item
appended-IsAppended item m m' h =
    let e : m' ≡ appended item m = sym (ap (from_some m) h) in
    record {
      args_appended = λ i. (e i).args;
      signal_kept = λ interface name i. str_eq (e i).interface interface && str_eq (e i).name name;
    }

fresh_names :
    (path interface name : String) (m : MemoryMessage)
    → some (record { path = path; interface = interface; name = name; args = [] }) ≡ some m
    → (str_eq m.interface interface && str_eq m.name name) ≡ true
fresh_names path interface name m h =
    let e : m ≡ record { path = path; interface = interface; name = name; args = [] } =
      sym (ap (from_some m) h) in
    subst (λ n. (str_eq n.interface interface && str_eq n.name name) ≡ true) (sym e)
      (rw (eq_refl interface, eq_refl name) refl)

pub memory-IsDocumented : IsDocumented memory
memory-IsDocumented = record {
  new_signal_args = λ path interface name m h. ap (λ o. (from_some m o).args) (sym h);
  new_signal_names = fresh_names;
  int32_appended = λ n m m' h. appended-IsAppended (Item.int32 n) m m' h;
  boolean_appended = λ b m m' h. appended-IsAppended (Item.boolean b) m m' h;
  container_opened =
      λ m a h. (ap (λ o. (from_some a o).0) (sym h), ap (λ o. (from_some a o).1) (sym h));
  string_appended =
      λ s a a' h. (ap (λ o. (from_some a o).0) (sym h), ap (λ o. (from_some a o).1) (sym h));
  container_closed = λ a m' h. appended-IsAppended (Item.strings a.1) a.0 m' h;
  signature_of_args = λ m. refl;
}
