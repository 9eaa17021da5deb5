-- ===== src/Hardwaremgr/OfonoDbus/Ringing.antt =====
-- The call that is answered, as oFono tells its state.
use raspberrypiservice.Prelude.{
  ◌≡◌, refl, ◌∙◌, ap, Bool, true, false, ◌||◌, String, List, [], ◌∷◌, str_eq, eq_iff, if◌then◌else◌,
  Bool-cases, inl, inr,
}
use raspberrypiservice.Common.Text.{is_empty}
use raspberrypiservice.Common.DbusData.{DbusDataType, DbusDataInfo, init_info, set_info}
use raspberrypiservice.Hardwaremgr.Config.{
  ofono_service_name, ofono_voicecall_interface, dbus_properties_interface,
}
use raspberrypiservice.Hardwaremgr.Hardware.{
  Value, Properties, CallArg, Call, call, Reply, Answer, Bus, Hardware, ask,
}
use raspberrypiservice.Hardwaremgr.OfonoDbus.Sync.{entry_property, entry_properties}
use raspberrypiservice.Hardwaremgr.OfonoDbus.Calls.{
  name_call, voice_call, get_voice_call_properties, incoming_call,
}

-- The last text of the key `State`, or `s`.
abbrev pub state_told : Properties → (s : String) → String
state_told [] s = s
state_told ((key, Value.text t) ∷ ps) s = state_told ps (if str_eq key "State" then t else s)
state_told (_ ∷ ps) s = state_told ps s

abbrev pub rings : Answer → Bool
rings (Answer.replied (Reply.properties ps)) =
    let state = state_told ps "" in str_eq state "incoming" || str_eq state "waiting"
rings _ = false

abbrev pub question : String → Call
question path =
    call ofono_service_name path dbus_properties_interface "GetAll"
      (CallArg.text_arg ofono_voicecall_interface ∷ [])

-- The first of the paths whose call rings when it is asked about, or the empty text, with the calls
-- that oFono has had by then.
abbrev pub ringing : List String → Bus → List Call → String × List Call
ringing [] bus cs = ("", cs)
ringing (path ∷ paths) bus cs =
    let asked = question path ∷ cs in
    let rest = ringing paths bus asked in
    if rings (bus cs (question path)) then (path, asked) else rest

other_key : (key : String) → str_eq key "LineIdentification" ≡ true → str_eq key "State" ≡ false
other_key key h = ap (λ k. str_eq k "State") ((eq_iff key "LineIdentification").0 h)

entry_property-state_told :
    (key : String) (v : Value) (ps : Properties) (info : DbusDataInfo)
    → state_told ps (
        entry_property "LineIdentification" DbusDataType.call_number "State" DbusDataType.call_state
          key v info DbusDataType.call_state)
      ≡ state_told ((key, v) ∷ ps) (info DbusDataType.call_state)
unfolding set_info
entry_property-state_told key (Value.text t) ps info =
    elim (Bool-cases (str_eq key "LineIdentification")) [
      | inl number ↦ rw (number, other_key key number) refl
      | inr other ↦ elim (Bool-cases (str_eq key "State")) [
        | inl state ↦ rw (other, state) refl
        | inr neither ↦ rw (other, neither) refl
      ]
    ]
entry_property-state_told key _ ps info = refl

entry_properties-state_told :
    (ps : Properties) (info : DbusDataInfo)
    → entry_properties "LineIdentification" DbusDataType.call_number "State" DbusDataType.call_state
        ps info DbusDataType.call_state
      ≡ state_told ps (info DbusDataType.call_state)
unfolding entry_properties
entry_properties-state_told [] info = refl
entry_properties-state_told ((key, v) ∷ ps) info =
    entry_properties-state_told ps _ ∙ entry_property-state_told key v ps info

name_call_state :
    (info : DbusDataInfo) (h : Hardware)
    → name_call info h DbusDataType.call_state ≡ info DbusDataType.call_state
unfolding set_info
name_call_state info h = elim (Bool-cases (is_empty (info DbusDataType.call_number))) [
  | inl unknown ↦ rw unknown refl
  | inr numbered ↦ rw numbered refl
]

voice_call-rings :
    (a : Answer) (h : Hardware)
    → let state = (voice_call (a, h)).0 DbusDataType.call_state in
      (str_eq state "incoming" || str_eq state "waiting") ≡ rings a
unfolding init_info entry_properties
voice_call-rings (Answer.replied (Reply.properties ps)) h =
    let info =
      entry_properties "LineIdentification" DbusDataType.call_number "State" DbusDataType.call_state
        ps init_info in
    ap (λ state. str_eq state "incoming" || str_eq state "waiting")
      (name_call_state info h ∙ entry_properties-state_told ps init_info)
voice_call-rings (Answer.replied _) h =
    ap (λ state. str_eq state "incoming" || str_eq state "waiting") (name_call_state init_info h)
voice_call-rings _ h = refl

-- What `incoming_call` finds, and the calls that it has made.
abbrev pub found : String × Hardware → String × List Call
found (path, h) = (path, h.calls)

found-if :
    (b : Bool) (x y : String × Hardware)
    → found (if b then x else y) ≡ (if b then found x else found y)
found-if true x y = refl
found-if false x y = refl

voice_call_calls : (x : Answer × Hardware) → (voice_call x).1.calls ≡ x.1.calls
voice_call_calls (Answer.replied r, h) = refl
voice_call_calls (_, h) = refl

pub found-incoming_call :
    (paths : List String) (bus : Bus) (h : Hardware)
    → found (incoming_call paths bus h) ≡ ringing paths bus h.calls
unfolding incoming_call get_voice_call_properties
found-incoming_call [] bus h = refl
found-incoming_call (path ∷ paths) bus h =
    let (props, h') = get_voice_call_properties path bus h in
    let asked = question path ∷ h.calls in
    let same : h'.calls ≡ asked = voice_call_calls (ask bus (question path) h) in
    let later = found-incoming_call paths bus h' ∙ ap (ringing paths bus) same in
    let rung = voice_call-rings (bus h.calls (question path)) (ask bus (question path) h).1 in
    found-if _ (path, h') (incoming_call paths bus h')
    ∙ ap (λ b. if b then (path, h'.calls) else found (incoming_call paths bus h')) rung
    ∙ ap
        (λ cs.
          if rings (bus h.calls (question path))
          then (path, cs)
          else found (incoming_call paths bus h'))
        same
    ∙ ap (λ r. if rings (bus h.calls (question path)) then (path, asked) else r) later
