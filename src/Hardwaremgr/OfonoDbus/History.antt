-- ===== src/Hardwaremgr/OfonoDbus/History.antt =====
-- The call history that is announced.
use raspberrypiservice.Prelude.{
  ℕ, zero, suc, ◌+◌, ◌≤◌, ◌≡◌, refl, sym, ◌∙◌, ap, true, false, String, List, [], ◌∷◌, ◌++◌, All,
  append_assoc, subst, length, length-append, take, Bool-cases, inl, inr, arith,
}
use raspberrypiservice.Common.Define.{DbusCommand}
use raspberrypiservice.Common.Text.{is_empty}
use raspberrypiservice.Common.DbusData.{DbusDataType, DbusDataInfo, set_info}
use raspberrypiservice.Hardwaremgr.Hardware.{Call, Reply, Answer, Bus, Noti, noti, Hardware, ask}
use raspberrypiservice.Hardwaremgr.OfonoDbus.Containers.{lookup}
use raspberrypiservice.Hardwaremgr.OfonoDbus.Sync.{
  find_name_by_number, named, keep_call, call_info, call_details, get_ofono_call_details, call_list,
  max_history_items, call_history, get_ofono_call_history, message_info,
  sync_all_ofono_call_history,
}

abbrev or_unknown : String → String
or_unknown String.[] = "Unknown"
or_unknown name = name

named-or_unknown : (name : String) → named name ≡ or_unknown name
named-or_unknown String.[] = refl
named-or_unknown (String.◌∷◌ c s) = refl

-- The announcement of a call with a number, by the name that the phonebook `h` has for it.
abbrev pub IsHistory : List (String × String) → Noti → Type 0
IsHistory book (noti cmd ok info) =
    (cmd ≡ DbusCommand.call_history_pull_noti)
    × (ok ≡ true)
    × (is_empty (info DbusDataType.call_history_number) ≡ false)
    × (info DbusDataType.call_history_name
        ≡ or_unknown (lookup (info DbusDataType.call_history_number) book))

-- From `h` to `h'` at most `n` calls are announced, and the phonebook stays.
record Tells (n : ℕ) (h h' : Hardware) : Type 0 where
  new : List Noti
  sent_new : h'.sent ≡ new ++ h.sent
  at_most : length new ≤ n
  calls_only : All (IsHistory h.phonebook) new
  same_book : h'.phonebook ≡ h.phonebook

IsHistory-append :
    (book : List (String × String)) (ns ms : List Noti)
    → All (IsHistory book) ns
    → All (IsHistory book) ms
    → All (IsHistory book) (ns ++ ms)
IsHistory-append book [] ms f g = g
IsHistory-append book (n ∷ ns) ms f g = (f.0, IsHistory-append book ns ms f.1 g)

Tells-trans : (n m : ℕ) (a b c : Hardware) → Tells n a b → Tells m b c → Tells (n + m) a c
Tells-trans n m a b c p q = record {
  new = q.new ++ p.new;
  sent_new = q.sent_new ∙ ap (λ s. q.new ++ s) p.sent_new ∙ sym (append_assoc q.new p.new a.sent);
  at_most = omega (arith, length-append q.new p.new, p.at_most, q.at_most);
  calls_only =
      IsHistory-append a.phonebook q.new p.new
        (subst (λ book. All (IsHistory book) q.new) p.same_book q.calls_only) p.calls_only;
  same_book = q.same_book ∙ p.same_book;
}

nothing_told :
    (n : ℕ) (h h' : Hardware) → h'.sent ≡ h.sent → h'.phonebook ≡ h.phonebook → Tells n h h'
nothing_told n h h' s b = record {
  new = [];
  sent_new = s;
  at_most = omega arith;
  calls_only = tt;
  same_book = b;
}

keep_call-Tells : (info : DbusDataInfo) (h : Hardware) → Tells 1 h (keep_call info h)
unfolding set_info find_name_by_number
keep_call-Tells info h = elim (Bool-cases (is_empty (info DbusDataType.call_history_number))) [
  | inl unknown ↦ rw unknown (nothing_told 1 h h refl refl)
  | inr numbered ↦
      let number = info DbusDataType.call_history_number in
      let name = named (find_name_by_number number h) in
      rw numbered (record {
        new =
            noti DbusCommand.call_history_pull_noti true (
              set_info DbusDataType.message "New call history item pulled."
                (set_info DbusDataType.call_history_name name info))
            ∷ [];
        sent_new = refl;
        at_most = omega arith;
        calls_only = ((refl, refl, numbered, named-or_unknown (lookup number h.phonebook)), tt);
        same_book = refl;
      })
]

call_details-Tells : (type : String) (x : Answer × Hardware) → Tells 1 x.1 (call_details type x)
call_details-Tells type (Answer.replied r, h) = keep_call-Tells (call_info type r) h
call_details-Tells type (_, h) = nothing_told 1 h h refl refl

-- The same from the state before a call.
after_ask :
    (n : ℕ) (bus : Bus) (c : Call) (h h' : Hardware) → Tells n (ask bus c h).1 h' → Tells n h h'
after_ask n bus c h h' p = record {
  new = p.new;
  sent_new = p.sent_new;
  at_most = p.at_most;
  calls_only = p.calls_only;
  same_book = p.same_book;
}

Tells-mono : (n m : ℕ) (h h' : Hardware) → n ≤ m → Tells n h h' → Tells m h h'
Tells-mono n m h h' le p = record {
  new = p.new;
  sent_new = p.sent_new;
  at_most = omega (arith, le, p.at_most);
  calls_only = p.calls_only;
  same_book = p.same_book;
}

call_list-Tells :
    (paths : List String) (type : String) (bus : Bus) (h : Hardware)
    → Tells (length paths) h (call_list paths type bus h)
unfolding call_list get_ofono_call_details
call_list-Tells [] type bus h = nothing_told 0 h h refl refl
call_list-Tells (path ∷ paths) type bus h =
    Tells-mono (1 + length paths) (suc (length paths)) h _ (omega arith) (
      Tells-trans 1 (length paths) h _ _
        (after_ask 1 bus _ h _ (call_details-Tells type (ask bus _ h)))
        (call_list-Tells paths type bus (get_ofono_call_details path type bus h)))

length-take : {A : Type 0} (n : ℕ) (xs : List A) → length (take n xs) ≤ n
length-take zero xs = omega arith
length-take (suc n) [] = omega arith
length-take (suc n) (x ∷ xs) = omega (arith, length-take n xs)

call_history-Tells :
    (type : String) (bus : Bus) (x : Answer × Hardware)
    → Tells max_history_items x.1 (call_history type bus x)
call_history-Tells type bus (Answer.replied (Reply.paths paths), h) =
    Tells-mono (length (take max_history_items paths)) max_history_items h _
      (length-take max_history_items paths)
      (call_list-Tells (take max_history_items paths) type bus h)
call_history-Tells type bus (_, h) = nothing_told max_history_items h h refl refl

get_ofono_call_history-Tells :
    (modem type : String) (bus : Bus) (h : Hardware)
    → Tells max_history_items h (get_ofono_call_history modem type bus h)
unfolding get_ofono_call_history
get_ofono_call_history-Tells modem type bus h =
    after_ask max_history_items bus _ h _ (call_history-Tells type bus (ask bus _ h))

abbrev pub history_start : Noti
history_start =
    noti DbusCommand.call_history_pull_start_noti true
      (message_info "Starting call history sync. Clear existing history.")

abbrev pub history_end : Noti
history_end =
    noti DbusCommand.call_history_pull_end_noti true (message_info "Call history sync complete.")

-- Whatever oFono answers, a sync of the call history sends its start, then at most 150 calls, each
-- with a number and with the name that the phonebook has for it, or "Unknown", then its end; and it
-- leaves the phonebook as it is.
pub sync_all_ofono_call_history-at_most :
    (modem : String) (bus : Bus) (h : Hardware)
    → (new : List Noti) × ((sync_all_ofono_call_history modem bus h).sent
        ≡ history_end ∷ new ++ history_start ∷ h.sent)
      × (length new ≤ 150)
      × All (IsHistory h.phonebook) new
      × ((sync_all_ofono_call_history modem bus h).phonebook ≡ h.phonebook)
unfolding sync_all_ofono_call_history
sync_all_ofono_call_history-at_most modem bus h =
    let started : Hardware = record h { sent = history_start ∷ h.sent } in
    let dialed = get_ofono_call_history-Tells modem "dialed" bus started in
    let received = get_ofono_call_history-Tells modem "received" bus _ in
    let missed = get_ofono_call_history-Tells modem "missed" bus _ in
    let p = Tells-trans 100 50 started _ _ (Tells-trans 50 50 started _ _ dialed received) missed in
    (p.new, ap (λ s. history_end ∷ s) p.sent_new, p.at_most, p.calls_only, p.same_book)
