-- ===== src/Hardwaremgr/OfonoDbus/Phonebook.antt =====
-- The phonebook that is kept against the one that is announced.
use raspberrypiservice.Prelude.{
  ◌≡◌, refl, sym, ◌∙◌, ap, true, false, String, List, [], ◌∷◌, ◌++◌, All, append_assoc, Bool-cases,
  inl, inr,
}
use raspberrypiservice.Common.Define.{DbusCommand}
use raspberrypiservice.Common.Text.{is_empty}
use raspberrypiservice.Common.DbusData.{DbusDataType, DbusDataInfo, set_info}
use raspberrypiservice.Hardwaremgr.Hardware.{Call, Answer, Bus, Noti, noti, Hardware, ask}
use raspberrypiservice.Hardwaremgr.OfonoDbus.Containers.{store}
use raspberrypiservice.Hardwaremgr.OfonoDbus.Sync.{
  set_ofono_phonebook_storage, keep_contact, contact_info, contact, contact_paths, properties_of,
  get_ofono_contact_details, contact_list, contacts, get_ofono_contacts, message_info,
  sync_all_ofono_contacts,
}

-- What a client that stores each announced contact makes of a phonebook, the newest announcement
-- first.
abbrev pub learn : List Noti → List (String × String) → List (String × String)
learn [] book = book
learn (noti cmd ok info ∷ ns) book =
    store (info DbusDataType.contact_number) (info DbusDataType.contact_name) (learn ns book)

-- The announcement of a contact with a name and a number.
abbrev pub IsContact : Noti → Type 0
IsContact (noti cmd ok info) =
    (cmd ≡ DbusCommand.pbap_phonebook_pull_noti)
    × (ok ≡ true)
    × (is_empty (info DbusDataType.contact_name) ≡ false)
    × (is_empty (info DbusDataType.contact_number) ≡ false)

-- From `h` to `h'` contacts are announced, and the phonebook is what is learnt from them.
record Pulls (h h' : Hardware) : Type 0 where
  new : List Noti
  sent_new : h'.sent ≡ new ++ h.sent
  learnt : h'.phonebook ≡ learn new h.phonebook
  contacts_only : All IsContact new

learn-append :
    (ns ms : List Noti) (book : List (String × String))
    → learn (ns ++ ms) book ≡ learn ns (learn ms book)
learn-append [] ms book = refl
learn-append (noti cmd ok info ∷ ns) ms book =
    ap (store (info DbusDataType.contact_number) (info DbusDataType.contact_name))
      (learn-append ns ms book)

IsContact-append :
    (ns ms : List Noti) → All IsContact ns → All IsContact ms → All IsContact (ns ++ ms)
IsContact-append [] ms f g = g
IsContact-append (n ∷ ns) ms f g = (f.0, IsContact-append ns ms f.1 g)

Pulls-trans : (a b c : Hardware) → Pulls a b → Pulls b c → Pulls a c
Pulls-trans a b c p q = record {
  new = q.new ++ p.new;
  sent_new = q.sent_new ∙ ap (λ s. q.new ++ s) p.sent_new ∙ sym (append_assoc q.new p.new a.sent);
  learnt = q.learnt ∙ ap (learn q.new) p.learnt ∙ sym (learn-append q.new p.new a.phonebook);
  contacts_only = IsContact-append q.new p.new q.contacts_only p.contacts_only;
}

-- What changes neither the phonebook nor what is sent.
nothing_pulled : (h h' : Hardware) → h'.sent ≡ h.sent → h'.phonebook ≡ h.phonebook → Pulls h h'
nothing_pulled h h' s b = record { new = []; sent_new = s; learnt = b; contacts_only = tt }

keep_contact-Pulls : (info : DbusDataInfo) (h : Hardware) → Pulls h (keep_contact info h)
unfolding set_info
keep_contact-Pulls info h = elim (Bool-cases (is_empty (info DbusDataType.contact_name))) [
  | inl no_name ↦ rw no_name (nothing_pulled h h refl refl)
  | inr named ↦ elim (Bool-cases (is_empty (info DbusDataType.contact_number))) [
    | inl no_number ↦ rw (named, no_number) (nothing_pulled h h refl refl)
    | inr numbered ↦
        rw (named, numbered)
          (record {
            new =
                noti DbusCommand.pbap_phonebook_pull_noti true
                  (set_info DbusDataType.message "New contact pulled." info)
                ∷ [];
            sent_new = refl;
            learnt = refl;
            contacts_only = ((refl, refl, named, numbered), tt);
          })
  ]
]

contact-Pulls : (x : Answer × Hardware) → Pulls x.1 (contact x)
contact-Pulls (Answer.replied r, h) = keep_contact-Pulls (contact_info r) h
contact-Pulls (_, h) = nothing_pulled h h refl refl

-- The same from the state before a call.
after_ask : (bus : Bus) (c : Call) (h h' : Hardware) → Pulls (ask bus c h).1 h' → Pulls h h'
after_ask bus c h h' p = record {
  new = p.new;
  sent_new = p.sent_new;
  learnt = p.learnt;
  contacts_only = p.contacts_only;
}

contact_list-Pulls :
    (paths : List String) (bus : Bus) (h : Hardware) → Pulls h (contact_list paths bus h)
unfolding contact_list get_ofono_contact_details
contact_list-Pulls [] bus h = nothing_pulled h h refl refl
contact_list-Pulls (path ∷ paths) bus h =
    Pulls-trans h _ _ (after_ask bus _ h _ (contact-Pulls (ask bus _ h)))
      (contact_list-Pulls paths bus (get_ofono_contact_details path bus h))

contacts-Pulls : (bus : Bus) (x : Answer × Hardware) → Pulls x.1 (contacts bus x)
contacts-Pulls bus (Answer.replied r, h) =
    contact_list-Pulls (contact_paths (properties_of r)) bus h
contacts-Pulls bus (_, h) = nothing_pulled h h refl refl

get_ofono_contacts-Pulls :
    (modem : String) (bus : Bus) (h : Hardware) → Pulls h (get_ofono_contacts modem bus h)
unfolding get_ofono_contacts
get_ofono_contacts-Pulls modem bus h = after_ask bus _ h _ (contacts-Pulls bus (ask bus _ h))

-- One storage of the phone.
storage-Pulls :
    (modem storage : String) (bus : Bus) (h : Hardware)
    → Pulls h (get_ofono_contacts modem bus (set_ofono_phonebook_storage modem storage bus h))
unfolding set_ofono_phonebook_storage
storage-Pulls modem storage bus h = after_ask bus _ h _ (get_ofono_contacts-Pulls modem bus _)

abbrev pub sync_start : Noti
sync_start =
    noti DbusCommand.pbap_phonebook_pull_start_noti true
      (message_info "Starting phonebook sync. Clear existing contacts.")

abbrev pub sync_end : Noti
sync_end =
    noti DbusCommand.pbap_phonebook_pull_end_noti true (message_info "Phonebook sync complete.")

-- Whatever oFono answers, a sync sends its start, then only contacts, each with a name and a number,
-- then its end; and the phonebook that it leaves is the one that a client has who empties his at the
-- start and stores each contact that is announced.
pub sync_all_ofono_contacts-learn :
    (modem : String) (bus : Bus) (h : Hardware)
    → (new : List Noti) × ((sync_all_ofono_contacts modem bus h).sent
        ≡ sync_end ∷ new ++ sync_start ∷ h.sent)
      × ((sync_all_ofono_contacts modem bus h).phonebook ≡ learn new [])
      × All IsContact new
unfolding sync_all_ofono_contacts
sync_all_ofono_contacts-learn modem bus h =
    let cleared : Hardware = record h { sent = sync_start ∷ h.sent; phonebook = [] } in
    let p =
      Pulls-trans cleared _ _ (storage-Pulls modem "sm" bus cleared)
        (storage-Pulls modem "me" bus _) in
    (p.new, ap (λ s. sync_end ∷ s) p.sent_new, p.learnt, p.contacts_only)
