-- ===== src/Coremgr/SqliteDbHandler.antt =====
-- coremgr/src/Controller/SQLiteDBHandler.cpp. Each handler waits for the answer of the thread pool
-- (`future.get()`); the answer is an argument.
use raspberrypiservice.Prelude.{
  Bool, String, [], ◌∷◌, List, Option, ℤ, negsuc, int_eq, str_eq, if◌then◌else◌,
}
use raspberrypiservice.Common.Event.{Payload}
use raspberrypiservice.Coremgr.Core.{
  Core, AudioRecord, Effect, JsonValue, emit, update_state_and_broadcast, as_wav, as_remove_record,
  when_some,
}

unfoldable pub get_all_audio_records : (answer : List AudioRecord) → Core → Core
get_all_audio_records answer c =
    if c.db_thread_pool_set
    then update_state_and_broadcast "success" "Fetched audio records" "Record" "get_all_record_noti"
        (("records", JsonValue.audio_records answer) ∷ []) c
    else c

-- `answer` is the pool's answer to the insertion of the payload's path and duration.
unfoldable pub insert_audio_record :
    (answer : String → ℤ → AudioRecord) → Option Payload → Core → Core
insert_audio_record answer payload = when_some (as_wav payload) λ (path, duration) c.
    let new_record = answer path duration in
    if c.db_thread_pool_set
    then if int_eq new_record.id (negsuc 0)
      then update_state_and_broadcast "fail" "Failed to insert record to DB" "Record"
          "insert_record_noti" [] c
      else update_state_and_broadcast "success" "Record inserted successfully" "Record"
          "insert_record_noti" (("record", JsonValue.audio_record new_record) ∷ []) c
    else c

-- `answer` is the path of the row that was deleted, empty if there was none; `exists` says whether
-- the file is there. `removed_file` is the call of `std::filesystem::remove`, whose result and
-- exceptions only reach the log.
unfoldable pub remove_audio_record :
    (answer : ℤ → String) (exists : String → Bool) → Option Payload → Core → Core
remove_audio_record answer exists payload = when_some (as_remove_record payload) λ id c.
    let path = answer id in
    let fields = ("id", JsonValue.number id) ∷ [] in
    let cleared = if exists path then emit (Effect.removed_file path) c else c in
    if c.db_thread_pool_set
    then if str_eq path ""
      then update_state_and_broadcast "fail" "Failed to remove record from DB" "Record"
          "remove_record_noti" fields c
      else update_state_and_broadcast "success" "Record removed successfully" "Record"
          "remove_record_noti" fields cleared
    else c
