-- ===== src/Storage/Sqlite/Examples.antt =====
-- Runs of the SQLite storage.
use thingsboard_gateway.Prelude.{ℕ, [], ◌∷◌, ◌++◌, ◌≡◌, refl, true, false, some, length, inr, arith}
use thingsboard_gateway.Storage.Sqlite.Table.{Row, Table, messages_of}
use thingsboard_gateway.Storage.Sqlite.Table.Order.{IsIncreasing}
use thingsboard_gateway.Storage.Sqlite.Database.{
  Settings, Database, checks_expiry, expire, process, database_has_records, delete_data_lte,
}
use thingsboard_gateway.Storage.Sqlite.Files.{
  SqliteEventStorage, select_initial_db_files, last_name, find, modify, has_records, is_oversize,
  remove_file, write_round, get_event_pack, event_pack_processing_done, data_from_storage,
}
use thingsboard_gateway.Storage.Sqlite.Keeps.{messages, messages_in, rows_at, AllSound}
use thingsboard_gateway.Storage.Sqlite.Keeps.Done.{IsReading}
use thingsboard_gateway.Storage.Sqlite.Count.{len, IsNamed, IsServed, len-messages}
use thingsboard_gateway.Storage.Sqlite.Keeps.Ahead.{IsFront, AllAhead}
use thingsboard_gateway.Storage.Sqlite.Keeps.Once.{get-done_messages}
use thingsboard_gateway.Storage.Sqlite.Keeps.Write.{IsWriting, write_round-messages}

program : Unit {0}
unfolding checks_expiry expire delete_data_lte last_name find modify has_records
    database_has_records messages_in messages_of select_initial_db_files process write_round
    get_event_pack event_pack_processing_done
program = tt

abbrev settings : Settings
settings = record {
  messages_ttl_check_in_hours = 3600;
  messages_ttl_in_days = 7;
  max_read_records_count = 2;
  batch_size = 2;
  size_limit = 1;
  max_db_amount = 2;
  oversize_check_period = 1;
  warnings = [];
}

abbrev row : ℕ → ℕ → Row ℕ
row id message = record { id = id; timestamp = 1700000000000; message = message }

-- A table with three messages.
abbrev table : Table ℕ
table = record { rows = row 1 10 ∷ row 2 11 ∷ row 3 12 ∷ []; last_id = 3 }

abbrev database : Database ℕ
database = record {
  name = 5;
  table = table;
  next_batch = row 1 10 ∷ row 2 11 ∷ [];
  can_prepare = false;
  should_read = true;
  should_write = true;
  reached_size_limit = false;
  last_msg_check = 0;
  closed = false;
}

abbrev storage : SqliteEventStorage ℕ
storage = record {
  settings = settings;
  write_queue = 13 ∷ 14 ∷ 15 ∷ [];
  stopped = false;
  database_files = database ∷ [];
  read_database = 5;
  write_database = 5;
  is_max_db_amount_reached = false;
  delete_time_point = 0;
}

-- The files that are read and written first.
initial_files :
    (select_initial_db_files [] ≡ (0, 0))
    × (select_initial_db_files (0 ∷ []) ≡ (0, 0))
    × (select_initial_db_files (3 ∷ 5 ∷ 9 ∷ []) ≡ (3, 9))
unfolding program
initial_files = (refl, refl, refl)

-- A pack is kept until it is confirmed.
pack_kept :
    ((get_event_pack (λ m. false) [] 9 storage).1 ≡ 10 ∷ 11 ∷ [])
    × (messages (event_pack_processing_done [] 9 0 (get_event_pack (λ m. false) [] 9 storage).0)
        ≡ 12 ∷ 13 ∷ 14 ∷ 15 ∷ [])
unfolding program
pack_kept = (refl, refl)

-- After it the next pack is the message that is left.
next_pack :
    (get_event_pack
      (λ m. false)
      []
      9
      (event_pack_processing_done [] 9 0 (get_event_pack (λ m. false) [] 9 storage).0)).1
    ≡ 12 ∷ []
unfolding program
next_pack = refl

-- The only file that may be, over its limit and read to its end.
abbrev full_storage : SqliteEventStorage ℕ
full_storage = record storage {
  settings = record settings { max_db_amount = 1 };
  database_files =
      record database { table = record { rows = []; last_id = 3 }; next_batch = [] } ∷ [];
}

-- A batch that the thread writes into it while its deletion waits is deleted with it.
drained_lost :
    messages (event_pack_processing_done ((1700000000001, 9) ∷ []) 9 1000000 full_storage) ≡ 15 ∷ []
unfolding program is_oversize remove_file
drained_lost = refl

-- A batch of two goes from the queue to the table.
batch_written : (write_round 1700000000001 9 storage).write_queue ≡ 15 ∷ []
unfolding program
batch_written = refl

-- After a look for expired messages the next comes when the time has doubled.
not_again :
    checks_expiry settings 1900000000000 (expire settings 1800000000000 false database) ≡ false
unfolding program
not_again = refl

writing : IsWriting storage [] database
writing = record { last = refl; write = refl; unique = tt }

write_round-messages_example : messages (write_round 1700000000001 9 storage) ≡ messages storage
write_round-messages_example =
    write_round-messages 1700000000001 9 storage [] database writing
      (omega arith, (omega arith, (omega arith, tt)))

increasing : IsIncreasing 0 table.rows
unfolding IsIncreasing
increasing = (omega arith, (omega arith, (omega arith, tt)))

sound : AllSound storage.database_files
sound = (
  record {
    is_open = refl;
    ordered = record {
      increasing = increasing;
      counted = (omega arith, (omega arith, (omega arith, tt)));
    };
  },
  tt,
)

reading : IsReading storage database []
reading = record { first = refl; read = refl; fresh = increasing; size = 2; ahead = refl }

ahead : AllAhead storage
ahead = ((row 3 12 ∷ [], refl), tt)

get-done_messages_example :
    let r = get_event_pack (λ m. false) [] 9 storage in
    let s' = event_pack_processing_done [] 9 0 r.0 in
    (r.1 ++ messages s' ≡ messages storage)
    × IsFront (data_from_storage s') (rows_at s'.read_database s'.database_files)
get-done_messages_example =
    get-done_messages (λ m. false) 9 9 0 storage database [] refl sound ahead reading
      (refl, (refl, (refl, tt)))

storage-IsServed : IsServed storage database database
unfolding program IsNamed
storage-IsServed = record {
  named = (refl, tt, tt);
  read = refl;
  write = refl;
  apart = inr (omega arith);
}

len-messages_example : len storage ≡ some (length (messages storage))
len-messages_example = len-messages storage database database storage-IsServed
