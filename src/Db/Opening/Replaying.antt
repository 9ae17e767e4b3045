-- ===== src/Db/Opening/Replaying.antt =====
-- A log that `Write` wrote, batch by batch, is replayed by `recover` after a crash.
use am_kv.Prelude.{
  ok-injective, ℕ, ◌+◌, ◌%◌, ◌^◌, ◌<◌, ◌≡◌, refl, sym, ap, ◌∙◌, subst, true, false, Bool, List, [],
  ◌∷◌, ◌++◌, append_assoc, append-nil, Bytes, length, Option, none, some, Result, ok, fault, ◌>>=◌,
  String,
}
use am_kv.Db.{Db}
use am_kv.Db.Operations.{add_update, log_batch, insert_batch, write_batch}
use am_kv.Db.Opening.{mem_or_new, replay_record, replay_records, replay_logs}
use am_kv.Env.{FileSystem}
use am_kv.Log.Layout.{layout}
use am_kv.Log.RoundTrip.{layouts}
use am_kv.Log.Writer.{Writer}
use am_kv.Log.Writing.{IsReady, add_record-layout}
use am_kv.Log.Writing.Reliable.{add_record_succeeds}
use am_kv.MemTable.Table.{MemTable, Answers}
use am_kv.Status.{Status, status_ok, is_ok}
use am_kv.VersionEdit.{FileMetaData}
use am_kv.VersionSet.{VersionSet, mark_file_number_used}
use am_kv.VersionSet.Recovery.Reading.{AreWhole, quiet_file, record_outs-views, read_records-log}
use am_kv.WritableFile.{WritableFile, Laws, Reliable, Syncs, SyncsReliably}
use am_kv.WriteBatch.{insert_into, set_sequence}

cons≢nil : {x : Bytes} {xs : List Bytes} → (x ∷ xs) ≡ [] → ⊥
cons≢nil e = cc

bind_assoc :
    {A B C : Type 0} (m : Result A) (f : A → Result B) (g : B → Result C)
    → ((m >>= f) >>= g) ≡ (m >>= λ a. f a >>= g)
bind_assoc (ok a) f g = refl
bind_assoc (fault e) f g = refl

-- What a batch makes of a memtable.
abbrev batch_mem : (ℕ → Answers) → Bytes → MemTable → Result MemTable
batch_mem answers rep mem =
    insert_into (add_update answers) rep (ok mem) >>= λ handler. handler.memtable

replay_record-batch_mem :
    (address : ℕ) (answers : ℕ → Answers) (rep : Bytes) (mem : Option MemTable)
    → replay_record address answers rep mem
      ≡ (batch_mem answers rep (mem_or_new address mem) >>= λ m. ok (some m))
unfolding replay_record
replay_record-batch_mem address answers rep mem = sym (
    bind_assoc (insert_into (add_update answers) rep (ok (mem_or_new address mem)))
      (λ handler. handler.memtable) (λ m. ok (some m)))

module _ (w : WritableFile) (laws : Laws w) (sure : Reliable w laws) (syncs : Syncs w laws)
    (closes : SyncsReliably w laws sure syncs) (fs : FileSystem w)
    (insert_added : FileMetaData → List FileMetaData → List FileMetaData) where
  -- A log between two batches, of which everything is stored.
  pub record IsSynced (log : Writer w.State) : Type 0 where
    pub ready : IsReady w laws log
    pub healthy : sure.IsHealthy log.dest
    pub stored : syncs.stored log.dest ≡ laws.contents log.dest

  -- The batch is behind what the log held.
  abbrev IsLogged : Bytes → Writer w.State → Bool × (Status × Writer w.State) → Type 0
  IsLogged rep log r =
      (r.0 ≡ false)
      × (IsSynced r.1.1)
      × (r.1.1.block_offset ≡ (layout log.block_offset rep).next)
      × (laws.contents r.1.1.dest ≡ laws.contents log.dest ++ (layout log.block_offset rep).bytes)

  log_batch-IsLogged :
      (rep : Bytes) (log : Writer w.State)
      → IsSynced log
      → (r : Bool × (Status × Writer w.State)) × (log_batch w fs insert_added rep log ≡ ok r)
        × IsLogged rep log r
  unfolding log_batch
  log_batch-IsLogged rep log s =
      let (r, run, leaves) = add_record-layout w laws rep log s.ready in
      let (q, run_q, good_q, h_q) = add_record_succeeds w laws sure rep log s.ready s.healthy in
      let same : r ≡ q = ok-injective r q (sym run ∙ run_q) in
      let good : is_ok r.0 ≡ true = ap (λ x. is_ok x.0) same ∙ good_q in
      let h : sure.IsHealthy r.1.dest = subst (λ x. sure.IsHealthy x.1.dest) (sym same) h_q in
      let (wrote, next, ready) = leaves good in
      let synced = closes.sync_succeeds r.1.dest h in
      let kept = syncs.contents_sync r.1.dest synced in
      let after : Writer w.State = record {
        dest = (w.sync r.1.dest).1;
        block_offset = r.1.block_offset;
      } in
      (
        (false, ((w.sync r.1.dest).0, after)),
        rw (run, good, synced),
        (
          refl,
          record {
            ready = record {
              empty_buffer = syncs.room_sync r.1.dest synced;
              in_block = ready.in_block;
            };
            healthy = closes.sync_keeps r.1.dest h;
            stored = syncs.stored_sync r.1.dest synced ∙ sym kept;
          },
          next,
          kept ∙ wrote,
        ),
      )

  -- The database behind a batch.
  abbrev behind : Db w.State → Writer w.State → MemTable → Db w.State
  behind db log mem = record db {
    log = log;
    mem = mem;
    versions = record db.versions { last_sequence = (db.versions.last_sequence + 0) % 2 ^ 64 };
  }

  abbrev written : Db w.State → Writer w.State → MemTable → Result (Status × Db w.State)
  written db log mem = ok (status_ok, behind db log mem)

  write_batch-batch_mem :
      (answers : ℕ → Answers) (rep : Bytes) (db : Db w.State) (r : Bool × (Status × Writer w.State))
      → log_batch w fs insert_added rep db.log ≡ ok r
      → r.0 ≡ false
      → write_batch w fs insert_added answers rep db
        ≡ (batch_mem answers rep db.mem >>= written db r.1.1)
  unfolding write_batch insert_batch set_sequence
  write_batch-batch_mem answers rep db r run stays =
      rw (run, stays)
        (sym (
          bind_assoc (insert_into (add_update answers) rep (ok db.mem))
            (λ handler. handler.memtable) (written db r.1.1)))

  -- `Write` of one batch after the other, behind `makeRoomForWrite`.
  abbrev pub write_batches : (ℕ → ℕ → Answers) → ℕ → List Bytes → Db w.State → Result (Db w.State)
  write_batches answers i [] db = ok db
  write_batches answers i (rep ∷ reps) db =
      write_batch w fs insert_added (answers i) rep db >>= λ r.
      write_batches answers (i + 1) reps r.1

  -- The log holds the batches, and their replay gives the memtable.
  abbrev Agrees : Db w.State → List Bytes → Result (Db w.State) → Result (Option MemTable) → Type 0
  Agrees db reps (ok db') replayed =
      (replayed ≡ ok (some db'.mem))
      × (syncs.stored db'.log.dest ≡ laws.contents db.log.dest ++ layouts db.log.block_offset reps)
  Agrees db reps (fault e) replayed = Unit

  -- What agrees behind the first batch agrees before it.
  further :
      (db db1 : Db w.State) (rep : Bytes) (reps : List Bytes)
      → laws.contents db1.log.dest
        ≡ laws.contents db.log.dest ++ (layout db.log.block_offset rep).bytes
      → db1.log.block_offset ≡ (layout db.log.block_offset rep).next
      → (run : Result (Db w.State)) (replayed : Result (Option MemTable))
      → Agrees db1 reps run replayed
      → Agrees db (rep ∷ reps) run replayed
  unfolding layouts
  further db db1 rep reps wrote next (fault e) replayed a = tt
  further db db1 rep reps wrote next (ok db') replayed (same, stored) = (
    same,
    stored
        ∙ ap (λ c. c ++ layouts db1.log.block_offset reps) wrote
        ∙ append_assoc (laws.contents db.log.dest) _ _
        ∙ ap
            (λ o.
              laws.contents db.log.dest
              ++ ((layout db.log.block_offset rep).bytes ++ layouts o reps))
            next,
  )

  write_batches-Agrees :
      (address : ℕ) (answers : ℕ → ℕ → Answers) (i : ℕ) (reps : List Bytes) (db : Db w.State)
      (mem : Option MemTable)
      → IsSynced db.log
      → mem_or_new address mem ≡ db.mem
      → (reps ≡ [] → mem ≡ some db.mem)
      → Agrees db reps (write_batches answers i reps db) (replay_records address answers i reps mem)
  unfolding replay_records layouts
  write_batches-Agrees address answers i [] db mem s begun given =
      (ap ok (given refl), s.stored ∙ sym (append-nil (laws.contents db.log.dest)))
  write_batches-Agrees address answers i (rep ∷ reps) db mem s begun given =
      let (r, run, (stays, s', next, wrote)) = log_batch-IsLogged rep db.log s in
      rw
        (
          write_batch-batch_mem (answers i) rep db r run stays,
          replay_record-batch_mem address (answers i) rep mem,
          begun,
        )
        (elim (batch_mem (answers i) rep db.mem)
          as (λ b.
            Agrees db (rep ∷ reps)
              ((b >>= written db r.1.1) >>= λ q. write_batches answers (i + 1) reps q.1)
              ((b >>= λ m. ok (some m)) >>= replay_records address answers (i + 1) reps)) [
                | fault e ↦ tt
                | ok m ↦
                    further db (behind db r.1.1 m) rep reps wrote next
                      (write_batches answers (i + 1) reps (behind db r.1.1 m)) _
                      (write_batches-Agrees address answers (i + 1) reps (behind db r.1.1 m)
                        (some m) s' refl (λ _. refl))
              ])

  -- A log is begun on a fresh file for a new memtable, and `Write` of batches runs on it, behind
  -- `makeRoomForWrite`, where no flush or sync fails. If the database is lost then, and `recover` replays
  -- the log from what is stored of its file, it has the memtable that the writes had made; if a write
  -- of a batch faults, the run faults at it. There is one batch at least, and the record of each fits
  -- into the rest of the block in which it begins. One round more of the reading loop than there are
  -- batches is enough; the environment is to answer the same in both runs, and no read of the log is short
  -- or fails.
  pub replay_logs-write_batches :
      (exists : Bytes → fs.World → Bool) (make_dir : Bytes → fs.World → fs.World)
      (read_current : Bytes → fs.World → Bytes) (name : String) (fuel address number : ℕ)
      (answers : ℕ → ℕ → Answers) (rep : Bytes) (reps : List Bytes) (db : Db w.State)
      (world : fs.World) (versions : VersionSet w.State)
      → IsSynced db.log
      → laws.contents db.log.dest ≡ []
      → db.log.block_offset ≡ 0
      → db.mem ≡ mem_or_new address none
      → AreWhole 0 (rep ∷ reps)
      → length (rep ∷ reps) < fuel
      → (write_batches answers 0 (rep ∷ reps) db >>= λ db'.
          replay_logs w fs insert_added exists
            (λ path world'. (status_ok, quiet_file name (syncs.stored db'.log.dest)))
            make_dir
            read_current
            false
            fuel
            address
            (λ _. answers)
            db.db_name
            (number ∷ [])
            world
            status_ok
            versions
            none)
        ≡ (write_batches answers 0 (rep ∷ reps) db >>= λ db'.
            ok (status_ok, (mark_file_number_used number versions, some db'.mem)))
  unfolding replay_logs
  replay_logs-write_batches exists make_dir read_current name fuel address number answers rep reps
        db world versions s empty start mem whole enough =
      lost (write_batches answers 0 (rep ∷ reps) db) (
        write_batches-Agrees address answers 0 (rep ∷ reps) db none s (sym mem)
          (λ e. absurd (cons≢nil e)))
    where
      lost :
          (run : Result (Db w.State))
          → Agrees db (rep ∷ reps) run (replay_records address answers 0 (rep ∷ reps) none)
          → (run >>= λ db'.
              replay_logs w fs insert_added exists
                (λ path world'. (status_ok, quiet_file name (syncs.stored db'.log.dest)))
                make_dir
                read_current
                false
                fuel
                address
                (λ _. answers)
                db.db_name
                (number ∷ [])
                world
                status_ok
                versions
                none)
            ≡ (run >>= λ db'. ok (status_ok, (mark_file_number_used number versions, some db'.mem)))
      lost (fault e) a = refl
      lost (ok db') (replayed, stored) =
          let bytes : syncs.stored db'.log.dest ≡ layouts 0 (rep ∷ reps) =
            stored
            ∙ ap (λ c. c ++ layouts db.log.block_offset (rep ∷ reps)) empty
            ∙ ap (λ o. layouts o (rep ∷ reps)) start in
          rw (
            bytes,
            read_records-log (rep ∷ reps) fuel name enough,
            record_outs-views 0 (rep ∷ reps) whole,
            replayed,
          )
