-- ===== src/Fuse/Refused.antt =====
-- Writes that arrive after `flush_for_shutdown`.
use vibedbfs.Prelude.{
  ℕ, ℤ, pos, ◌≡◌, refl, ◌∙◌, ap, List, [], ◌∷◌, Option, none, some, true, ltb_ℤ, Result, ok, err,
  Bytes, arith, Bool-cases, Option-cases, inl, inr, pos_part,
}
use vibedbfs.Model.{Timestamp, regular_file_error}
use vibedbfs.OpenTable.Inodes.{live_slots}
use vibedbfs.OpenTable.Handles
use vibedbfs.Db.{Engine, sync_durable}
use vibedbfs.Fs.{Fs, Errno, eio, ebadf, einval, errno_from_db_error}
use vibedbfs.Fs.Flush.{
  flush_slot, free_if_idle, after_flush, flush_one, flush_slots, flush_result, flush_all, skip,
  refuse_writes, record_flush,
}
use vibedbfs.Fs.Flush.Transparent.{flush-cases}
use vibedbfs.Fs.Buffer.{write_slot}
use vibedbfs.Fs.Ops.{write_fh}
use vibedbfs.Fs.Ops.Names.{flush_for_shutdown}
use vibedbfs.Fuse.{reply_error, handle_write}

free_if_idle-closing : (i : ℕ) (s : Fs) → (free_if_idle i s).table.closing ≡ s.table.closing
unfolding free_if_idle
free_if_idle-closing i s = ground arith

after_flush-closing :
    (i : ℕ) (failed : Option Errno) (x : Result Errno (Unit {0}) × Fs)
    → (after_flush i failed x).1.table.closing ≡ x.1.table.closing
after_flush-closing i failed (ok u, s) = free_if_idle-closing i s
after_flush-closing i failed (err e, s) = refl

flush_one-closing :
    (E : Engine) (i : ℕ) (failed : Option Errno) (s : Fs)
    → (flush_one E i failed s).1.table.closing ≡ s.table.closing
unfolding flush_one
flush_one-closing E i failed s =
    after_flush-closing i failed (flush_slot E i skip s) ∙ elim (flush-cases E s i skip) [
      | inl (r, e) ↦ ap (λ x. x.1.table.closing) e
      | inr e ↦ ap (λ x. x.1.table.closing) e
    ]

flush_slots-closing :
    (E : Engine) (is : List ℕ) (failed : Option Errno) (s : Fs)
    → (flush_slots E is failed s).1.table.closing ≡ s.table.closing
unfolding flush_slots
flush_slots-closing E [] failed s = refl
flush_slots-closing E (i ∷ is) failed s =
    let x = flush_one E i failed s in
    flush_slots-closing E is x.0 x.1 ∙ flush_one-closing E i failed s

flush_result-closing :
    (E : Engine) (failed : Option Errno) (s : Fs)
    → (flush_result E failed s).1.table.closing ≡ s.table.closing
unfolding sync_durable
flush_result-closing E (some e) s = refl
flush_result-closing E none s = elim (Option-cases (E.sync_failure s.tables)) [
  | inl f ↦ rw f refl
  | inr (d, f) ↦ rw f refl
]

flush_for_shutdown-closing : (E : Engine) (s : Fs) → (flush_for_shutdown E s).1.table.closing ≡ true
unfolding flush_for_shutdown flush_all refuse_writes record_flush
flush_for_shutdown-closing E s =
    let t = refuse_writes s in
    let x = flush_slots E (live_slots t.table.inodes) none t in
    flush_result-closing E x.0 x.1 ∙ flush_slots-closing E (live_slots t.table.inodes) none t

refused_slot :
    (E : Engine) (now : Timestamp) (i offset : ℕ) (input : Bytes) (s : Fs)
    → s.table.closing ≡ true
    → (e : Errno) × (write_slot E now i offset input s ≡ (err e, s))
unfolding write_slot
refused_slot E now i offset input s closing =
    elim (Option-cases (regular_file_error (s.table.inodes.kind.at i))) [
      | inl file ↦ (eio, rw (write_slot, file, closing) refl)
      | inr (d, f) ↦ (errno_from_db_error d, rw (write_slot, f) refl)
    ]

refused_handle :
    (E : Engine) (now : Timestamp) (fh offset : ℕ) (input : Bytes) (s : Fs)
    → s.table.closing ≡ true
    → (e : Errno) × (write_fh E now fh offset input s ≡ (err e, s))
unfolding write_fh
refused_handle E now fh offset input s closing =
    elim (Option-cases (Handles.get s.table.handles fh)) [
      | inl closed ↦ (ebadf, rw (write_fh, closed) refl)
      | inr (i, open_at) ↦
          let (e, f) = refused_slot E now i offset input s closing in (e, rw (write_fh, open_at) f)
    ]

-- After `flush_for_shutdown`, whatever its outcome, no write is acknowledged: every `write` request
-- gets an error and changes nothing.
pub handle_write-flush_for_shutdown :
    (E : Engine) (now : Timestamp) (fh : ℕ) (offset : ℤ) (input : Bytes) (s : Fs)
    → let t = (flush_for_shutdown E s).1 in
      (e : Errno) × (handle_write E now fh offset input t ≡ (reply_error e, t))
unfolding handle_write
handle_write-flush_for_shutdown E now fh offset input s =
    let t = (flush_for_shutdown E s).1 in
    elim (Bool-cases (ltb_ℤ offset (pos 0))) [
      | inl negative ↦ (einval, rw negative refl)
      | inr valid ↦
          let (e, f) =
            refused_handle E now fh (pos_part offset) input t (flush_for_shutdown-closing E s) in
          (e, rw (valid, f) refl)
    ]
