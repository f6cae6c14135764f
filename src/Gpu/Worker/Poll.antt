-- ===== src/Gpu/Worker/Poll.antt =====
-- The update on its way from the GPU model through src/gpu/gpu_worker.cpp to the mailbox.
use adaptive_fpga.Prelude.{◌+◌, ◌≡◌, refl, sym, ap, Bool, not, if◌then◌else◌, true, false, some}
use adaptive_fpga.Prelude.Words.{add_u64}
use adaptive_fpga.Gpu.Protocol.{ModelUpdate}
use adaptive_fpga.Gpu.Protocol.Updates.{Replaces}
use adaptive_fpga.Gpu.Mailbox.{ModelUpdateMailbox, Published, publish}
use adaptive_fpga.Gpu.Mailbox.Newest.{
  NewerThan, Publication, accepted, zero_version, unordered, too_late, superseded,
  publish-Publication,
}
use adaptive_fpga.Gpu.Worker.{GpuWorker, waiting, forwarded, after_publication, poll_model_update}

-- The result of a poll that forwarded an update.
pub record Forwarded (w : GpuWorker) (mailbox : ModelUpdateMailbox) (update : ModelUpdate)
    (w' : GpuWorker) (mailbox' : ModelUpdateMailbox) : Type 0 where
  pub was_open : mailbox.closed ≡ false
  pub replaces : Replaces update 0
  pub newer : NewerThan update mailbox.latest_update
  pub unread : mailbox' ≡ record mailbox { latest_update = some update }
  pub idle : w'.model_update_in_flight ≡ false
  pub next : w'.next_update_version ≡ add_u64 update.update_version 1
  pub counted : w'.model_updates_published ≡ w.model_updates_published + 1

forwarded_injective :
    (w w' : GpuWorker) (m m' : ModelUpdateMailbox)
    → forwarded w m ≡ forwarded w' m'
    → (w ≡ w') × (m ≡ m')
forwarded_injective w w' m m' h = (cc, cc)

after_publication-Forwarded :
    (w : GpuWorker) (mailbox : ModelUpdateMailbox) (update : ModelUpdate) (result : Published)
    (w' : GpuWorker) (mailbox' : ModelUpdateMailbox)
    → Publication mailbox update result
    → after_publication w update result ≡ forwarded w' mailbox'
    → Forwarded w mailbox update w' mailbox'
unfolding after_publication
after_publication-Forwarded w mailbox update _ w' mailbox' (accepted v c n) h =
    let e = forwarded_injective _ w' _ mailbox' h in
    record {
      was_open = c;
      replaces = v;
      newer = n;
      unread = sym e.1;
      idle = ap (λ t. t.model_update_in_flight) (sym e.0);
      next = ap (λ t. t.next_update_version) (sym e.0);
      counted = ap (λ t. t.model_updates_published) (sym e.0);
    }
after_publication-Forwarded w mailbox update _ w' mailbox' (zero_version e) h = absurd (cc)
after_publication-Forwarded w mailbox update _ w' mailbox' (unordered e k) h = absurd (cc)
after_publication-Forwarded w mailbox update _ w' mailbox' (too_late e k) h = absurd (cc)
after_publication-Forwarded w mailbox update _ w' mailbox' (superseded e k n) h = absurd (cc)

-- A poll that forwards an update had one in flight, and found the mailbox open and the update valid and
-- newer than the unread one: now this update is the unread one, none is in flight, the next version is
-- the one behind it, and one more is counted.
pub poll_model_update-Forwarded :
    (w : GpuWorker) (mailbox : ModelUpdateMailbox) (update : ModelUpdate) (w' : GpuWorker)
    (mailbox' : ModelUpdateMailbox)
    → poll_model_update w mailbox (some update) ≡ forwarded w' mailbox'
    → (w.model_update_in_flight ≡ true) × Forwarded w mailbox update w' mailbox'
unfolding poll_model_update
poll_model_update-Forwarded w mailbox update w' mailbox' h = choose w.model_update_in_flight h
  where
    choose :
        (in_flight : Bool)
        → (if not in_flight then waiting w else after_publication w update (publish mailbox update))
          ≡ forwarded w' mailbox'
        → (in_flight ≡ true) × Forwarded w mailbox update w' mailbox'
    choose true e = (
      refl,
      after_publication-Forwarded w mailbox update (publish mailbox update) w' mailbox'
          (publish-Publication mailbox update) e,
    )
    choose false e = absurd (cc)
