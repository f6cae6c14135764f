-- ===== src/Gpu/Mailbox.antt =====
-- include/gpu/model_update_mailbox.hpp and src/gpu/model_update_mailbox.cpp: the slot for the newest
-- model update. Every member function holds the mutex throughout, so that each is one step.
pub mod Newest
use adaptive_fpga.Prelude.{ℕ, Bool, true, false, Option, none, some, leb, if◌then◌else◌}
use adaptive_fpga.Gpu.Protocol.{ModelUpdate, Checked, UpdateError, validate_model_update}
use adaptive_fpga.Gpu.Protocol

pub record ModelUpdateMailbox : Type 0 where
  pub latest_update : Option ModelUpdate
  pub closed : Bool

abbrev pub new_mailbox : ModelUpdateMailbox
new_mailbox = record { latest_update = none; closed = false }

-- What `publish` throws: the protocol's errors, a std::logic_error on a closed mailbox, and one for an
-- update that is not newer than the unread one.
pub data PublishError : Type 0 where
  invalid_update : UpdateError → PublishError
  mailbox_closed not_newer_than_unread : PublishError

pub data Published : Type 0 where
  published : ModelUpdateMailbox → Published
  refused : PublishError → Published

-- `latest_update_ && update.update_version <= latest_update_->update_version`
unfoldable pub is_stale : ModelUpdate → Option ModelUpdate → Bool
is_stale update none = false
is_stale update (some unread) = leb update.update_version unread.update_version

unfoldable pub publish_checked : ModelUpdateMailbox → ModelUpdate → Checked (Unit {0}) → Published
unfolding is_stale
publish_checked m update (Protocol.invalid_argument e) = refused (invalid_update e)
publish_checked m update (Protocol.ok u) =
    if m.closed
    then refused mailbox_closed
    else if is_stale update m.latest_update
    then refused not_newer_than_unread
    else published (record m { latest_update = some update })

unfoldable pub publish : ModelUpdateMailbox → ModelUpdate → Published
unfolding publish_checked
publish m update = publish_checked m update (validate_model_update update 0)

unfoldable pub take : ModelUpdateMailbox → Option ModelUpdate × ModelUpdateMailbox
take m = (m.latest_update, record m { latest_update = none })

unfoldable pub has_update : ModelUpdateMailbox → Bool
has_update m = elim m.latest_update [ none ↦ false | some u ↦ true ]

unfoldable pub close : ModelUpdateMailbox → ModelUpdateMailbox
close m = record m { closed = true }

-- `closed`
unfoldable pub is_closed : ModelUpdateMailbox → Bool
is_closed m = m.closed
