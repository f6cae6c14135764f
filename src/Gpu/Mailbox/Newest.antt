-- ===== src/Gpu/Mailbox/Newest.antt =====
-- The mailbox of src/gpu/model_update_mailbox.cpp: what one publication does, and what the reader finds
-- after any number of them.
use adaptive_fpga.Prelude.{
  ℕ, ◌<◌, ◌≤◌, ◌≡◌, ◌↔◌, refl, arith, true, false, List, [], ◌∷◌, All, Option, none, some,
  Bool-cases, inl, inr, ◌⊎◌, leb,
}
use mathlib.Core.List.{Mem, mem-cons_self, mem-cons_of_mem}
use adaptive_fpga.Prelude.Int.{leb_ℤ, ◌≤ℤ◌}
use adaptive_fpga.Gpu.Protocol.{
  ModelUpdate, version_not_newer, thresholds_not_ordered, validate_model_update,
}
use adaptive_fpga.Gpu.Protocol.Updates.{Replaces}
use adaptive_fpga.Gpu.Mailbox.{
  ModelUpdateMailbox, new_mailbox, invalid_update, mailbox_closed, not_newer_than_unread, Published,
  published, refused, is_stale, publish_checked, publish, take, has_update, close,
}

-- An update that is newer than the unread one, where there is one.
abbrev pub NewerThan : ModelUpdate → Option ModelUpdate → Type 0
NewerThan update none = Unit {0}
NewerThan update (some unread) = unread.update_version < update.update_version

-- The unread update that is at least as new.
abbrev pub NotNewer : ModelUpdate → Option ModelUpdate → Type 0
NotNewer update none = ⊥
NotNewer update (some unread) = update.update_version ≤ unread.update_version

stale-NewerThan :
    (update : ModelUpdate) (unread : Option ModelUpdate)
    → is_stale update unread ≡ false
    → NewerThan update unread
unfolding is_stale
stale-NewerThan update none h = tt
stale-NewerThan update (some unread) h = ground arith

stale-NotNewer :
    (update : ModelUpdate) (unread : Option ModelUpdate)
    → is_stale update unread ≡ true
    → NotNewer update unread
unfolding is_stale
stale-NotNewer update none h = absurd (cc)
stale-NotNewer update (some unread) h = ground arith

-- What `publish` returns, with the condition of each result.
pub data Publication (m : ModelUpdateMailbox) (update : ModelUpdate) : Published → Type 0 where
  zero_version :
      update.update_version ≡ 0 → Publication m update (refused (invalid_update version_not_newer))
  unordered :
      0 < update.update_version
      → update.buy_threshold ≤ℤ update.sell_threshold
      → Publication m update (refused (invalid_update thresholds_not_ordered))
  too_late : Replaces update 0 → m.closed ≡ true → Publication m update (refused mailbox_closed)
  superseded :
      Replaces update 0
      → m.closed ≡ false
      → NotNewer update m.latest_update
      → Publication m update (refused not_newer_than_unread)
  accepted :
      Replaces update 0
      → m.closed ≡ false
      → NewerThan update m.latest_update
      → Publication m update (published (record m { latest_update = some update }))

publish_too_late :
    (m : ModelUpdateMailbox) (update : ModelUpdate)
    → Replaces update 0
    → m.closed ≡ true
    → publish m update ≡ refused mailbox_closed
unfolding publish publish_checked validate_model_update
publish_too_late m update v h = ground arith

publish_superseded :
    (m : ModelUpdateMailbox) (update : ModelUpdate)
    → Replaces update 0
    → m.closed ≡ false
    → is_stale update m.latest_update ≡ true
    → publish m update ≡ refused not_newer_than_unread
unfolding publish publish_checked validate_model_update
publish_superseded m update v h k = ground arith

publish_accepted :
    (m : ModelUpdateMailbox) (update : ModelUpdate)
    → Replaces update 0
    → m.closed ≡ false
    → is_stale update m.latest_update ≡ false
    → publish m update ≡ published (record m { latest_update = some update })
unfolding publish publish_checked validate_model_update
publish_accepted m update v h k = ground arith

publish_zero_version :
    (m : ModelUpdateMailbox) (update : ModelUpdate)
    → update.update_version ≡ 0
    → publish m update ≡ refused (invalid_update version_not_newer)
unfolding publish publish_checked validate_model_update
publish_zero_version m update h = ground arith

publish_unordered :
    (m : ModelUpdateMailbox) (update : ModelUpdate)
    → 0 < update.update_version
    → update.buy_threshold ≤ℤ update.sell_threshold
    → publish m update ≡ refused (invalid_update thresholds_not_ordered)
unfolding publish publish_checked validate_model_update
publish_unordered m update h k = ground arith

Replaces-cases :
    (update : ModelUpdate)
    → (update.update_version ≡ 0)
      ⊎ ((0 < update.update_version) × (update.buy_threshold ≤ℤ update.sell_threshold))
      ⊎ Replaces update 0
Replaces-cases update = elim (Bool-cases (leb update.update_version 0)) [
  | inl h ↦ inl (ground arith)
  | inr h ↦ elim (Bool-cases (leb_ℤ update.buy_threshold update.sell_threshold)) [
    | inl k ↦ inr (inl (ground arith, ground arith))
    | inr k ↦ inr (inr (record { newer = ground arith; thresholds = ground arith }))
  ]
]

publish_valid-Publication :
    (m : ModelUpdateMailbox) (update : ModelUpdate)
    → Replaces update 0
    → Publication m update (publish m update)
publish_valid-Publication m update v = elim (Bool-cases m.closed) [
  | inl h ↦ rw (publish_too_late m update v h) (too_late v h)
  | inr h ↦ elim (Bool-cases (is_stale update m.latest_update)) [
    | inl k ↦
        rw (publish_superseded m update v h k)
          (superseded v h (stale-NotNewer update m.latest_update k))
    | inr k ↦
        rw (publish_accepted m update v h k)
          (accepted v h (stale-NewerThan update m.latest_update k))
  ]
]

-- Every publication has one of five results: an update of version zero, and next one without its
-- thresholds in order, is an invalid argument; a closed mailbox refuses a valid one, and an open one
-- refuses it if the unread update is at least as new; otherwise it becomes the unread update.
pub publish-Publication :
    (m : ModelUpdateMailbox) (update : ModelUpdate) → Publication m update (publish m update)
publish-Publication m update = elim (Replaces-cases update) [
  | inl h ↦ rw (publish_zero_version m update h) (zero_version h)
  | inr (inl h) ↦ rw (publish_unordered m update h.0 h.1) (unordered h.0 h.1)
  | inr (inr v) ↦ publish_valid-Publication m update v
]

-- The mailbox after a call of `publish`: a call that throws leaves it as it was.
abbrev pub after : ModelUpdateMailbox → Published → ModelUpdateMailbox
after m (published m') = m'
after m (refused e) = m

-- The mailbox after the publications of a list, whose head comes last.
unfoldable pub publish_all : ModelUpdateMailbox → List ModelUpdate → ModelUpdateMailbox
publish_all m [] = m
publish_all m (update ∷ updates) = let m' = publish_all m updates in after m' (publish m' update)

-- The answer for the reader: the newest valid update of a list, and none only if none is valid.
abbrev pub IsNewest : List ModelUpdate → Option ModelUpdate → Type 0
IsNewest updates none = All (λ u. ¬ Replaces u 0) updates
IsNewest updates (some newest) =
    Mem newest updates
    × Replaces newest 0
    × All (λ u. Replaces u 0 → u.update_version ≤ newest.update_version) updates

-- A list whose valid updates are no newer than some update.
abbrev UpTo : ℕ → List ModelUpdate → Type 0
UpTo n = All (λ u. Replaces u 0 → u.update_version ≤ n)

none-UpTo : (n : ℕ) (us : List ModelUpdate) → All (λ u. ¬ Replaces u 0) us → UpTo n us
none-UpTo n [] h = tt
none-UpTo n (u ∷ us) h = (λ v. absurd (h.0 v), none-UpTo n us h.1)

UpTo-mono : (n k : ℕ) (us : List ModelUpdate) → n ≤ k → UpTo n us → UpTo k us
UpTo-mono n k [] e h = tt
UpTo-mono n k (u ∷ us) e h = (λ v. omega (arith, h.0 v), UpTo-mono n k us e h.1)

invalid-IsNewest :
    (u : ModelUpdate) (us : List ModelUpdate) (unread : Option ModelUpdate)
    → (¬ Replaces u 0)
    → IsNewest us unread
    → IsNewest (u ∷ us) unread
invalid-IsNewest u us none n h = (n, h)
invalid-IsNewest u us (some w) n h = (mem-cons_of_mem u h.0, h.1, (λ v. absurd (n v), h.2))

superseded-IsNewest :
    (u : ModelUpdate) (us : List ModelUpdate) (unread : Option ModelUpdate)
    → NotNewer u unread
    → IsNewest us unread
    → IsNewest (u ∷ us) unread
superseded-IsNewest u us none n h = absurd n
superseded-IsNewest u us (some w) n h = (mem-cons_of_mem u h.0, h.1, (λ v. n, h.2))

accepted-IsNewest :
    (u : ModelUpdate) (us : List ModelUpdate) (unread : Option ModelUpdate)
    → Replaces u 0
    → NewerThan u unread
    → IsNewest us unread
    → IsNewest (u ∷ us) (some u)
accepted-IsNewest u us none v n h =
    (mem-cons_self, v, (λ w. omega arith, none-UpTo u.update_version us h))
accepted-IsNewest u us (some w) v n h = (
  mem-cons_self,
  v,
  (λ x. omega arith, UpTo-mono w.update_version u.update_version us (omega arith) h.2),
)

-- An open mailbox that holds the newest valid update of a list.
abbrev Holds : List ModelUpdate → ModelUpdateMailbox → Type 0
Holds updates m = (m.closed ≡ false) × IsNewest updates m.latest_update

after-Holds :
    (m : ModelUpdateMailbox) (u : ModelUpdate) (us : List ModelUpdate) (result : Published)
    → Publication m u result
    → Holds us m
    → Holds (u ∷ us) (after m result)
after-Holds m u us _ (zero_version e) h =
    (h.0, invalid-IsNewest u us m.latest_update (λ v. omega (arith, v.newer)) h.1)
after-Holds m u us _ (unordered e k) h =
    (h.0, invalid-IsNewest u us m.latest_update (λ v. ground (arith, v.thresholds)) h.1)
after-Holds m u us _ (too_late v c) h = absurd (cc (h.0, c))
after-Holds m u us _ (superseded v c n) h = (h.0, superseded-IsNewest u us m.latest_update n h.1)
after-Holds m u us _ (accepted v c n) h = (h.0, accepted-IsNewest u us m.latest_update v n h.1)

publish_all-Holds : (us : List ModelUpdate) → Holds us (publish_all new_mailbox us)
unfolding publish_all
publish_all-Holds [] = (refl, tt)
publish_all-Holds (u ∷ us) =
    let m' = publish_all new_mailbox us in
    after-Holds m' u us (publish m' u) (publish-Publication m' u) (publish_all-Holds us)

-- After any publications to a new mailbox, the refused ones included, `take` returns the newest of the
-- valid updates, and none only if no update was valid; a second `take` returns none, and `has_update`
-- tells beforehand which of the two it will be.
pub publish_all-IsNewest :
    (updates : List ModelUpdate)
    → let m = publish_all new_mailbox updates in
      let (taken, m') = take m in
      IsNewest updates taken × ((has_update m ≡ false) ↔ (taken ≡ none)) × (take m' ≡ (none, m'))
unfolding take has_update
publish_all-IsNewest updates =
    ((publish_all-Holds updates).1, present (publish_all new_mailbox updates).latest_update, refl)
  where
    present :
        (unread : Option ModelUpdate)
        → ((elim unread [ none ↦ false | some u ↦ true ]) ≡ false) ↔ (unread ≡ none)
    present none = (λ h. refl, λ h. refl)
    present (some u) = (λ h. absurd (cc), λ h. absurd (cc))

closed-after :
    (m : ModelUpdateMailbox) (u : ModelUpdate) (result : Published)
    → Publication (close m) u result
    → after (close m) result ≡ close m
unfolding close
closed-after m u _ (zero_version e) = refl
closed-after m u _ (unordered e k) = refl
closed-after m u _ (too_late v c) = refl
closed-after m u _ (superseded v c n) = refl
closed-after m u _ (accepted v c n) = absurd (cc)

-- Once the mailbox is closed no publication changes it, and the update left unread can still be taken.
pub publish_all_closed :
    (m : ModelUpdateMailbox) (updates : List ModelUpdate) → publish_all (close m) updates ≡ close m
unfolding publish_all
publish_all_closed m [] = refl
publish_all_closed m (u ∷ us) =
    rw (publish_all_closed m us)
      (closed-after m u (publish (close m) u) (publish-Publication (close m) u))
