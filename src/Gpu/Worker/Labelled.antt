-- ===== src/Gpu/Worker/Labelled.antt =====
-- Which results `consume_result` of src/gpu/gpu_worker.cpp labels, with what rows, and which stay queued.
use mathlib.Core.List.{append-nil, append_assoc}
use mathlib.Core.Path.{subst}
use adaptive_fpga.Prelude.{
  ◌+◌, ℕ, ◌≡◌, ◌≤◌, ◌<◌, ◌↔◌, refl, ap, sym, ◌∙◌, arith, ◌⊎◌, Bool, true, false, inl, inr, List, [],
  ◌∷◌, ◌++◌, All, length, ◌==◌, ◌&&◌, if◌then◌else◌,
}
use adaptive_fpga.Prelude.Int.{ℤ, pos, ◌<ℤ◌}
use adaptive_fpga.Prelude.Words.{add_u64}
use adaptive_fpga.Gpu.Worker.{
  RtlStreamResult, TrainingRow, GpuWorker, is_quoted, row_of, submit_if_full, discard_row,
  write_row, add_labelled_row, is_due, label_due,
}

-- A price and a quantity on both sides.
abbrev pub IsQuoted : RtlStreamResult → Type 0
IsQuoted r =
    (pos 0 <ℤ r.best_bid_price_ticks)
    × (pos 0 <ℤ r.best_ask_price_ticks)
    × (0 < r.best_bid_quantity)
    × (0 < r.best_ask_quantity)

-- A pair that makes a row.
abbrev pub IsUsable : RtlStreamResult → RtlStreamResult → Type 0
IsUsable entry future = (entry.features.valid ≡ true) × IsQuoted entry × IsQuoted future

-- The rows are those of the usable entries, in order, each with the later result.
abbrev pub RowsOf : ℤ → RtlStreamResult → List RtlStreamResult → List TrainingRow → Type 0
RowsOf minimum future [] rows = rows ≡ []
RowsOf minimum future (entry ∷ entries) rows =
    (IsUsable entry future
      × ((more : List TrainingRow) × (rows ≡ row_of minimum entry future ∷ more)
          × RowsOf minimum future entries more))
    ⊎ (¬ (IsUsable entry future) × RowsOf minimum future entries rows)

-- The label horizon of the entry is over, as a uint64_t sum.
abbrev pub IsDue : ℕ → RtlStreamResult → RtlStreamResult → Type 0
IsDue horizon result entry = add_u64 entry.event_index horizon ≤ result.event_index

abbrev pub Waits : ℕ → RtlStreamResult → List RtlStreamResult → Type 0
Waits horizon result [] = Unit {0}
Waits horizon result (entry ∷ entries) = result.event_index < add_u64 entry.event_index horizon

abbrev pub batched : List (ℕ × List TrainingRow) → List TrainingRow
batched [] = []
batched (batch ∷ batches) = batch.1 ++ batched batches

-- All rows that the worker has written: those of the submitted batches, then the open ones.
abbrev pub all_rows : GpuWorker → List TrainingRow
all_rows w = batched w.submitted ++ w.mapped_rows

-- From `w` to `w'`, a result labels the due entries at the front of a queue.
pub record Labels (w : GpuWorker) (result : RtlStreamResult) (queue last : List RtlStreamResult)
    (w' : GpuWorker) : Type 0 where
  pub due : List RtlStreamResult
  pub rest : List RtlStreamResult
  pub rows : List TrainingRow
  pub split : queue ≡ due ++ rest
  pub ready : All (IsDue w.label_horizon_events result) due
  pub waits : Waits w.label_horizon_events result rest
  pub left : w'.pending_labels ≡ rest ++ last
  pub labelled : RowsOf w.minimum_profit_ticks result due rows
  pub conserved : all_rows w' ≡ all_rows w ++ rows

batched-append :
    (a : List (ℕ × List TrainingRow)) (b : ℕ × List TrainingRow)
    → batched (a ++ (b ∷ [])) ≡ batched a ++ b.1
batched-append [] b = append-nil b.1
batched-append (x ∷ a) b =
    ap (λ l. x.1 ++ l) (batched-append a b) ∙ sym (append_assoc x.1 (batched a) b.1)

-- The settings do not change, and the rows grow by these.
record Adds (w : GpuWorker) (rows : List TrainingRow) (w' : GpuWorker) : Type 0 where
  same_horizon : w'.label_horizon_events ≡ w.label_horizon_events
  same_minimum : w'.minimum_profit_ticks ≡ w.minimum_profit_ticks
  grown : all_rows w' ≡ all_rows w ++ rows

submit_if_full-Adds : (w : GpuWorker) → Adds w [] (submit_if_full w)
unfolding submit_if_full
submit_if_full-Adds w = either (length w.mapped_rows == w.batch_rows)
  where
    full : GpuWorker
    full = record w {
      mapped_rows = [];
      model_update_in_flight = true;
      metrics = record w.metrics { batches_submitted = w.metrics.batches_submitted + 1 };
      submitted = w.submitted ++ ((w.next_update_version, w.mapped_rows) ∷ []);
    }

    either : (b : Bool) → Adds w [] (if b then full else w)
    either true = record {
      same_horizon = refl;
      same_minimum = refl;
      grown = ap (λ l. l ++ []) (batched-append w.submitted (w.next_update_version, w.mapped_rows));
    }
    either false = record {
      same_horizon = refl;
      same_minimum = refl;
      grown = sym (append-nil (all_rows w));
    }

write_row-Adds :
    (w : GpuWorker) (row : TrainingRow) → Adds w (row ∷ []) (submit_if_full (write_row w row))
unfolding write_row
write_row-Adds w row =
    let s = submit_if_full-Adds (write_row w row) in
    record {
      same_horizon = s.same_horizon;
      same_minimum = s.same_minimum;
      grown =
          s.grown
          ∙ append-nil (all_rows (write_row w row))
          ∙ sym (append_assoc (batched w.submitted) w.mapped_rows (row ∷ []));
    }

is_quoted-IsQuoted : (r : RtlStreamResult) → (is_quoted r ≡ true) ↔ IsQuoted r
unfolding is_quoted
is_quoted-IsQuoted r = (λ h. ground arith, λ h. ground arith)

-- What one entry adds.
abbrev OneRow : ℤ → RtlStreamResult → RtlStreamResult → List TrainingRow → Type 0
OneRow minimum future entry rows =
    (IsUsable entry future × (rows ≡ row_of minimum entry future ∷ []))
    ⊎ (¬ (IsUsable entry future) × (rows ≡ []))

add_labelled_row-Adds :
    (w : GpuWorker) (entry future : RtlStreamResult)
    → (rows : List TrainingRow) × OneRow w.minimum_profit_ticks future entry rows
      × Adds w rows (add_labelled_row w entry future)
unfolding add_labelled_row discard_row
add_labelled_row-Adds w entry future =
    either entry.features.valid (is_quoted entry) (is_quoted future) refl refl refl
  where
    row : TrainingRow
    row = row_of w.minimum_profit_ticks entry future

    unused :
        ¬ (IsUsable entry future)
        → (rows : List TrainingRow) × OneRow w.minimum_profit_ticks future entry rows
          × Adds w rows (discard_row w)
    unused n = (
      [],
      inr (n, refl),
      record { same_horizon = refl; same_minimum = refl; grown = sym (append-nil (all_rows w)) },
    )

    either :
        (v e f : Bool)
        → entry.features.valid ≡ v
        → is_quoted entry ≡ e
        → is_quoted future ≡ f
        → (rows : List TrainingRow) × OneRow w.minimum_profit_ticks future entry rows
          × Adds w rows (if v && (e && f) then submit_if_full (write_row w row) else discard_row w)
    either true true true v e f = (
      row ∷ [],
      inl ((v, (is_quoted-IsQuoted entry).0 e, (is_quoted-IsQuoted future).0 f), refl),
      write_row-Adds w row,
    )
    either true true false v e f = unused (λ u. let q = (is_quoted-IsQuoted future).1 u.2 in cc)
    either true false b v e f = unused (λ u. let q = (is_quoted-IsQuoted entry).1 u.1 in cc)
    either false b c v e f = unused (λ u. let q = u.0 in cc)

RowsOf-cons :
    (minimum : ℤ) (future entry : RtlStreamResult) (entries : List RtlStreamResult)
    (one rows : List TrainingRow)
    → OneRow minimum future entry one
    → RowsOf minimum future entries rows
    → RowsOf minimum future (entry ∷ entries) (one ++ rows)
RowsOf-cons minimum future entry entries one rows (inl h) more =
    inl (h.0, (rows, ap (λ l. l ++ rows) h.1, more))
RowsOf-cons minimum future entry entries one rows (inr h) more =
    inr (h.0, subst (RowsOf minimum future entries) (sym (ap (λ l. l ++ rows) h.1)) more)

stays :
    (w : GpuWorker) (result : RtlStreamResult) (queue : List RtlStreamResult)
    → Waits w.label_horizon_events result queue
    → Labels w result queue [] (record w { pending_labels = queue })
stays w result queue h = record {
  due = [];
  rest = queue;
  rows = [];
  split = refl;
  ready = tt;
  waits = h;
  left = sym (append-nil queue);
  labelled = refl;
  conserved = sym (append-nil (all_rows w));
}

pub label_due-Labels :
    (w : GpuWorker) (result : RtlStreamResult) (queue : List RtlStreamResult)
    → Labels w result queue [] (label_due w result queue)
unfolding label_due is_due
label_due-Labels w result [] = stays w result [] tt
label_due-Labels w result (front ∷ queue) =
    either (is_due w.label_horizon_events result front) refl
      (label_due-Labels (add_labelled_row w front result) result queue)
  where
    next : GpuWorker
    next = add_labelled_row w front result

    either :
        (b : Bool)
        → is_due w.label_horizon_events result front ≡ b
        → Labels next result queue [] (label_due next result queue)
        → Labels w result
            (front ∷ queue)
            []
            (if b then label_due next result queue else record w { pending_labels = front ∷ queue })
    either true d h =
        let a = add_labelled_row-Adds w front result in
        record {
          due = front ∷ h.due;
          rest = h.rest;
          rows = a.0 ++ h.rows;
          split = ap (λ l. front ∷ l) h.split;
          ready = (ground arith, subst (λ n. All (IsDue n result) h.due) a.2.same_horizon h.ready);
          waits = subst (λ n. Waits n result h.rest) a.2.same_horizon h.waits;
          left = h.left;
          labelled =
              RowsOf-cons w.minimum_profit_ticks result front h.due a.0 h.rows a.1
                (subst (λ n. RowsOf n result h.due h.rows) a.2.same_minimum h.labelled);
          conserved =
              h.conserved ∙ ap (λ l. l ++ h.rows) a.2.grown ∙ append_assoc (all_rows w) a.0 h.rows;
        }
    either false d h = stays w result (front ∷ queue) (ground arith)
