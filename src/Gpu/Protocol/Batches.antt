-- ===== src/Gpu/Protocol/Batches.antt =====
-- The rows that the collector of src/gpu/gpu_protocol.cpp hands out are the valid ones, in order.
use mathlib.Core.List.{append-nil, append_assoc}
use adaptive_fpga.Prelude.{
  ℕ, zero, suc, ◌+◌, ◌≤◌, ◌<◌, ◌≡◌, refl, ap, sym, ◌∙◌, arith, true, false, List, [], ◌∷◌, ◌++◌,
  All, Option, none, some, set, take, length, length-set, Bool-cases, inl, inr, ◌==◌,
}
use adaptive_fpga.Prelude.Int.{ℤ}
use adaptive_fpga.Gpu.Protocol.{
  FeatureSnapshot, FeatureBatch, FeatureBatchCollector, batch_time_steps, new_collector, add,
}

-- A collector that waits for more rows.
pub record IsCollector (c : FeatureBatchCollector) : Type 0 where
  pub rows : length c.batch ≡ batch_time_steps
  pub open_row : c.size < batch_time_steps

-- The valid rows of a stream.
abbrev pub valid_rows : List FeatureSnapshot → List (List ℤ)
valid_rows [] = []
valid_rows (s ∷ ss) = elim s.valid [ true ↦ s.features ∷ valid_rows ss | false ↦ valid_rows ss ]

abbrev pub rows_of : Option FeatureBatch → List (List ℤ)
rows_of none = []
rows_of (some batch) = batch

take-set :
    {A : Type 0} (xs : List A) (i : ℕ) (v : A)
    → i < length xs
    → take (suc i) (set xs i v) ≡ take i xs ++ (v ∷ [])
take-set [] i v h = absurd (omega arith)
take-set (x ∷ xs) zero v h = refl
take-set (x ∷ xs) (suc i) v h = ap (λ t. x ∷ t) (take-set xs i v (omega arith))

take_all : {A : Type 0} (xs : List A) (n : ℕ) → length xs ≤ n → take n xs ≡ xs
take_all [] zero h = refl
take_all [] (suc n) h = refl
take_all (x ∷ xs) zero h = absurd (omega arith)
take_all (x ∷ xs) (suc n) h = ap (λ t. x ∷ t) (take_all xs n (omega arith))

abbrev BatchSize : Option FeatureBatch → Type 0
BatchSize none = Unit {0}
BatchSize (some batch) = length batch ≡ batch_time_steps

-- One `add`: the rows handed out and kept are the rows kept before with the new one, if valid, behind.
record Adds (c : FeatureBatchCollector) (s : FeatureSnapshot) (out : Option FeatureBatch)
    (c' : FeatureBatchCollector) : Type 0 where
  valid : IsCollector c'
  full : BatchSize out
  in_order : rows_of out ++ take c'.size c'.batch ≡ take c.size c.batch ++ valid_rows (s ∷ [])

add_invalid :
    (c : FeatureBatchCollector) (s : FeatureSnapshot) → s.valid ≡ false → add c s ≡ (none, c)
unfolding add
add_invalid c s h = rw h refl

add_last :
    (c : FeatureBatchCollector) (s : FeatureSnapshot)
    → s.valid ≡ true
    → c.size ≡ 31
    → add c s ≡ (some (set c.batch c.size s.features), new_collector)
unfolding add
add_last c s h e = ground arith

add_more :
    (c : FeatureBatchCollector) (s : FeatureSnapshot)
    → s.valid ≡ true
    → c.size < 31
    → add c s ≡ (none, record { batch = set c.batch c.size s.features; size = c.size + 1 })
unfolding add
add_more c s h e = ground arith

row_added :
    (c : FeatureBatchCollector) (s : FeatureSnapshot)
    → s.valid ≡ true
    → IsCollector c
    → take (c.size + 1) (set c.batch c.size s.features) ≡ take c.size c.batch ++ valid_rows (s ∷ [])
row_added c s h v = rw h (
    ap (λ (n : ℕ). take n (set c.batch c.size s.features)) {y = suc c.size} (omega arith)
    ∙ take-set c.batch c.size s.features (omega (arith, v.rows, v.open_row)))

add-Adds :
    (c : FeatureBatchCollector) (s : FeatureSnapshot)
    → IsCollector c
    → Adds c s (add c s).0 (add c s).1
add-Adds c s v = elim (Bool-cases s.valid) [
  | inr bad ↦
      rw (add_invalid c s bad) (record {
        valid = v;
        full = tt;
        in_order = rw bad (sym (append-nil (take c.size c.batch)));
      })
  | inl good ↦ elim (Bool-cases (c.size == 31)) [
    | inl last ↦ rw (add_last c s good (ground arith)) (record {
      valid = omega arith;
      full = length-set c.batch c.size s.features ∙ v.rows;
      in_order =
          append-nil (set c.batch c.size s.features)
          ∙ sym (
              take_all (set c.batch c.size s.features) (c.size + 1)
                (ground (arith, length-set c.batch c.size s.features, v.rows)))
          ∙ row_added c s good v;
    })
    | inr more ↦ rw (add_more c s good (ground (arith, v.open_row))) (record {
      valid = record {
        rows = length-set c.batch c.size s.features ∙ v.rows;
        open_row = ground (arith, v.open_row);
      };
      full = tt;
      in_order = row_added c s good v;
    })
  ]
]

-- The batches that a stream of snapshots completes, and the collector after it.
unfoldable pub add_all :
    FeatureBatchCollector → List FeatureSnapshot → List FeatureBatch × FeatureBatchCollector
add_all c [] = ([], c)
add_all c (s ∷ ss) =
    let (out, c') = add c s in
    let (batches, end) = add_all c' ss in
    (elim out [ none ↦ batches | some batch ↦ batch ∷ batches ], end)

abbrev pub concat : List FeatureBatch → List (List ℤ)
concat [] = []
concat (batch ∷ batches) = batch ++ concat batches

valid_rows-cons :
    (s : FeatureSnapshot) (ss : List FeatureSnapshot)
    → valid_rows (s ∷ ss) ≡ valid_rows (s ∷ []) ++ valid_rows ss
valid_rows-cons s ss = elim (Bool-cases s.valid) [ inl h ↦ rw h refl | inr h ↦ rw h refl ]

concat-out :
    (out : Option FeatureBatch) (batches : List FeatureBatch)
    → concat (elim out [ none ↦ batches | some batch ↦ batch ∷ batches ])
      ≡ rows_of out ++ concat batches
concat-out none batches = refl
concat-out (some batch) batches = refl

BatchSize-out :
    (out : Option FeatureBatch) (batches : List FeatureBatch)
    → BatchSize out
    → All (λ batch. length batch ≡ batch_time_steps) batches
    → All
        (λ batch. length batch ≡ batch_time_steps)
        (elim out [ none ↦ batches | some batch ↦ batch ∷ batches ])
BatchSize-out none batches h hs = hs
BatchSize-out (some batch) batches h hs = (h, hs)

add_all_lem :
    (c : FeatureBatchCollector) (ss : List FeatureSnapshot)
    → IsCollector c
    → let (batches, end) = add_all c ss in
      (concat batches ++ take end.size end.batch ≡ take c.size c.batch ++ valid_rows ss)
      × All (λ batch. length batch ≡ batch_time_steps) batches
      × IsCollector end
unfolding add_all
add_all_lem c [] v = (sym (append-nil (take c.size c.batch)), tt, v)
add_all_lem c (s ∷ ss) v =
    let a = add-Adds c s v in
    let (out, c') = add c s in
    let ih = add_all_lem c' ss a.valid in
    let (batches, end) = add_all c' ss in
    (
      ap (λ t. t ++ take end.size end.batch) (concat-out out batches)
          ∙ append_assoc (rows_of out) (concat batches) (take end.size end.batch)
          ∙ ap (λ t. rows_of out ++ t) ih.0
          ∙ sym (append_assoc (rows_of out) (take c'.size c'.batch) (valid_rows ss))
          ∙ ap (λ t. t ++ valid_rows ss) a.in_order
          ∙ append_assoc (take c.size c.batch) (valid_rows (s ∷ [])) (valid_rows ss)
          ∙ ap (λ t. take c.size c.batch ++ t) (sym (valid_rows-cons s ss)),
      BatchSize-out out batches a.full ih.1,
      ih.2,
    )

-- From a new collector on, the batches that a stream completes have 32 rows each, and their rows with
-- the fewer than 32 still held are the feature rows of the stream's valid snapshots, in order.
pub add_all_new :
    (ss : List FeatureSnapshot)
    → let (batches, end) = add_all new_collector ss in
      (concat batches ++ take end.size end.batch ≡ valid_rows ss)
      × All (λ batch. length batch ≡ batch_time_steps) batches
      × (end.size < batch_time_steps)
add_all_new ss = let p = add_all_lem new_collector ss (omega arith) in (p.0, p.1, p.2.open_row)
