-- ===== src/Window/Sums.antt =====
-- The running sums of a window of src/market/order_book.cpp are those of its recent entries.
use adaptive_fpga.Prelude.{
  ℕ, zero, suc, sym, ◌∙◌, ◌++◌, min, ◌≤◌, ◌≡◌, refl, ap, List, [], ◌∷◌, arith, get_or, take,
  if◌then◌else◌, ◌==◌, Bool-cases, inl, inr,
}
use adaptive_fpga.Prelude.Int.{ℤ, pos, ◌+ℤ◌, ◌-ℤ◌, int_laws}
use adaptive_fpga.Window.{Entry, window_size, zero_entry, FeatureWindow, empty_window, push}
use adaptive_fpga.Window.Recent.{
  IsWindow, recent, steps_back, steps_back-snoc, recent-push, push-IsWindow, take-steps_back,
}

-- The sum of one field over a list of entries.
unfoldable pub sum_by : (Entry → ℤ) → List Entry → ℤ
sum_by f [] = pos 0
sum_by f (e ∷ es) = f e +ℤ sum_by f es

sum_by-snoc :
    (f : Entry → ℤ) (es : List Entry) (e : Entry) → sum_by f (es ++ (e ∷ [])) ≡ sum_by f es +ℤ f e
unfolding sum_by
sum_by-snoc f [] e = omega int_laws
sum_by-snoc f (x ∷ es) e = rw (sum_by-snoc f es e) (omega int_laws)

-- The entry that a `push` on a full window takes off the sums.
abbrev oldest : FeatureWindow → Entry
oldest w = get_or w.entries w.next zero_entry

full_window :
    (w : FeatureWindow)
    → IsWindow w
    → w.size ≡ 64
    → recent w ≡ steps_back w.entries w.next 1 63 ++ (oldest w ∷ [])
full_window w v h =
    ap (λ (n : ℕ). steps_back w.entries w.next 1 n) h
    ∙ steps_back-snoc w.entries w.next 1 63
    ∙ ap (λ (n : ℕ). steps_back w.entries w.next 1 63 ++ (get_or w.entries n zero_entry ∷ []))
        (omega arith)

-- What the 64 newest of the recent entries and a new one sum up to.
sum_by-push :
    (f : Entry → ℤ) (w : FeatureWindow) (e : Entry)
    → IsWindow w
    → sum_by f (take window_size (e ∷ recent w))
      ≡ (if w.size == 64 then sum_by f (recent w) -ℤ f (oldest w) else sum_by f (recent w)) +ℤ f e
unfolding sum_by
sum_by-push f w e v = elim (Bool-cases (w.size == 64)) [
  | inl full ↦
      rw
        (
          full,
          take-steps_back w.entries w.next 1 63 w.size,
          full_window w v (ground arith),
          sum_by-snoc f (steps_back w.entries w.next 1 63) (oldest w),
          min_full w.size (ground arith),
        )
        (omega int_laws)
  | inr room ↦
      rw
        (
          room,
          take-steps_back w.entries w.next 1 63 w.size,
          min_room w.size (ground (arith, v.size_in)),
        )
        (omega int_laws)
]
  where
    min_full : (n : ℕ) → n ≡ 64 → min 63 n ≡ 63
    min_full n h = omega arith

    min_room : (n : ℕ) → n ≤ 63 → min 63 n ≡ n
    min_room n h = omega arith

-- The three running sums are those of the recent entries.
pub record Summed (w : FeatureWindow) : Type 0 where
  pub order_flow : w.order_flow_sum ≡ sum_by (λ e. e.order_flow) (recent w)
  pub trade_flow : w.trade_flow_sum ≡ sum_by (λ e. e.trade_flow) (recent w)
  pub motion : w.absolute_midpoint_change_sum ≡ sum_by (λ e. e.absolute_midpoint_change) (recent w)

push_sums :
    (w : FeatureWindow) (a b c : ℤ)
    → let w' = push w a b c in
      let full = w.size == 64 in
      (w'.order_flow_sum
        ≡ (if full then w.order_flow_sum -ℤ (oldest w).order_flow else w.order_flow_sum) +ℤ a)
      × (w'.trade_flow_sum
          ≡ (if full then w.trade_flow_sum -ℤ (oldest w).trade_flow else w.trade_flow_sum) +ℤ b)
      × (w'.absolute_midpoint_change_sum
          ≡ (if full
              then w.absolute_midpoint_change_sum -ℤ (oldest w).absolute_midpoint_change
              else w.absolute_midpoint_change_sum)
            +ℤ c)
unfolding push
push_sums w a b c = (ground arith, ground arith, ground arith)

running_sum :
    (f : Entry → ℤ) (w : FeatureWindow) (a b c total new : ℤ)
    → IsWindow w
    → total ≡ sum_by f (recent w)
    → new
      ≡ (if w.size == 64 then total -ℤ f (oldest w) else total)
        +ℤ f (record { order_flow = a; trade_flow = b; absolute_midpoint_change = c })
    → new ≡ sum_by f (recent (push w a b c))
running_sum f w a b c total new v h e =
    let x : Entry = record { order_flow = a; trade_flow = b; absolute_midpoint_change = c } in
    e
    ∙ ap (λ (t : ℤ). (if w.size == 64 then t -ℤ f (oldest w) else t) +ℤ f x) h
    ∙ sym (ap (sum_by f) (recent-push w a b c v) ∙ sum_by-push f w x v)

-- A `push` puts the new entry in front of the recent ones, keeps 64 of them, and keeps the running
-- sums equal to the sums over these.
pub push_lem :
    (w : FeatureWindow) (a b c : ℤ)
    → IsWindow w
    → Summed w
    → (recent (push w a b c)
        ≡ take window_size
            (record { order_flow = a; trade_flow = b; absolute_midpoint_change = c } ∷ recent w))
      × IsWindow (push w a b c)
      × Summed (push w a b c)
push_lem w a b c v s =
    let p = push_sums w a b c in
    (
      recent-push w a b c v,
      push-IsWindow w a b c v,
      record {
        order_flow = running_sum (λ x. x.order_flow) w a b c _ _ v s.order_flow p.0;
        trade_flow = running_sum (λ x. x.trade_flow) w a b c _ _ v s.trade_flow p.1;
        motion = running_sum (λ x. x.absolute_midpoint_change) w a b c _ _ v s.motion p.2;
      },
    )

unfoldable pub push_all : FeatureWindow → List Entry → FeatureWindow
push_all w [] = w
push_all w (e ∷ es) = push_all (push w e.order_flow e.trade_flow e.absolute_midpoint_change) es

-- The entries of a list that are pushed one by one, in front of older ones.
abbrev pub newest_first : List Entry → List Entry → List Entry
newest_first older [] = older
newest_first older (e ∷ es) = newest_first (e ∷ older) es

take-take-cons : (n : ℕ) (e : Entry) (es : List Entry) → take n (e ∷ take n es) ≡ take n (e ∷ es)
take-take-cons zero e es = refl
take-take-cons (suc n) e es = ap (λ t. e ∷ t) (take-take n es)
  where
    take-take : (n : ℕ) (es : List Entry) → take n (take (suc n) es) ≡ take n es
    take-take zero es = refl
    take-take (suc n) [] = refl
    take-take (suc n) (x ∷ es) = ap (λ t. x ∷ t) (take-take n es)

take-newest_first :
    (n : ℕ) (older es : List Entry)
    → take n (newest_first (take n older) es) ≡ take n (newest_first older es)
take-newest_first n older [] = take_twice n older
  where
    take_twice : (n : ℕ) (es : List Entry) → take n (take n es) ≡ take n es
    take_twice zero es = refl
    take_twice (suc n) [] = refl
    take_twice (suc n) (x ∷ es) = ap (λ t. x ∷ t) (take_twice n es)
take-newest_first n older (e ∷ es) =
    sym (take-newest_first n (e ∷ take n older) es)
    ∙ ap (λ t. take n (newest_first t es)) (take-take-cons n e older)
    ∙ take-newest_first n (e ∷ older) es

push_all_lem :
    (w : FeatureWindow) (older es : List Entry)
    → IsWindow w
    → Summed w
    → recent w ≡ take window_size older
    → (recent (push_all w es) ≡ take window_size (newest_first older es))
      × IsWindow (push_all w es)
      × Summed (push_all w es)
unfolding push_all
push_all_lem w older [] v s h = (h, v, s)
push_all_lem w older (e ∷ es) v s h =
    let p = push_lem w e.order_flow e.trade_flow e.absolute_midpoint_change v s in
    push_all_lem (push w e.order_flow e.trade_flow e.absolute_midpoint_change) (e ∷ older) es p.1
      p.2 (p.0 ∙ ap (λ t. take window_size (e ∷ t)) h ∙ take-take-cons window_size e older)

-- After any number of pushes on an empty window its recent entries are the last 64 pushed, newest
-- first, and the running sums are the sums over exactly these.
pub push_all_empty :
    (es : List Entry)
    → let w = push_all empty_window es in
      (recent w ≡ take window_size (newest_first [] es))
      × (w.order_flow_sum ≡ sum_by (λ e. e.order_flow) (take window_size (newest_first [] es)))
      × (w.trade_flow_sum ≡ sum_by (λ e. e.trade_flow) (take window_size (newest_first [] es)))
      × (w.absolute_midpoint_change_sum
          ≡ sum_by (λ e. e.absolute_midpoint_change) (take window_size (newest_first [] es)))
push_all_empty es =
    let start : Summed empty_window =
      unfold sum_by in record { order_flow = refl; trade_flow = refl; motion = refl } in
    let p = push_all_lem empty_window [] es (omega arith) start refl in
    (
      p.0,
      p.2.order_flow ∙ ap (sum_by (λ e. e.order_flow)) p.0,
      p.2.trade_flow ∙ ap (sum_by (λ e. e.trade_flow)) p.0,
      p.2.motion ∙ ap (sum_by (λ e. e.absolute_midpoint_change)) p.0,
    )
