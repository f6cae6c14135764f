-- ===== src/Book/Checker.antt =====
-- The check `invariants` of src/market/order_book.cpp accepts exactly the well-formed books.
use adaptive_fpga.Prelude.{
  ◌<◌, ◌≡◌, ◌↔◌, refl, ◌⊎◌, inl, inr, Bool, true, false, ◌==◌, [], ◌∷◌, Option, none, some, arith,
  Bool-cases, get_or,
}
use adaptive_fpga.Prelude.Int.{ℤ, ◌<ℤ◌}
use adaptive_fpga.Event.{Side, bid, ask, unknown_side}
use adaptive_fpga.Book.Array.{PriceLevel, Levels, empty_level}
use adaptive_fpga.Book.Sides.{After, AllEmpty, IsSide}
use adaptive_fpga.Book.{
  BookSnapshot, InvariantReport, valid_book, check_levels, invariants, out_of_order, order_report,
  is_crossed, is_valid, book_is_crossed,
}

-- The price before which the loop stands, if the level before is used.
abbrev price_of : Option PriceLevel → Option ℤ
price_of none = none
price_of (some level) = some level.price_ticks

abbrev Used : Option PriceLevel → Type 0
Used none = Unit {0}
Used (some level) = 0 < level.quantity

check_unused :
    (s : Side) (previous : Option PriceLevel) (levels : Levels)
    → (check_levels s previous true levels ≡ valid_book) ↔ AllEmpty levels
unfolding check_levels
check_unused s previous [] = (λ h. tt, λ h. refl)
check_unused s previous (level ∷ rest) =
    let ih = check_unused s (some level) rest in
    (λ h. ground (arith, ih.0), λ h. ground (arith, ih.1))

out_of_order-After :
    (s : Side) (previous : Option PriceLevel) (level : PriceLevel)
    → Used previous
    → (out_of_order s previous level ≡ false) ↔ After s (price_of previous) level.price_ticks
unfolding out_of_order
out_of_order-After s none level u = (λ h. tt, λ h. refl)
out_of_order-After s (some p) level u = (λ h. ground arith, λ h. ground arith)

order_report_ne : (s : Side) → order_report s ≡ valid_book → ⊥
unfolding order_report
order_report_ne bid h = cc
order_report_ne ask h = cc
order_report_ne (unknown_side n) h = cc

check_side :
    (s : Side) (previous : Option PriceLevel) (levels : Levels)
    → Used previous
    → (check_levels s previous false levels ≡ valid_book) ↔ IsSide s (price_of previous) levels
unfolding check_levels
check_side s previous [] u = (λ h. tt, λ h. refl)
check_side s previous (level ∷ rest) u = elim (Bool-cases (level.quantity == 0)) [
  | inl unused ↦
      let empty = check_unused s (some level) rest in
      (λ h. inr (ground arith, ground arith, empty.0 (ground arith)), λ h. ground (arith, empty.1))
  | inr used ↦
      let after = out_of_order-After s previous level u in
      let below = check_side s (some level) rest (ground arith) in
      (
        λ h. inl (
          ground arith,
          ground (arith, order_report_ne s),
          after.0 (ground (arith, order_report_ne s)),
          below.0 (ground (arith, order_report_ne s)),
        ),
        λ h. ground (arith, after.1, below.1),
      )
]

-- An empty side, or the best bid below the best ask.
abbrev pub IsUncrossed : BookSnapshot → Type 0
IsUncrossed book =
    ((get_or book.bids 0 empty_level).quantity ≡ 0)
    ⊎ ((get_or book.asks 0 empty_level).quantity ≡ 0)
    ⊎ ((get_or book.bids 0 empty_level).price_ticks <ℤ (get_or book.asks 0 empty_level).price_ticks)

pub is_crossed-IsUncrossed : (book : BookSnapshot) → (is_crossed book ≡ false) ↔ IsUncrossed book
unfolding is_crossed
is_crossed-IsUncrossed book =
    let bid_quantity = (get_or book.bids 0 empty_level).quantity in
    let ask_quantity = (get_or book.asks 0 empty_level).quantity in
    (
      λ h. elim (Bool-cases (bid_quantity == 0)) [
        | inl b ↦ inl (ground arith)
        | inr b ↦ elim (Bool-cases (ask_quantity == 0)) [
          | inl a ↦ inr (inl (ground arith))
          | inr a ↦ inr (inr (ground arith))
        ]
      ],
      λ h. ground arith,
    )

-- A book as it is between events: both sides well-formed, and the best bid below the best ask unless
-- crossed books are allowed.
pub record IsBook (allow_crossed : Bool) (book : BookSnapshot) : Type 0 where
  pub bids_ordered : IsSide bid none book.bids
  pub asks_ordered : IsSide ask none book.asks
  pub spread : (allow_crossed ≡ true) ⊎ IsUncrossed book

is_valid_iff : (r : InvariantReport) → (is_valid r ≡ true) ↔ (r ≡ valid_book)
unfolding is_valid
is_valid_iff valid_book = (λ h. refl, λ h. refl)
is_valid_iff _ = (λ h. cc, λ h. cc)

-- The check reports no violation exactly for the well-formed books.
pub invariants-IsBook :
    (allow_crossed : Bool) (book : BookSnapshot)
    → (invariants book allow_crossed ≡ valid_book) ↔ IsBook allow_crossed book
unfolding invariants
invariants-IsBook allow_crossed book =
    let bids = check_side bid none book.bids tt in
    let asks = check_side ask none book.asks tt in
    let uncrossed : (allow_crossed ≡ true) ⊎ IsUncrossed book
        → (allow_crossed ≡ true) ⊎ (is_crossed book ≡ false) =
      (λ s. elim s [ inl a ↦ inl a | inr u ↦ inr ((is_crossed-IsUncrossed book).1 u) ]) in
    (
      λ h. record {
        bids_ordered = bids.0 (ground arith);
        asks_ordered = asks.0 (ground arith);
        spread = elim (Bool-cases allow_crossed) [
          | inl a ↦ inl a
          | inr a ↦ inr ((is_crossed-IsUncrossed book).0 (ground arith))
        ];
      },
      λ h. ground (arith, bids.1 h.bids_ordered, asks.1 h.asks_ordered, uncrossed h.spread),
    )

-- With both sides well-formed, the only violation left is a crossed spread.
pub invariants_of_sides :
    (allow_crossed : Bool) (book : BookSnapshot)
    → IsSide bid none book.bids
    → IsSide ask none book.asks
    → (invariants book allow_crossed ≡ valid_book)
      ⊎ ((invariants book allow_crossed ≡ book_is_crossed)
          × (allow_crossed ≡ false)
          × (is_crossed book ≡ true))
unfolding invariants
invariants_of_sides allow_crossed book b a =
    ground (arith, (check_side bid none book.bids tt).1 b, (check_side ask none book.asks tt).1 a)
