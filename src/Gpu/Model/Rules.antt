-- ===== src/Gpu/Model/Rules.antt =====
-- Proof rules for the operations of src/gpu/gpu_model.cpp: what holds when one returns, and when it
-- throws.
use adaptive_fpga.Prelude.{ℕ, ◌≡◌, refl, Bool, true, false, Option, List, [], ◌∷◌, if◌then◌else◌}
use adaptive_fpga.Gpu.Model.{
  OpenCl, Impl, Mapping, Call, ModelError, Exit, returned, threw, Op, resume, ◌>>=◌, ◌>>◌, give,
  fail, modify, refuse_if, is_zero, settle, record_call, enqueue, check_opencl, check_all,
}

abbrev pub After {ℓ} : {A : Type ℓ} → (A → Impl → Type 0) → (Impl → Type 0) → Exit A × Impl → Type 0
After R Q (returned a, s) = R a s
After R Q (threw e, s) = Q s

-- From `P`, the operation returns with `R` or throws with `Q`.
pub record Triple {ℓ} {A : Type ℓ} (P : Impl → Type 0) (R : A → Impl → Type 0) (Q : Impl → Type 0)
    (m : Op A) : Type ℓ where
  pub ends : (s : Impl) → P s → After R Q (m s)

abbrev pub Keeps {ℓ} : {A : Type ℓ} → (Impl → Type 0) → Op A → Type ℓ
Keeps P m = Triple P (λ a. P) P m

module _ {A B : Type 0} {P Q : Impl → Type 0} {R : A → Impl → Type 0} {R' : B → Impl → Type 0} where
  pub bind_triple :
      (m : Op A) (k : A → Op B)
      → Triple P R Q m
      → ((a : A) → Triple (R a) R' Q (k a))
      → Triple P R' Q (m >>= k)
  unfolding ◌>>=◌
  bind_triple m k first second = record { ends = λ s p. continue (m s) (first.ends s p) }
    where
      continue : (r : Exit A × Impl) → After R Q r → After R' Q (resume r k)
      continue (returned a, s') h = unfold resume in (second a).ends s' h
      continue (threw e, s') h = unfold resume in h

pub then_triple :
    {B : Type 0} {P R Q : Impl → Type 0} {R' : B → Impl → Type 0} (m : Op (Unit {0})) (k : Op B)
    → Triple P (λ u. R) Q m
    → Triple R R' Q k
    → Triple P R' Q (m >> k)
unfolding ◌>>◌
then_triple m k first second = bind_triple m (λ u. k) first (λ u. second)

pub give_triple :
    {A : Type 0} {P Q : Impl → Type 0} {R : A → Impl → Type 0} (a : A)
    → ((s : Impl) → P s → R a s)
    → Triple P R Q (give a)
unfolding give
give_triple a h = record { ends = h }

pub modify_triple :
    {P Q R : Impl → Type 0} (change : Impl → Impl)
    → ((s : Impl) → P s → R (change s))
    → Triple P (λ u. R) Q (modify change)
unfolding modify
modify_triple change h = record { ends = h }

pub enqueue_triple :
    {P Q R : Impl → Type 0} (cl : OpenCl) (action : Call) (put : Bool → Impl → Impl)
    → ((s : Impl) → P s → R (put true (record_call action s)))
    → ((s : Impl) → P s → Q (put false (record_call action s)))
    → Triple P (λ u. R) Q (enqueue cl action put)
unfolding enqueue
enqueue_triple {P = P} {Q = Q} {R = R} cl action put success failure = record {
  ends = λ s p. settled s p (is_zero (cl.status s.calls action));
}
  where
    settled :
        (s : Impl) (p : P s) (ok : Bool)
        → After (λ u. R) Q (settle ok action (cl.status s.calls action) put (record_call action s))
    settled s p true = unfold settle in success s p
    settled s p false = unfold settle in failure s p

pub refuse_triple :
    {P Q R : Impl → Type 0} (test : Bool) (error : ModelError)
    → (test ≡ true → (s : Impl) → P s → Q s)
    → (test ≡ false → (s : Impl) → P s → R s)
    → Triple P (λ u. R) Q (refuse_if test error)
unfolding refuse_if give fail
refuse_triple true error refused passed = record { ends = refused refl }
refuse_triple false error refused passed = record { ends = passed refl }

-- A predicate on what says whether the batch memory is mapped, and an update in flight.
abbrev pub On : (Mapping → Option ℕ → Type 0) → Impl → Type 0
On P s = P s.mapping s.pending_stream_update_version

module _ (P : Mapping → Option ℕ → Type 0) where
  pub refuse-Keeps : (test : Bool) (error : ModelError) → Keeps (On P) (refuse_if test error)
  refuse-Keeps test error = refuse_triple test error (λ t s p. p) (λ t s p. p)

  pub record_call_keeps : (action : Call) (s : Impl) → On P s → On P (record_call action s)
  unfolding record_call
  record_call_keeps action s p = p

  -- A call whose handle is another member.
  pub enqueue-Keeps :
      (cl : OpenCl) (action : Call) (put : Bool → Impl → Impl)
      → ((ok : Bool) (s : Impl) → On P s → On P (put ok s))
      → Keeps (On P) (enqueue cl action put)
  enqueue-Keeps cl action put h =
      enqueue_triple cl action put
        (λ s p. h true (record_call action s) (record_call_keeps action s p))
        (λ s p. h false (record_call action s) (record_call_keeps action s p))

  pub check-Keeps : (cl : OpenCl) (action : Call) → Keeps (On P) (check_opencl cl action)
  unfolding check_opencl
  check-Keeps cl action = enqueue-Keeps cl action (λ ok s. s) (λ ok s p. p)

  pub check_all-Keeps : (cl : OpenCl) (actions : List Call) → Keeps (On P) (check_all cl actions)
  unfolding check_all
  check_all-Keeps cl [] = give_triple tt (λ s p. p)
  check_all-Keeps cl (action ∷ actions) =
      then_triple (check_opencl cl action) (check_all cl actions) (check-Keeps cl action)
        (check_all-Keeps cl actions)

-- An operation chosen by what the state holds.
pub read_triple :
    {X A : Type 0} {P Q : Impl → Type 0} {R : A → Impl → Type 0} (read : Impl → X) (f : X → Op A)
    → ((x : X) → Triple (λ s. P s × (read s ≡ x)) R Q (f x))
    → Triple P R Q (λ s. f (read s) s)
read_triple read f h = record { ends = λ s p. (h (read s)).ends s (p, refl) }

pub if_triple :
    {A : Type 0} {P Q : Impl → Type 0} {R : A → Impl → Type 0} (test : Impl → Bool) (m n : Op A)
    → Triple (λ s. P s × (test s ≡ true)) R Q m
    → Triple (λ s. P s × (test s ≡ false)) R Q n
    → Triple P R Q (λ s. if test s then m s else n s)
if_triple {P = P} {Q = Q} {R = R} test m n chosen_true chosen_false = record {
  ends = λ s p. chosen s p (test s) refl;
}
  where
    chosen : (s : Impl) → P s → (b : Bool) → test s ≡ b → After R Q (if b then m s else n s)
    chosen s p true h = chosen_true.ends s (p, h)
    chosen s p false h = chosen_false.ends s (p, h)

-- A weaker end, from a stronger start.
pub weaken :
    {A : Type 0} {P P' Q Q' : Impl → Type 0} {R R' : A → Impl → Type 0} {m : Op A}
    → ((s : Impl) → P' s → P s)
    → ((a : A) (s : Impl) → R a s → R' a s)
    → ((s : Impl) → Q s → Q' s)
    → Triple P R Q m
    → Triple P' R' Q' m
weaken {A = A} {Q = Q} {Q' = Q'} {R = R} {R' = R'} {m = m} start finish thrown h = record {
  ends = λ s p. ended (m s) (h.ends s (start s p));
}
  where
    ended : (r : Exit A × Impl) → After R Q r → After R' Q' r
    ended (returned a, s) e = finish a s e
    ended (threw e, s) q = thrown s q
